-- ===== src/Cpu/Pic/Examples.antt =====
-- What `pic_signal_EOI` writes, and in which order.
use husky_os.Base.{ℕ, ◌≡◌, refl, List, [], ◌∷◌}
use husky_os.Cpu.Port.{Ports}
use husky_os.Cpu.Pic.{pic_signal_eoi}

-- What is written, newest first.
abbrev written : Ports (List (ℕ × ℕ))
written = record { input = λ s p. 0; reading = λ p s. s; output = λ p v s. (p, v) ∷ s }

eoi_order : pic_signal_eoi written 40 [] ≡ (0x20, 0x20) ∷ (0xa0, 0x20) ∷ []
unfolding pic_signal_eoi
eoi_order = refl
