-- ===== src/Cpu/Isr/Dispatch.antt =====
-- Which handlers an interrupt runs.
use husky_os.Base.{ℕ, ◌+◌, ◌-◌, ◌<◌, ◌≤◌, ◌≡◌, ◌≢◌, true, none, arith, sub64}
use husky_os.Cpu.Port.{Ports}
use husky_os.Cpu.Pic.{pic_signal_eoi}
use husky_os.Cpu.Isr.{
  Handler, Tables, panicked, halted, returned, run, intr_common_handler_c,
  register_interrupt_handler, attach, detach,
}

module _ {S : Type 0} (ports : Ports S) (t : Tables S) where
  -- An exception panics, vector 255 halts, an interrupt line runs the object that is attached to
  -- its vector, then the handler that is registered for its line, and then signals the end of the
  -- interrupt; every other vector below 256 does nothing.
  pub intr_common_handler_c_lem :
      (n : ℕ) (s : S)
      → (n < 32 → intr_common_handler_c ports t n s ≡ panicked)
        × (n ≡ 255 → intr_common_handler_c ports t n s ≡ halted)
        × (32 ≤ n
            → n < 48
            → intr_common_handler_c ports t n s
              ≡ returned (
                  pic_signal_eoi ports n (run (t.static_handlers (n - 32)) (run (t.handlers n) s))))
        × (48 ≤ n → n < 255 → intr_common_handler_c ports t n s ≡ returned s)
  unfolding intr_common_handler_c
  intr_common_handler_c_lem n s = (
    λ h. ground arith,
    λ h. ground arith,
    λ h k. (let e : sub64 n 32 ≡ n - 32 = omega arith in rw e (ground arith)),
    λ h k. ground arith,
  )

  -- A handler that is registered for one of the sixteen lines runs when the line's interrupt comes,
  -- after the object that is attached to the vector and before the end is signalled, and every
  -- other vector below 256 is handled as before.
  pub intr_common_handler_c-register :
      (line : ℕ) (handler : Handler S) (s : S)
      → line < 16
      → (intr_common_handler_c ports (register_interrupt_handler line handler t) (line + 32) s
          ≡ returned (pic_signal_eoi ports (line + 32) (handler (run (t.handlers (line + 32)) s))))
        × ((n : ℕ)
            → n < 256
            → n ≢ line + 32
            → intr_common_handler_c ports (register_interrupt_handler line handler t) n s
              ≡ intr_common_handler_c ports t n s)
  unfolding intr_common_handler_c register_interrupt_handler run
  intr_common_handler_c-register line handler s h = (
    (let e : sub64 (line + 32) 32 ≡ line = omega arith in rw e (ground arith)),
    λ n l ne. ground arith,
  )

  -- Detaching the object that is attached to a vector leaves the vector without one.
  pub detach-attach :
      (n : ℕ) (handler : Handler S) (k : ℕ)
      → t.handlers n ≡ none
      → n < 256
      → (detach n true (attach n handler t)).handlers k ≡ t.handlers k
  unfolding detach attach
  detach-attach n handler k e h = ground arith
