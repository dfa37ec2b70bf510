-- ===== src/Cpu/Pic/Controllers.antt =====
-- What the manual of the 8259A says of the two controllers, and how `pic_start` leaves them.
use husky_os.Base.{ℕ, suc, ◌^◌, ◌<◌, ◌≡◌, ◌≢◌, ◌∙◌, Bool, true, false, u8, arith}
use husky_os.Cpu.Port.{Ports}
use husky_os.Cpu.Pic.{pic1_command, pic1_data, pic2_command, pic2_data, io_wait, both, pic_start}

-- The ports of the first controller and of the second.
abbrev pub data_of : (second : Bool) → ℕ
data_of false = pic1_data
data_of true = pic2_data

abbrev pub command_of : (second : Bool) → ℕ
command_of false = pic1_command
command_of true = pic2_command

-- The command 0x11 starts a controller, which may change its mask: it takes the next three writes to
-- its data port as initialisation words, and each write after them as its mask, which the data port
-- answers. A controller does not look at other ports, and reading changes nothing.
pub record Is8259a {S : Type 0} (ports : Ports S) : Type 0 where
  -- the words that a controller still waits for
  pub awaited : S → (second : Bool) → ℕ
  pub byte : (s : S) (c : Bool) → ports.input s (data_of c) < 2 ^ 8
  pub starts : (s : S) (c : Bool) → awaited (ports.output (command_of c) 0x11 s) c ≡ 3
  pub word :
      (s : S) (c : Bool) (v n : ℕ)
      → awaited s c ≡ suc n
      → awaited (ports.output (data_of c) v s) c ≡ n
  pub mask :
      (s : S) (c : Bool) (v : ℕ)
      → awaited s c ≡ 0
      → (ports.input (ports.output (data_of c) v s) (data_of c) ≡ u8 v)
        × (awaited (ports.output (data_of c) v s) c ≡ 0)
  pub apart :
      (s : S) (c : Bool) (p v : ℕ)
      → p ≢ data_of c
      → p ≢ command_of c
      → (ports.input (ports.output p v s) (data_of c) ≡ ports.input s (data_of c))
        × (awaited (ports.output p v s) c ≡ awaited s c)
  pub read :
      (s : S) (c : Bool) (p : ℕ)
      → (ports.input (ports.reading p s) (data_of c) ≡ ports.input s (data_of c))
        × (awaited (ports.reading p s) c ≡ awaited s c)

module _ {S : Type 0} (ports : Ports S) (h : Is8259a ports) where
  -- The words that the first and the second controller wait for.
  abbrev pub Awaits : (n k : ℕ) → S → Type 0
  Awaits n k s = (h.awaited s false ≡ n) × (h.awaited s true ≡ k)

  pub Awaits-reading : (p n k : ℕ) (s : S) → Awaits n k s → Awaits n k (ports.reading p s)
  Awaits-reading p n k s (a, b) = ((h.read s false p).1 ∙ a, (h.read s true p).1 ∙ b)

  Awaits-started : (s : S) → Awaits 3 3 (both ports pic1_command 0x11 pic2_command 0x11 s)
  Awaits-started s =
      let t = ports.output pic1_command 0x11 s in
      (
        (h.apart t false pic2_command 0x11 (λ e. omega (arith, e)) (λ e. omega (arith, e))).1
            ∙ h.starts s false,
        h.starts t true,
      )

  pub Awaits-first_word :
      (n k v : ℕ) (s : S) → Awaits (suc n) k s → Awaits n k (ports.output pic1_data v s)
  Awaits-first_word n k v s (a, b) = (
    h.word s false v n a,
    (h.apart s true pic1_data v (λ e. omega (arith, e)) (λ e. omega (arith, e))).1 ∙ b,
  )

  pub Awaits-second_word :
      (n k v : ℕ) (s : S) → Awaits n (suc k) s → Awaits n k (ports.output pic2_data v s)
  Awaits-second_word n k v s (a, b) = (
    (h.apart s false pic2_data v (λ e. omega (arith, e)) (λ e. omega (arith, e))).1 ∙ a,
    h.word s true v k b,
  )

  Awaits-words :
      (n k v w : ℕ) (s : S)
      → Awaits (suc n) (suc k) s
      → Awaits n k (ports.output pic2_data w (ports.output pic1_data v s))
  Awaits-words n k v w s a = Awaits-second_word n k w _ (Awaits-first_word n (suc k) v s a)

  -- A controller that waits for no word stays so under masks.
  pub Awaits-first_mask : (v : ℕ) (s : S) → Awaits 0 0 s → Awaits 0 0 (ports.output pic1_data v s)
  Awaits-first_mask v s (a, b) = (
    (h.mask s false v a).1,
    (h.apart s true pic1_data v (λ e. omega (arith, e)) (λ e. omega (arith, e))).1 ∙ b,
  )

  pub Awaits-second_mask : (v : ℕ) (s : S) → Awaits 0 0 s → Awaits 0 0 (ports.output pic2_data v s)
  Awaits-second_mask v s (a, b) = (
    (h.apart s false pic2_data v (λ e. omega (arith, e)) (λ e. omega (arith, e))).1 ∙ a,
    (h.mask s true v b).1,
  )

  -- `pic_start` gives both controllers all their words.
  pub Awaits-pic_start : (s : S) → Awaits 0 0 (pic_start ports s)
  unfolding pic_start
  Awaits-pic_start s =
      let wait : (n k : ℕ) (t : S) → Awaits n k t → Awaits n k (io_wait ports t) =
        Awaits-reading 0x80 in
      let t3 = wait 3 3 _ (Awaits-started s) in
      let t2 = wait 2 2 _ (Awaits-words 2 2 0x20 0x28 _ t3) in
      let t1 = wait 1 1 _ (Awaits-words 1 1 0x04 0x02 _ t2) in
      let t0 = wait 0 0 _ (Awaits-words 0 0 0x01 0x01 _ t1) in
      let zeros = wait 0 0 _ (Awaits-second_mask 0 _ (Awaits-first_mask 0 _ t0)) in
      let first = wait 0 0 _ (Awaits-first_mask 1 _ zeros) in
      wait 0 0 _ (Awaits-second_mask 1 _ first)
