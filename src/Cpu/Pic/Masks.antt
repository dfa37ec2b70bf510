-- ===== src/Cpu/Pic/Masks.antt =====
-- The masks of the sixteen lines.
use husky_os.Base.{
  ◌∙◌, not, ltb, inl, inr, Bool-cases, bit_or, ℕ, ◌+◌, ◌*◌, ◌/◌, ◌%◌, ◌^◌, ◌<◌, ◌≡◌, ◌≢◌, Bool,
  true, false, ◌==◌, if◌then◌else◌, u8, arith, refl,
}
use husky_os.Base.Bits.{passes_below, passes_below_at, same, same-eq}
use husky_os.Cpu.Port.{Ports}
use husky_os.Cpu.Pic.{
  pic1_data, pic2_data, port_of, line_of, mask_with, pic_start, pic_remap, pic_set_mask,
}
use husky_os.Cpu.Pic.Controllers.{
  data_of, Is8259a, Awaits, Awaits-reading, Awaits-first_mask, Awaits-second_mask, Awaits-pic_start,
}

abbrev pub bit_of : (value line : ℕ) → Bool
bit_of value line = value / 2 ^ line % 2 == 1

-- Whether a line is masked.
abbrev pub masked : {S : Type 0} → Ports S → S → ℕ → Bool
masked ports s irq_line = bit_of (ports.input s (port_of irq_line)) (line_of irq_line)

-- The operation on a byte, checked for every byte and every two lines.
fits_with : (value line other : ℕ) → Bool
unfolding mask_with
fits_with value line other =
    same (bit_of (mask_with value line) other) (if line == other then true else bit_of value other)

abbrev check_with : ℕ → Bool
check_with x = fits_with (x / 64) (x / 8 % 8) (x % 8)

checked_with : passes_below check_with 16384 ≡ true
unfolding passes_below fits_with
checked_with = refl

fits_with-eq :
    (value line other : ℕ)
    → fits_with value line other ≡ true
    → bit_of (mask_with value line) other ≡ (if line == other then true else bit_of value other)
unfolding fits_with
fits_with-eq value line other e = same-eq _ _ e

mask_with_lem :
    (value line other : ℕ)
    → value < 2 ^ 8
    → line < 8
    → other < 8
    → bit_of (mask_with value line) other ≡ (if line == other then true else bit_of value other)
mask_with_lem value line other hv hl ho =
    let x = value * 64 + line * 8 + other in
    let e1 : x / 64 ≡ value = omega arith in
    let e2 : x / 8 % 8 ≡ line = omega arith in
    let e3 : x % 8 ≡ other = omega arith in
    let p = passes_below_at check_with 16384 x checked_with (omega arith) in
    fits_with-eq value line other (cc)

line-port :
    (a b : ℕ)
    → a < 16
    → b < 16
    → ((line_of a < 8) × (line_of b < 8))
      × (port_of a ≡ port_of b → (line_of a == line_of b) ≡ (a == b))
      × (port_of a ≢ port_of b → (a == b) ≡ false)
unfolding port_of line_of
line-port a b ha hb = ground arith

-- The controller of a line.
abbrev is_second : ℕ → Bool
is_second irq_line = not (ltb irq_line 8)

port_of-data_of : (irq_line : ℕ) → port_of irq_line ≡ data_of (is_second irq_line)
unfolding port_of
port_of-data_of irq_line = elim (Bool-cases (ltb irq_line 8)) [
  | inl e ↦ rw e refl
  | inr e ↦ rw e refl
]

module _ {S : Type 0} (ports : Ports S) (h : Is8259a ports) where
  -- A mask that is written to a controller is what it answers, and the other answers what it did.
  input-mask :
      (s : S) (c d : Bool) (v : ℕ)
      → Awaits ports h 0 0 s
      → ports.input (ports.output (data_of c) v s) (data_of d)
        ≡ (if data_of c == data_of d then u8 v else ports.input s (data_of d))
  input-mask s false false v r = (h.mask s false v r.0).0
  input-mask s true true v r = (h.mask s true v r.1).0
  input-mask s false true v r =
      (h.apart s true pic1_data v (λ e. omega (arith, e)) (λ e. omega (arith, e))).0
  input-mask s true false v r =
      (h.apart s false pic2_data v (λ e. omega (arith, e)) (λ e. omega (arith, e))).0

  Awaits-mask :
      (s : S) (c : Bool) (v : ℕ)
      → Awaits ports h 0 0 s
      → Awaits ports h 0 0 (ports.output (data_of c) v s)
  Awaits-mask s false v r = Awaits-first_mask ports h v s r
  Awaits-mask s true v r = Awaits-second_mask ports h v s r

  pub Awaits-pic_set_mask :
      (s : S) (a : ℕ) → Awaits ports h 0 0 s → Awaits ports h 0 0 (pic_set_mask ports a s)
  unfolding pic_set_mask
  Awaits-pic_set_mask s a r =
      rw (port_of-data_of a)
        (Awaits-mask _ (is_second a) _ (Awaits-reading ports h (data_of (is_second a)) 0 0 s r))

  input-pic_set_mask :
      (s : S) (a b : ℕ)
      → Awaits ports h 0 0 s
      → ports.input (pic_set_mask ports a s) (port_of b) ≡ (
          if port_of a == port_of b
          then mask_with (ports.input s (port_of a)) (line_of a)
          else ports.input s (port_of b))
  unfolding pic_set_mask mask_with
  input-pic_set_mask s a b r =
      let v = u8 (bit_or (ports.input s (data_of (is_second a))) (2 ^ line_of a)) in
      let t = ports.reading (data_of (is_second a)) s in
      let e =
        input-mask t (is_second a) (is_second b) (u8 v)
          (Awaits-reading ports h (data_of (is_second a)) 0 0 s r) in
      let k = (h.read s (is_second b) (data_of (is_second a))).0 in
      rw (port_of-data_of a, port_of-data_of b) (ground (arith, e, k))

  -- `pic_set_mask` masks its line, of the sixteen, and leaves every other line as it was, where both
  -- controllers have their words.
  pub masked-pic_set_mask :
      (s : S) (irq_line other : ℕ)
      → Awaits ports h 0 0 s
      → irq_line < 16
      → other < 16
      → masked ports (pic_set_mask ports irq_line s) other
        ≡ (if irq_line == other then true else masked ports s other)
  masked-pic_set_mask s a b r ha hb =
      let l = line-port a b ha hb in
      let byte : ports.input s (port_of a) < 2 ^ 8 =
        rw (port_of-data_of a) (h.byte s (is_second a)) in
      rw (input-pic_set_mask s a b r) (
        ground (
          arith,
          l.1,
          l.2,
          mask_with_lem (ports.input s (port_of a)) (line_of a) (line_of b) byte l.0.0 l.0.1,
        ))

  -- `pic_remap` ends with the masks that it found, whatever starting the controllers makes of them.
  pub input-pic_remap :
      (s : S) (c : Bool) → ports.input (pic_remap ports s) (data_of c) ≡ ports.input s (data_of c)
  unfolding pic_remap
  input-pic_remap s false =
      let started = pic_start ports (ports.reading pic2_data (ports.reading pic1_data s)) in
      let ready = Awaits-pic_start ports h (ports.reading pic2_data (ports.reading pic1_data s)) in
      (h.apart _ false pic2_data _ (λ e. omega (arith, e)) (λ e. omega (arith, e))).0
      ∙ (h.mask started false (u8 (ports.input s pic1_data)) ready.0).0
      ∙ omega (arith, h.byte s false)
  input-pic_remap s true =
      let started = pic_start ports (ports.reading pic2_data (ports.reading pic1_data s)) in
      let ready = Awaits-pic_start ports h (ports.reading pic2_data (ports.reading pic1_data s)) in
      let first = Awaits-first_mask ports h (u8 (ports.input s pic1_data)) started ready in
      (h.mask _ true (u8 (ports.input (ports.reading pic1_data s) pic2_data)) first.1).0
      ∙ omega (arith, h.byte s true, (h.read s true pic1_data).0)

  pub masked-pic_remap :
      (s : S) (other : ℕ) → masked ports (pic_remap ports s) other ≡ masked ports s other
  masked-pic_remap s other =
      let e = input-pic_remap s (is_second other) in rw (port_of-data_of other, e) refl

  pub Awaits-pic_remap : (s : S) → Awaits ports h 0 0 (pic_remap ports s)
  unfolding pic_remap
  Awaits-pic_remap s =
      Awaits-second_mask ports h _ _ (Awaits-first_mask ports h _ _ (Awaits-pic_start ports h _))
