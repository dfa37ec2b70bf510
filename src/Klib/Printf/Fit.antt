-- ===== src/Klib/Printf/Fit.antt =====
-- Numbers that the buffers of `vkprint` hold.
use husky_os.Base.{
  ℕ, zero, suc, ◌+◌, ◌-◌, ◌*◌, ◌/◌, ◌^◌, ◌≤◌, ◌<◌, ◌≡◌, true, some, List, [], ◌∷◌, ◌++◌, leb, ltb,
  ◌==◌, replicate, length, length-append, u32, arith, refl, inl, inr, Bool-cases, ◌∙◌,
}
use native.Mathlib.Nat.{div-add-mod', pow-suc}
use husky_os.Klib.Text.{Text}
use husky_os.Klib.Numbers.{
  digits_of, emit, digit_buffer, unsigned_number_to_string, number_to_string,
}
use husky_os.Klib.Numbers.Digits.{length-replicate, in_buff-digit_buffer}
use husky_os.Klib.Printf.{held}

length-emit : (buff behind : List ℕ) → length (emit buff behind) ≡ length buff + length behind
unfolding emit
length-emit [] behind = omega arith
length-emit (c ∷ buff) behind = length-emit buff (c ∷ behind) ∙ omega arith

-- A number below `8 ^ k` has at most `k` digits, in every base from 8 on.
length-digits_below :
    (base fuel k n : ℕ) → 8 ≤ base → n < 8 ^ k → length (digits_of base fuel n) ≤ k
unfolding digits_of
length-digits_below base zero k n h w = omega arith
length-digits_below base (suc fuel) zero n h w = let e : n ≡ 0 = omega arith in rw e (omega arith)
length-digits_below base (suc fuel) (suc k) n h w =
    let whole = div-add-mod' n base in
    let eight : n / base * 8 ≤ n / base * base = grind arith in
    let on = length-digits_below base fuel k (n / base) h (omega (arith, pow-suc 8 k)) in
    ground (arith, on)

-- The text of a number with at most 19 zeros in front.
unsigned_number_to_string-short :
    (n base precision : ℕ)
    → n < 2 ^ 32
    → 8 ≤ base
    → precision ≤ 19
    → (text : Text) × (unsigned_number_to_string n base precision ≡ some text) × (length text ≤ 30)
unfolding unsigned_number_to_string
unsigned_number_to_string-short n base p w h q = elim (Bool-cases (n == 0)) [
  | inl e ↦ rw e (48 ∷ [], refl, omega arith)
  | inr e ↦
      rw (e, in_buff-digit_buffer n base p (omega (arith, q)))
        (
          emit (digit_buffer n base p) [],
          refl,
          unfold digit_buffer in
              omega (
                arith,
                length-emit (digits_of base 32 n ++ replicate p 48) [],
                length-append (digits_of base 32 n) (replicate p 48),
                length-replicate p,
                length-digits_below base 32 11 n h (omega (arith, w)),
              ),
        )
]

pub held-unsigned :
    (n base precision : ℕ)
    → n < 2 ^ 32
    → 8 ≤ base
    → precision ≤ 19
    → (text : Text) × (held (unsigned_number_to_string n base precision) ≡ some text)
unfolding held
held-unsigned n base p w h q =
    let (text, done, short) = unsigned_number_to_string-short n base p w h q in
    let fits : ltb (length text) 32 ≡ true = ground arith in (text, rw (done, fits) refl)

pub held-signed :
    (n precision : ℕ)
    → n < 2 ^ 32
    → precision ≤ 19
    → (text : Text) × (held (number_to_string n 10 precision) ≡ some text)
unfolding held number_to_string
held-signed n p w q = elim (Bool-cases (leb (2 ^ 31) n)) [
  | inl e ↦
      let (text, done, short) =
        unsigned_number_to_string-short (u32 (2 ^ 32 - n)) 10 p (omega arith) (omega arith) q in
      let fits : ltb (length (45 ∷ text)) 32 ≡ true = ground arith in
      (45 ∷ text, rw (e, done, fits) refl)
  | inr e ↦
      let (text, done, short) = unsigned_number_to_string-short n 10 p w (omega arith) q in
      let fits : ltb (length text) 32 ≡ true = ground arith in (text, rw (e, done, fits) refl)
]
