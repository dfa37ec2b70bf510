-- ===== src/Klib/Numbers/Digits.antt =====
-- Reading back what is printed.
use husky_os.Base.{
  some, ℕ, zero, suc, ◌+◌, ◌-◌, ◌*◌, ◌/◌, ◌%◌, ◌^◌, ◌≤◌, ◌<◌, ◌≡◌, true, List, [], ◌∷◌, ◌++◌, leb,
  ◌==◌, if◌then◌else◌, replicate, u32, length, length-append, arith, refl, sym, ◌∙◌, ap, inl, inr,
  Bool-cases,
}
use native.Mathlib.Nat.{
  div-add-mod', pow-suc, add-mul, add-mul-mod_self_right, pow-zero, mul_assoc, pow-succ',
}
use husky_os.Klib.Text.{Text}
use husky_os.Klib.Numbers.{
  digit_char, digits_of, emit, digit_buffer, in_buff, unsigned_number_to_string, number_to_string,
  pow_from, pow,
}

-- The value of a digit.
abbrev pub digit_value : ℕ → ℕ
digit_value c = if leb 97 c then c - 87 else c - 48

-- The number that a text denotes, behind a part that denotes `high`.
unfoldable pub read_from : (base high : ℕ) → Text → ℕ
read_from base high [] = high
read_from base high (c ∷ cs) = read_from base (high * base + digit_value c) cs

abbrev pub number_of : (base : ℕ) → Text → ℕ
number_of base s = read_from base 0 s

-- The same for the digits from the lowest on.
pub value : (base : ℕ) → List ℕ → ℕ
value base [] = 0
value base (c ∷ cs) = digit_value c + value base cs * base

pub read_from-emit :
    (base : ℕ) (buff behind : List ℕ)
    → read_from base 0 (emit buff behind) ≡ read_from base (value base buff) behind
unfolding emit value
read_from-emit base [] behind = refl
read_from-emit base (c ∷ buff) behind =
    read_from-emit base buff (c ∷ behind)
    ∙ unfold read_from in ap (λ (n : ℕ). read_from base n behind) (omega arith)

digit_value-digit_char : (d : ℕ) → d < 36 → digit_value (digit_char d) ≡ d
unfolding digit_char
digit_value-digit_char d h = ground arith

pub value-digits_of :
    (base fuel n : ℕ) → 2 ≤ base → base ≤ 36 → n < 2 ^ fuel → value base (digits_of base fuel n) ≡ n
unfolding digits_of value
value-digits_of base zero n h b w = omega arith
value-digits_of base (suc fuel) n h b w = elim (Bool-cases (n == 0)) [
  | inl e ↦ rw e (ground arith)
  | inr e ↦
      let whole = div-add-mod' n base in
      let small : n % base < 36 = grind arith in
      let twice : n / base * 2 ≤ n / base * base = grind arith in
      rw
        (
          e,
          digit_value-digit_char (n % base) small,
          value-digits_of base fuel (n / base) h b (omega (arith, pow-suc 2 fuel)),
        )
        (omega arith)
]

pub length-digits_of : (base fuel n : ℕ) → length (digits_of base fuel n) ≤ fuel
unfolding digits_of
length-digits_of base zero n = omega arith
length-digits_of base (suc fuel) n = ground (arith, length-digits_of base fuel (n / base))

pub value-zeros : (base p : ℕ) → value base (replicate p 48) ≡ 0
unfolding value
value-zeros base zero = refl
value-zeros base (suc p) = ground (arith, value-zeros base p)

value-append : (base p : ℕ) (cs : List ℕ) → value base (cs ++ replicate p 48) ≡ value base cs
unfolding value
value-append base p [] = value-zeros base p
value-append base p (c ∷ cs) = ap (λ (n : ℕ). digit_value c + n * base) (value-append base p cs)

pub length-replicate : (p : ℕ) → length {A = ℕ} (replicate p 48) ≡ p
length-replicate zero = refl
length-replicate (suc p) = ap suc (length-replicate p)

-- With at most 33 zeros before it a number fits `buff`.
pub in_buff-digit_buffer :
    (n base precision : ℕ)
    → precision ≤ 33
    → in_buff (digit_buffer n base precision) ≡ some (digit_buffer n base precision)
unfolding in_buff digit_buffer
in_buff-digit_buffer n base p q =
    let short : leb (length (digits_of base 32 n ++ replicate p 48)) 65 ≡ true = ground (
      arith,
      length-append (digits_of base 32 n) (replicate p 48),
      length-replicate p,
      length-digits_of base 32 n,
    ) in
    rw short refl

-- What `unsigned_number_to_string` prints reads back as the number, in the bases 2 to 36 and with
-- at most 33 zeros before it.
pub unsigned_number_to_string_lem :
    (n base precision : ℕ)
    → n < 2 ^ 32
    → 2 ≤ base
    → base ≤ 36
    → precision ≤ 33
    → (text : Text) × (unsigned_number_to_string n base precision ≡ some text)
      × (number_of base text ≡ n)
unfolding unsigned_number_to_string
unsigned_number_to_string_lem n base p w h b q = elim (Bool-cases (n == 0)) [
  | inl e ↦ rw e (48 ∷ [], refl, unfold read_from in ground arith)
  | inr e ↦
      rw (e, in_buff-digit_buffer n base p q)
        (
          emit (digit_buffer n base p) [],
          refl,
          unfold digit_buffer in
              read_from-emit base (digits_of base 32 n ++ replicate p 48) []
              ∙ unfold read_from in
                value-append base p (digits_of base 32 n) ∙ value-digits_of base 32 n h b w,
        )
]

-- `number_to_string` prints an `int32_t` that is not negative so that it reads back, and a negative
-- one as "-" and digits that read back as its absolute value, in the same bases.
pub number_to_string_lem :
    (n base precision : ℕ)
    → n < 2 ^ 32
    → 2 ≤ base
    → base ≤ 36
    → precision ≤ 33
    → (text : Text) × (number_to_string n base precision
        ≡ some (if leb (2 ^ 31) n then 45 ∷ text else text))
      × (number_of base text ≡ (if leb (2 ^ 31) n then 2 ^ 32 - n else n))
unfolding number_to_string
number_to_string_lem n base p w h b q = elim (Bool-cases (leb (2 ^ 31) n)) [
  | inl e ↦
      let low : 2 ^ 31 ≤ n = ground arith in
      let small : u32 (2 ^ 32 - n) ≡ 2 ^ 32 - n = omega arith in
      let (text, done, back) =
        unsigned_number_to_string_lem (2 ^ 32 - n) base p (omega arith) h b q in
      rw (e, small, done) (text, refl, back)
  | inr e ↦ rw e (unsigned_number_to_string_lem n base p w h b q)
]

u32-mul : (x c : ℕ) → u32 (u32 x * c) ≡ u32 (x * c)
u32-mul x c =
    let whole : u32 x + x / 2 ^ 32 * 2 ^ 32 ≡ x = omega arith in
    let product : x * c ≡ u32 x * c + x / 2 ^ 32 * c * 2 ^ 32 =
      ap (λ (t : ℕ). t * c) (sym whole) ∙ add-mul (u32 x) (x / 2 ^ 32 * 2 ^ 32) c ∙ omega arith in
    sym (ap u32 product ∙ add-mul-mod_self_right (u32 x * c) (x / 2 ^ 32 * c) (2 ^ 32))

pow_from_lem : (exponent base r : ℕ) → u32 (pow_from exponent base r) ≡ u32 (r * base ^ exponent)
unfolding pow_from
pow_from_lem zero base r = ground (arith, pow-zero base)
pow_from_lem (suc e) base r =
    pow_from_lem e base (u32 (r * base))
    ∙ u32-mul (r * base) (base ^ e)
    ∙ ap u32 (mul_assoc r base (base ^ e) ∙ ap (λ (t : ℕ). r * t) (sym (pow-succ' base e)))

-- `pow` multiplies once too often: modulo 2 ^ 32 it answers the power by the exponent and one more.
pub pow_lem : (base exponent : ℕ) → u32 (pow base exponent) ≡ u32 (base ^ (exponent + 1))
unfolding pow
pow_lem base e =
    pow_from_lem e base base
    ∙ ap u32 (sym (pow-succ' base e) ∙ ap (λ (t : ℕ). base ^ t) (omega arith))
