-- ===== src/Klib/Numbers.antt =====
-- Kernel/src/klib/Utils.cpp and Math.cpp: printing whole numbers, and powers. The base is 2 to 36
-- in the kernel's calls. `none` is a function that has written or read past its own `buff` of 65 bytes.
pub mod Digits
pub mod Floats
mod Examples
use husky_os.Base.{
  ◌>>=◌, ℕ, zero, suc, ◌+◌, ◌-◌, ◌*◌, ◌/◌, ◌%◌, ◌^◌, List, [], ◌∷◌, ◌++◌, leb, ◌==◌, if◌then◌else◌,
  replicate, u8, u32, length, Option, some, none,
}
use husky_os.Klib.Text.{Text}

-- `'a' + (digit - 10)` or `'0' + digit`, cut to a `char`
unfoldable pub digit_char : ℕ → ℕ
digit_char digit = u8 (if leb 10 digit then 97 + (digit - 10) else 48 + digit)

-- The loop over the digits: what it puts into `buff`, from index 0 on.
unfoldable pub digits_of : (base fuel number : ℕ) → List ℕ
digits_of base zero number = []
digits_of base (suc fuel) number =
    let on = digits_of base fuel (number / base) in
    if number == 0 then [] else digit_char (number % base) ∷ on

-- The last loop: `buff` from its last byte to its first.
unfoldable pub emit : (buff behind : List ℕ) → Text
emit [] behind = behind
emit (c ∷ buff) behind = emit buff (c ∷ behind)

-- What stands in `buff`; a `uint32_t` has at most 32 digits.
unfoldable pub digit_buffer : (number base precision : ℕ) → List ℕ
digit_buffer number base precision = digits_of base 32 number ++ replicate precision 48

-- `buff` has 65 bytes.
unfoldable pub in_buff : List ℕ → Option (List ℕ)
in_buff buff = if leb (length buff) 65 then some buff else none

-- A negative precision never gets down to 0: as a word it is more than `buff` has room for.
unfoldable pub unsigned_number_to_string : (number base precision : ℕ) → Option Text
unsigned_number_to_string number base precision =
    if number == 0
    then some (48 ∷ [])
    else (in_buff (digit_buffer number base precision) >>= λ buff. some (emit buff []))

-- `number_to_string`: an `int32_t` is the 32-bit word of its two's complement.
unfoldable pub number_to_string : (number base precision : ℕ) → Option Text
number_to_string number base precision =
    if leb (2 ^ 31) number
    then (unsigned_number_to_string (u32 (2 ^ 32 - number)) base precision >>= λ digits.
        some (45 ∷ digits))
    else unsigned_number_to_string number base precision

-- `pow`, over 32-bit words.
unfoldable pub pow_from : (exponent base returned_value : ℕ) → ℕ
pow_from zero base returned_value = returned_value
pow_from (suc exponent) base returned_value = pow_from exponent base (u32 (returned_value * base))

unfoldable pub pow : (base exponent : ℕ) → ℕ
pow base exponent = pow_from exponent base base
