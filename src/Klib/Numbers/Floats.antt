-- ===== src/Klib/Numbers/Floats.antt =====
-- Kernel/src/klib/Utils.cpp: fnumber_to_string. The arithmetic on floating point numbers is the
-- processor's: a parameter. An `int` is the 32-bit word of its two's complement.
use husky_os.Base.{
  ◌>>=◌, ◌+◌, u8, ℕ, zero, suc, ◌-◌, ◌/◌, ◌%◌, ◌^◌, Option, some, none, List, [], ◌∷◌, ◌++◌, leb,
  ◌==◌, if◌then◌else◌, replicate, u32,
}
use husky_os.Klib.Text.{Text}
use husky_os.Klib.Numbers.{digits_of, emit, in_buff, pow}

pub record Floats : Type 0 where
  -- `(int32_t) floatNum`, for the bits of a number
  pub truncated : ℕ → ℕ
  -- `(int) ((floatNum - number) * scale)`
  pub scaled_rest : (float_num number scale : ℕ) → ℕ

-- The loop over the digits of `floatPart` where that is negative: so is each `digit`.
unfoldable pub negative_digits : (base fuel magnitude : ℕ) → List ℕ
negative_digits base zero magnitude = []
negative_digits base (suc fuel) magnitude =
    let on = negative_digits base fuel (magnitude / base) in
    if magnitude == 0 then [] else u8 (2 ^ 32 + 48 - magnitude % base) ∷ on

-- What the digits of the fraction put into `buff`.
unfoldable pub fraction_digits : (float_part base precision : ℕ) → List ℕ
fraction_digits float_part base precision =
    if float_part == 0
    then replicate precision 48
    else if leb (2 ^ 31) float_part
    then negative_digits base 32 (2 ^ 32 - float_part)
    else digits_of base 32 float_part

module _ (floats : Floats) where
  -- `if (precision != 0)`: the digits behind the point, and the point.
  unfoldable pub fraction_buffer : (float_num number base precision : ℕ) → List ℕ
  fraction_buffer float_num number base precision =
      if precision == 0
      then []
      else fraction_digits (floats.scaled_rest float_num number (pow base (precision - 1))) base
          precision
        ++ 46 ∷ []

-- The last loop, which starts at the last byte of `buff`; with none there it runs off: `none`.
unfoldable pub flush : (sign buff : List ℕ) → Option Text
flush sign [] = none
flush sign (c ∷ buff) = in_buff (c ∷ buff) >>= λ cs. some (sign ++ emit cs [])

-- The digits before the point: a 0 goes to `buffer` at once, others behind the fraction in `buff`.
unfoldable pub join_parts : (sign fraction : List ℕ) (number base : ℕ) → Option Text
join_parts sign fraction number base =
    if number == 0
    then flush (sign ++ 48 ∷ []) fraction
    else flush sign (fraction ++ digits_of base 32 number)

module _ (floats : Floats) where
  unfoldable pub fnumber_to_string : (float_num base precision : ℕ) → Option Text
  fnumber_to_string float_num base precision =
      let number = floats.truncated float_num in
      let absolute = u32 (2 ^ 32 - number) in
      if leb (2 ^ 31) number
      then join_parts (45 ∷ []) (fraction_buffer floats float_num absolute base precision) absolute
          base
      else join_parts [] (fraction_buffer floats float_num number base precision) number base
