-- ===== src/Klib/Printf/Examples.antt =====
-- Formatted output on concrete arguments.
use husky_os.Base.{ℕ, zero, suc, ◌≡◌, refl, some, List, [], ◌∷◌}
use husky_os.Klib.Text.{Text}
use husky_os.Klib.Numbers.{
  digits_of, digit_char, emit, digit_buffer, in_buff, unsigned_number_to_string, number_to_string,
}
use husky_os.Klib.Numbers.Floats.{
  Floats, fnumber_to_string, flush, join_parts, fraction_buffer, fraction_digits,
}
use husky_os.Klib.Printf.{
  Arguments, vkprint, scan, step, directive, initial, plain, reset, long_flag, short_flag,
  print_signed, print_unsigned, take_precision, signed_value, unsigned_value, sign_extended,
  chosen_precision, held,
}
use husky_os.Klib.Printf.Items.{
  Item, literal, convert, long, dot, star, signed, unsigned, hex, percent, written, render,
  AreShort,
}
use husky_os.Klib.Printf.Render.{vkprint-render}

-- The words -2 (of 32 bits), 2 ^ 32 + 255, 100000 and then 3 for ever; the string "ab"; the
-- number 1.05, at the precision 6.
abbrev words : ℕ → ℕ
words zero = 4294967294
words (suc zero) = 4294967551
words (suc (suc zero)) = 100000
words (suc (suc (suc n))) = 3

abbrev one_point_05 : Floats
one_point_05 = record { truncated = λ f. 1; scaled_rest = λ f n s. 50000 }

abbrev arguments : Arguments
arguments = record {
  word = words;
  real = λ i. i;
  string_at = λ a. b'a' ∷ b'b' ∷ [];
  floats = one_point_05;
}

-- "<%ld %llx %u>": the second loses its bit 32, the third is cut to 16 bits.
abbrev items : List Item
items =
    literal b'<'
    ∷ convert (long ∷ []) signed
    ∷ literal b' '
    ∷ convert (long ∷ long ∷ []) hex
    ∷ literal b' '
    ∷ convert [] unsigned
    ∷ convert (dot ∷ star ∷ []) unsigned
    ∷ convert [] percent
    ∷ []

vkprint_run :
    vkprint arguments (written items)
    ≡ some (
        b'<' ∷ b'-' ∷ b'2' ∷ b' ' ∷ b'f' ∷ b'f' ∷ b' ' ∷ b'3' ∷ b'4' ∷ b'4' ∷ b'6' ∷ b'4' ∷ b'0'
        ∷ b'0' ∷ b'0' ∷ b'3' ∷ b'%' ∷ [])
unfolding vkprint scan step directive initial plain reset long_flag short_flag print_signed
    print_unsigned take_precision signed_value unsigned_value sign_extended chosen_precision
    digits_of digit_char emit digit_buffer unsigned_number_to_string number_to_string held in_buff
vkprint_run = refl

-- 1.05 prints as "1.50000".
fnumber_to_string_run :
    fnumber_to_string one_point_05 0 10 6
    ≡ some (b'1' ∷ b'.' ∷ b'5' ∷ b'0' ∷ b'0' ∷ b'0' ∷ b'0' ∷ [])
unfolding fnumber_to_string flush join_parts fraction_buffer fraction_digits digits_of digit_char
    emit in_buff
fnumber_to_string_run = refl

vkprint-render_example :
    (vkprint arguments (written items) ≡ render arguments items 0 0)
    × (AreShort arguments items 0 → (out : Text) × (vkprint arguments (written items) ≡ some out))
vkprint-render_example =
    vkprint-render arguments items
      (refl, (refl, (refl, (refl, (refl, (refl, (refl, (refl, tt))))))))
