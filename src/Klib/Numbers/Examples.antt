-- ===== src/Klib/Numbers/Examples.antt =====
-- Numbers as they are printed.
use husky_os.Base.{some, ◌≡◌, refl, [], ◌∷◌}
use husky_os.Klib.Numbers.{
  digit_char, digits_of, emit, digit_buffer, in_buff, unsigned_number_to_string, number_to_string,
  pow, pow_from,
}

-- "0ff" and "-42".
print_runs :
    (unsigned_number_to_string 255 16 1 ≡ some (48 ∷ 102 ∷ 102 ∷ []))
    × (number_to_string 4294967254 10 0 ≡ some (45 ∷ 52 ∷ 50 ∷ []))
unfolding unsigned_number_to_string number_to_string digit_buffer digits_of digit_char emit in_buff
print_runs = (refl, refl)

-- 2 to the power of 3.
pow_run : pow 2 3 ≡ 16
unfolding pow pow_from
pow_run = refl
