-- ===== src/Memory/Bitmap.antt =====
-- Kernel/src/memory/bitmap.cpp: one bit for each page frame.
pub mod Laws
mod Examples
use husky_os.Base.{
  ℕ, ◌+◌, ◌-◌, ◌*◌, ◌/◌, ◌%◌, ◌^◌, Bool, true, false, bit_and, bit_or, ltb, ◌==◌, if◌then◌else◌,
  u64,
}

-- `class Bitmap`. `Buffer` is a bare pointer: `address` is its value, and `buffer k` is the byte
-- that memory holds at `Buffer + k`, within the map and behind it.
pub record Bitmap : Type 0 where
  pub size : ℕ
  pub address : ℕ
  pub buffer : ℕ → ℕ

-- `Size * 8`, as a `size_t`.
abbrev pub bit_count : Bitmap → ℕ
bit_count m = u64 (m.size * 8)

-- `0b10000000 >> bitIndex`
abbrev pub bit_indexer : ℕ → ℕ
bit_indexer k = 128 / 2 ^ k

unfoldable pub get_bit : ℕ → ℕ → Bool
get_bit byte k = ltb 0 (bit_and byte (bit_indexer k))

-- The two assignments of `Set`: clear the bit, then set it if `value` says so.
unfoldable pub put_bit : ℕ → ℕ → Bool → ℕ
put_bit byte k value =
    let cleared = bit_and byte (255 - bit_indexer k) in
    if value then bit_or cleared (bit_indexer k) else cleared

unfoldable pub write_byte : (ℕ → ℕ) → ℕ → ℕ → ℕ → ℕ
write_byte buffer i byte j = if i == j then byte else buffer j

-- `Bitmap::Get`, and so `operator[]`.
unfoldable pub get : Bitmap → ℕ → Bool
unfolding get_bit
get m index = if ltb (bit_count m) index then false else get_bit (m.buffer (index / 8)) (index % 8)

-- `Bitmap::Set`
unfoldable pub set : Bitmap → ℕ → Bool → Bool × Bitmap
unfolding put_bit write_byte
set m index value = if ltb (bit_count m) index then (false, m) else (
  true,
  record m {
    buffer = write_byte m.buffer (index / 8) (put_bit (m.buffer (index / 8)) (index % 8) value);
  },
)
