-- ===== src/Memory/Bitmap/Laws.antt =====
-- `Get` after `Set`, and what `Set` writes.
use husky_os.Base.{
  ℕ, ◌/◌, ◌%◌, ◌≤◌, ◌<◌, ◌≡◌, refl, Bool, true, false, ◌&&◌, arith, ltb, ◌==◌, if◌then◌else◌,
}
use husky_os.Base.Bits.{passes_below, passes_below_at}
use husky_os.Memory.Bitmap.{Bitmap, bit_count, get_bit, put_bit, write_byte, get, set}

abbrev bool_eq : Bool → Bool → Bool
bool_eq true b = b
bool_eq false true = false
bool_eq false false = true

-- The law of one byte, bit by bit, as a test.
abbrev bit_law : ℕ → ℕ → ℕ → Bool
bit_law b i j =
    bool_eq (get_bit (put_bit b i true) j) (if i == j then true else get_bit b j)
    && bool_eq (get_bit (put_bit b i false) j) (if i == j then false else get_bit b j)
    && ltb (put_bit b i true) 256
    && ltb (put_bit b i false) 256

abbrev byte_law : ℕ → Bool
byte_law b = passes_below (λ i. passes_below (bit_law b i) 8) 8

byte_table : passes_below byte_law 256 ≡ true
unfolding passes_below get_bit put_bit
byte_table = refl

byte_law_at : (b i j : ℕ) → b < 256 → i < 8 → j < 8 → bit_law b i j ≡ true
byte_law_at b i j hb hi hj =
    passes_below_at (bit_law b i) 8 j
      (passes_below_at (λ k. passes_below (bit_law b k) 8) 8 i
        (passes_below_at byte_law 256 b byte_table hb) hi)
      hj

get_bit-put_bit :
    (b i j : ℕ) (v : Bool)
    → b < 256
    → i < 8
    → j < 8
    → get_bit (put_bit b i v) j ≡ (if i == j then v else get_bit b j)
get_bit-put_bit b i j true hb hi hj = ground (arith, byte_law_at b i j hb hi hj)
get_bit-put_bit b i j false hb hi hj = ground (arith, byte_law_at b i j hb hi hj)

put_bit-lt : (b i : ℕ) (v : Bool) → b < 256 → i < 8 → put_bit b i v < 256
put_bit-lt b i true hb hi = ground (arith, byte_law_at b i i hb hi hi)
put_bit-lt b i false hb hi = ground (arith, byte_law_at b i i hb hi hi)

-- Memory holds bytes.
pub record IsBytes (m : Bitmap) : Type 0 where
  pub bytes : (k : ℕ) → m.buffer k < 256

-- `Set` within the bounds that it checks makes `Get` answer the new value at that index and the
-- old one at every other.
pub get-set :
    (m : Bitmap) (i j : ℕ) (v : Bool)
    → IsBytes m
    → i ≤ bit_count m
    → get (set m i v).1 j ≡ (if i == j then v else get m j)
unfolding get set write_byte
get-set m i j v b h =
    ground (arith, get_bit-put_bit (m.buffer (i / 8)) (i % 8) (j % 8) v, b.bytes (i / 8))

pub set-IsBytes : (m : Bitmap) (i : ℕ) (v : Bool) → IsBytes m → IsBytes (set m i v).1
unfolding set write_byte
set-IsBytes m i v b = record {
  bytes = λ k. ground (arith, put_bit-lt (m.buffer (i / 8)) (i % 8) v, b.bytes (i / 8), b.bytes k);
}

pub size-set : (m : Bitmap) (i : ℕ) (v : Bool) → (set m i v).1.size ≡ m.size
unfolding set
size-set m i v = ground arith

-- Past the bounds that it checks `Set` answers false and changes nothing.
pub set_beyond : (m : Bitmap) (i : ℕ) (v : Bool) → bit_count m < i → set m i v ≡ (false, m)
unfolding set
set_beyond m i v h = ground arith

pub set_within : (m : Bitmap) (i : ℕ) (v : Bool) → i ≤ bit_count m → (set m i v).0 ≡ true
unfolding set
set_within m i v h = ground arith

pub get_beyond : (m : Bitmap) (i : ℕ) → bit_count m < i → get m i ≡ false
unfolding get
get_beyond m i h = ground arith
