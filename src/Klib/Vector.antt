-- ===== src/Klib/Vector.antt =====
-- Kernel/include/vector.h: the growing array. What stands at its pointer is part of the state, since
-- nothing allocates it. Lengths stay below 2 ^ 31.
use husky_os.Base.{
  ℕ, ◌+◌, ◌-◌, ◌≡◌, List, [], ◌∷◌, ◌++◌, ◌==◌, if◌then◌else◌, for_range, front, front-put, arith,
}

pub record Vector : Type 0 where
  pub array : ℕ → ℕ
  pub length : ℕ

unfoldable pub add : (item : ℕ) → Vector → Vector
add item v = record {
  array = λ i. if i == v.length then item else v.array i;
  length = v.length + 1;
}

-- `array[index] = {}`
unfoldable pub remove : (index : ℕ) → Vector → Vector
remove index v = record { array = λ i. if i == index then 0 else v.array i; length = v.length - 1 }

unfoldable pub get_item : Vector → (index : ℕ) → ℕ
get_item v index = v.array index

-- The last position of an item; -1 is the word 2 ^ 32 - 1.
unfoldable pub get_pos : Vector → (item : ℕ) → ℕ
get_pos v item = for_range v.length 0 (λ i idx. if get_item v i == item then i else idx) 4294967295

-- The items of a vector, in order.
abbrev pub items : Vector → List ℕ
items v = front v.length 0 v.array

-- `Add` puts an item behind the others.
pub items-add : (item : ℕ) (v : Vector) → items (add item v) ≡ items v ++ item ∷ []
unfolding add
items-add item v =
    front-put v.length item v.array (λ (i : ℕ). if i == v.length then item else v.array i)
      (λ j k. ground arith) (ground arith)
