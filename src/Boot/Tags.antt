-- ===== src/Boot/Tags.antt =====
-- `stivale2_get_tag` finds a tag of the boot loader's list.
use husky_os.Base.{
  ℕ, zero, suc, ◌+◌, ◌<◌, ◌≡◌, ◌≢◌, Bool-cases, inl, inr, some, List, [], ◌∷◌, length, load64, refl,
  arith, ◌==◌, if◌then◌else◌,
}
use husky_os.Boot.{get_tag_from}

-- The tags from an address on: each names the next one, and the last names none.
pub data IsTags (m : ℕ → ℕ) : ℕ → List ℕ → Type 0 where
  last : IsTags m 0 []
  tag_at :
      {tag : ℕ} {tags : List ℕ}
      → tag ≢ 0
      → IsTags m (load64 m (tag + 8)) tags
      → IsTags m tag (tag ∷ tags)

-- The first of the tags with the identifier; 0 if there is none.
abbrev pub first_with : (ℕ → ℕ) → (id : ℕ) → List ℕ → ℕ
first_with m id [] = 0
first_with m id (tag ∷ tags) = if load64 m tag == id then tag else first_with m id tags

-- The search ends with a round for each tag and one more, at the first tag with the identifier, or
-- at 0 when there is none.
pub get_tag_from_lem :
    (m : ℕ → ℕ) (fuel tag id : ℕ) (tags : List ℕ)
    → IsTags m tag tags
    → length tags < fuel
    → get_tag_from m fuel tag id ≡ some (first_with m id tags)
unfolding get_tag_from
get_tag_from_lem m zero tag id tags t enough = elim enough [ ]
get_tag_from_lem m (suc fuel) tag id [] last enough = refl
get_tag_from_lem m (suc fuel) tag id (first ∷ tags) (tag_at there rest) enough =
    let on = get_tag_from_lem m fuel (load64 m (tag + 8)) id tags rest (omega (arith, enough)) in
    elim (Bool-cases (load64 m tag == id)) [
      | inl e ↦ ground (arith, there, e)
      | inr e ↦ ground (arith, there, e, on)
    ]
