-- ===== src/Base/Loops.antt =====
-- Loops that count, and what they gather in a list.
use Prim.Native.Nat.{ℕ, zero, suc, ◌+◌, ◌<◌}
use mathlib.Core.Path.{◌≡◌, refl, sym, ap, ap₂, ◌∙◌}
use mathlib.Core.List.{List, [], ◌∷◌, ◌++◌, append-nil, append_assoc}
use native.Mathlib.Omega.{arith}

-- `for (i = start; ...; i++)` with `count` rounds
unfoldable pub for_range {ℓ} : {S : Type ℓ} → (count start : ℕ) → (ℕ → S → S) → S → S
for_range zero start body s = s
for_range (suc count) start body s = for_range count (start + 1) body (body start s)

-- The last round of a loop is the last.
pub for_range-last {ℓ} :
    {S : Type ℓ} (count start : ℕ) (body : ℕ → S → S) (s : S)
    → for_range (suc count) start body s ≡ body (start + count) (for_range count start body s)
unfolding for_range
for_range-last zero start body s = ap (λ (i : ℕ). body i s) (omega arith)
for_range-last (suc count) start body s =
    for_range-last count (start + 1) body (body start s)
    ∙ ap (λ (i : ℕ). body i (for_range count (start + 1) body (body start s))) (omega arith)

-- The lists for `count` numbers from `start` on, one behind the other.
abbrev pub gathered {ℓ} : {A : Type ℓ} → (count start : ℕ) → (ℕ → List A) → List A
gathered zero start out = []
gathered (suc count) start out = out start ++ gathered count (start + 1) out

-- A loop whose rounds each add a list adds these lists.
pub for_range-gathered {ℓ κ} :
    {S : Type ℓ} {A : Type κ} (items : S → List A) (out : ℕ → List A) (body : ℕ → S → S)
    → ((i : ℕ) (s : S) → items (body i s) ≡ items s ++ out i)
    → (count start : ℕ) (s : S)
    → items (for_range count start body s) ≡ items s ++ gathered count start out
unfolding for_range
for_range-gathered items out body round zero start s = sym (append-nil (items s))
for_range-gathered items out body round (suc count) start s =
    for_range-gathered items out body round count (start + 1) (body start s)
    ∙ ap (λ xs. xs ++ gathered count (start + 1) out) (round start s)
    ∙ append_assoc (items s) (out start) (gathered count (start + 1) out)

module _ {ℓ} {A : Type ℓ} where
  -- The first `n` items of an array from `i` on.
  abbrev pub front : (n i : ℕ) → (ℕ → A) → List A
  front zero i array = []
  front (suc n) i array = array i ∷ front n (i + 1) array

  pub front-last :
      (n i : ℕ) (array : ℕ → A) → front (suc n) i array ≡ front n i array ++ array (i + n) ∷ []
  front-last zero i array = ap (λ (j : ℕ). array j ∷ []) (omega arith)
  front-last (suc n) i array =
      ap (λ (xs : List A). array i ∷ xs)
        (front-last n (i + 1) array
          ∙ ap (λ (j : ℕ). front n (i + 1) array ++ array j ∷ []) (omega arith))

  pub front-same :
      (n i : ℕ) (a b : ℕ → A) → ((j : ℕ) → j < i + n → a j ≡ b j) → front n i a ≡ front n i b
  front-same zero i a b h = refl
  front-same (suc n) i a b h =
      ap₂ (λ (x : A) (xs : List A). x ∷ xs) (h i (omega arith))
        (front-same n (i + 1) a b (λ j k. h j (omega arith)))

  -- An array with one item more.
  pub front-put :
      (n : ℕ) (x : A) (a b : ℕ → A)
      → ((j : ℕ) → j < n → b j ≡ a j)
      → b n ≡ x
      → front (n + 1) 0 b ≡ front n 0 a ++ x ∷ []
  front-put n x a b same here =
      let next : n + 1 ≡ suc n = omega arith in
      ap (λ (k : ℕ). front k 0 b) next
      ∙ front-last n 0 b
      ∙ ap₂ (λ (xs : List A) (y : A). xs ++ y ∷ [])
          (front-same n 0 b a (λ j k. same j (omega (arith, k)))) (ap b (omega arith) ∙ here)
