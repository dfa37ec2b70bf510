-- ===== src/Boot/Pages.antt =====
-- The loops of KernelStart over the memory: which addresses the processor translates afterwards.
use mathlib.Core.Path.{subst}
use husky_os.Base.{
  ◌∙◌, ℕ, zero, suc, ◌+◌, ◌*◌, ◌/◌, ◌%◌, ◌^◌, ◌<◌, ◌≤◌, ◌≡◌, ◌≢◌, refl, some, arith, u64, ltb, inl,
  inr, Bool-cases, for_range, lt→ltb, le→ltb,
}
use husky_os.Memory.Paging.{Machine, map_memory}
use husky_os.Memory.Paging.Tables.{target, translate, IsTree, HasRoom}
use husky_os.Memory.Paging.Map.{map_memory-IsMapped}
use husky_os.Boot.{map_while}

-- The page of a virtual address, as the processor numbers it.
abbrev pub page_of : ℕ → ℕ
page_of a = a / 2 ^ 12 % 2 ^ 36

-- Three pages are left before each of `n` rounds.
abbrev pub HasRooms : (n i : ℕ) → (ℕ → Machine → Machine) → Machine → Type 0
HasRooms n i body m = (j : ℕ) → j < n → HasRoom 3 (for_range j i body m).frames

module _ (pml4 : ℕ) (virtual physical : ℕ → ℕ) where
  abbrev pub mapping : ℕ → Machine → Machine
  mapping j = map_memory pml4 (virtual j) (physical j)

  -- What rounds for the pages `virtual i` to `virtual (i + n - 1)` leave.
  pub record IsMappedRun (n i : ℕ) (m out : Machine) : Type 0 where
    pub level' : ℕ → ℕ
    pub place' : ℕ → ℕ
    pub tree : IsTree level' place' pml4 out
    pub maps :
        (j : ℕ)
        → i ≤ j
        → j < i + n
        → translate out.memory pml4 (virtual j) ≡ some (target (physical j))
    pub keeps :
        (b q : ℕ)
        → ((j : ℕ) → i ≤ j → j < i + n → page_of b ≢ page_of (virtual j))
        → translate m.memory pml4 b ≡ some q
        → translate out.memory pml4 b ≡ some q

  -- Rounds for different pages map them all.
  pub for_range-IsMappedRun :
      (n i : ℕ) {level place : ℕ → ℕ} {m : Machine}
      → IsTree level place pml4 m
      → HasRooms n i mapping m
      → ((j k : ℕ) → i ≤ j → j < k → k < i + n → page_of (virtual j) ≢ page_of (virtual k))
      → IsMappedRun n i m (for_range n i mapping m)
  unfolding for_range
  for_range-IsMappedRun zero i {level} {place} tree rooms apart = record {
    level' = level;
    place' = place;
    tree = tree;
    maps = λ j from below. absurd (omega (arith, from, below));
    keeps = λ b q other e. e;
  }
  for_range-IsMappedRun (suc n) i {m = m} tree rooms apart =
      let first = map_memory-IsMapped tree (virtual i) (physical i) (rooms 0 (omega arith)) in
      let rest =
        for_range-IsMappedRun n (i + 1) first.tree (λ j h. rooms (suc j) (omega (arith, h)))
          (λ j k from less below. apart j k (omega (arith, from)) less (omega (arith, below))) in
      record {
        level' = rest.level';
        place' = rest.place';
        tree = rest.tree;
        maps = λ j from below. elim (Bool-cases (ltb i j)) [
          | inl e ↦ rest.maps j (ground arith) (omega (arith, below))
          | inr e ↦
              let here : i ≡ j = ground arith in
              subst
                (λ (k : ℕ).
                  translate (for_range (suc n) i mapping m).memory pml4 (virtual k)
                  ≡ some (target (physical k)))
                here
                (rest.keeps (virtual i) (target (physical i))
                  (λ k after bound.
                    apart i k (omega arith) (omega (arith, after)) (omega (arith, bound)))
                  first.maps)
        ];
        keeps = λ b q other e.
            rest.keeps b q (λ j from below. other j (omega (arith, from)) (omega (arith, below)))
              (first.keeps b (other i (omega arith) (omega arith)) ∙ e);
      }

-- A loop over addresses ends with a round for each page and one more, and is the loop over the pages.
pub map_while-pages :
    (pml4 fuel limit n i : ℕ) (physical : ℕ → ℕ) (m : Machine)
    → limit ≤ (i + n) * 0x1000
    → (i + n) * 0x1000 < limit + 0x1000
    → limit < 2 ^ 63
    → n < fuel
    → map_while pml4 fuel limit (i * 0x1000) physical m
      ≡ some (for_range n i (mapping pml4 (λ j. j * 0x1000) (λ j. physical (j * 0x1000))) m)
unfolding map_while for_range
map_while-pages pml4 zero limit n i physical m over tight small enough = elim enough [ ]
map_while-pages pml4 (suc fuel) limit zero i physical m over tight small enough =
    let e = le→ltb (i * 0x1000) limit (omega (arith, over)) in rw e refl
map_while-pages pml4 (suc fuel) limit (suc n) i physical m over tight small enough =
    let e = lt→ltb (i * 0x1000) limit (omega (arith, tight)) in
    let next : u64 (i * 0x1000 + 0x1000) ≡ (i + 1) * 0x1000 = omega (arith, tight, small) in
    rw (e, next)
      (map_while-pages pml4 fuel limit n (i + 1) physical _ (omega (arith, over))
        (omega (arith, tight)) small (omega (arith, enough)))
