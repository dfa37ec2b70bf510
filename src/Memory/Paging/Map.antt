-- ===== src/Memory/Paging/Map.antt =====
-- `MapMemory` as a whole: it maps its page, keeps every other translation and keeps the tree.
use husky_os.Base.{
  refl, ℕ, ◌+◌, ◌*◌, ◌/◌, ◌%◌, ◌^◌, ◌<◌, ◌≡◌, ◌≢◌, ap, ◌∙◌, true, some, List, [], ◌∷◌, arith, inl,
  inr, Bool-cases, length,
}
use husky_os.Memory.Paging.{Machine, entry_at, write_word, linked, next_table, set_page, map_memory}
use husky_os.Memory.Paging.Entry.{linked-eq, indexer-IsIndexed}
use husky_os.Memory.Paging.Tables.{
  is_present, target, follow, indices, translate, AreIndices, IsTree, HasRoom,
}
use husky_os.Memory.Paging.Level.{IsStep, next_table-IsStep}

-- The number that a list of indices spells behind a place.
abbrev spell : ℕ → List ℕ → ℕ
spell p [] = p
spell p (i ∷ is) = spell (p * 512 + i) is

module _ {level place : ℕ → ℕ} {pml4 : ℕ} {m : Machine} (tree : IsTree level place pml4 m)
    (pt k physical : ℕ) (leaf : level pt ≡ 1) (small : k < 512) where
  abbrev after : ℕ → ℕ
  after = (set_page pt k physical m).memory

  set_page-here : after (entry_at pt k) ≡ linked physical (m.memory (entry_at pt k))
  unfolding set_page write_word
  set_page-here = ground arith

  set_page-other : (a : ℕ) → a ≢ entry_at pt k → after a ≡ m.memory a
  unfolding set_page write_word
  set_page-other a ne = ground arith

  same_entry : (u j : ℕ) → 0 < level u → j < 512 → entry_at u j ≡ entry_at pt k → (u ≡ pt) × (j ≡ k)
  same_entry u j h b e =
      omega (arith, (tree.table u h).aligned, (tree.table pt (omega arith)).aligned)

  set_page-above :
      (u j : ℕ) → 1 < level u → j < 512 → after (entry_at u j) ≡ m.memory (entry_at u j)
  set_page-above u j h b =
      set_page-other (entry_at u j)
        (λ e. let (eu, _) = same_entry u j (omega arith) b e in omega (arith, ap level eu))

  set_page-IsTree : IsTree level place pml4 (set_page pt k physical m)
  set_page-IsTree = record {
    valid = unfold set_page in tree.valid;
    root = tree.root;
    root_place = tree.root_place;
    words = λ a.
        unfold set_page write_word in
        ground (
          arith,
          tree.words a,
          tree.words (entry_at pt k),
          linked-eq physical (m.memory (entry_at pt k)),
        );
    table = unfold set_page in tree.table;
    entry = λ u j h b p. let e = set_page-above u j h b in rw e (tree.entry u j h b (rw (← e) p));
  }

  -- A walk to another place does not see the entry that was written.
  follow-set_page :
      (is : List ℕ) (u : ℕ)
      → AreIndices is
      → level u ≡ length is
      → spell (place u) is ≢ place pt * 512 + k
      → follow after is u ≡ follow m.memory is u
  follow-set_page [] u b l ne = refl
  follow-set_page (i ∷ []) u b l ne =
      let other : entry_at u i ≢ entry_at pt k =
        λ x. let (eu, ei) = same_entry u i (omega arith) b.0 x in ne (omega (arith, ap place eu)) in
      rw (set_page-other (entry_at u i) other) refl
  follow-set_page (i ∷ j ∷ is) u b l ne =
      rw (set_page-above u i (omega arith) b.0)
        (elim (Bool-cases (is_present (m.memory (entry_at u i)))) [
          | inl p ↦
              let next = tree.entry u i (omega arith) b.0 p in
              rw p (follow-set_page (j ∷ is) _ b.1 (omega (arith, next.down)) (rw next.at ne))
          | inr p ↦ rw p refl
        ])

indices-AreIndices : (a : ℕ) → AreIndices (indices a)
indices-AreIndices a = omega arith

spell-indices : (a : ℕ) → spell 0 (indices a) ≡ a / 2 ^ 12 % 2 ^ 36
spell-indices a = omega arith

-- What `MapMemory` leaves behind.
pub record IsMapped (level place : ℕ → ℕ) (pml4 a physical : ℕ) (m out : Machine) : Type 0 where
  pub level' : ℕ → ℕ
  pub place' : ℕ → ℕ
  pub tree : IsTree level' place' pml4 out
  pub maps : translate out.memory pml4 a ≡ some (target physical)
  pub keeps :
      (b : ℕ)
      → b / 2 ^ 12 % 2 ^ 36 ≢ a / 2 ^ 12 % 2 ^ 36
      → translate out.memory pml4 b ≡ translate m.memory pml4 b

module _ {level place : ℕ → ℕ} {pml4 : ℕ} {m : Machine} (tree : IsTree level place pml4 m)
    (a physical : ℕ) (room : HasRoom 3 m.frames) where
  abbrev i₀ : ℕ
  i₀ = a / 2 ^ 39 % 512

  abbrev i₁ : ℕ
  i₁ = a / 2 ^ 30 % 512

  abbrev i₂ : ℕ
  i₂ = a / 2 ^ 21 % 512

  abbrev i₃ : ℕ
  i₃ = a / 2 ^ 12 % 512

  abbrev r₁ : ℕ × Machine
  r₁ = next_table pml4 i₀ m

  abbrev r₂ : ℕ × Machine
  r₂ = next_table r₁.0 i₁ r₁.1

  abbrev r₃ : ℕ × Machine
  r₃ = next_table r₂.0 i₂ r₂.1

  abbrev out : Machine
  out = set_page r₃.0 i₃ physical r₃.1

  step₁ : IsStep level place pml4 pml4 i₀ 2 m r₁
  step₁ = next_table-IsStep tree pml4 i₀ 2 (omega (arith, tree.root)) (omega arith) room

  step₂ : IsStep step₁.level' step₁.place' pml4 r₁.0 i₁ 1 r₁.1 r₂
  step₂ =
      next_table-IsStep step₁.tree r₁.0 i₁ 1 (omega (arith, tree.root, step₁.leads)) (omega arith)
        step₁.room

  step₃ : IsStep step₂.level' step₂.place' pml4 r₂.0 i₂ 0 r₂.1 r₃
  step₃ =
      next_table-IsStep step₂.tree r₂.0 i₂ 0 (omega (arith, tree.root, step₁.leads, step₂.leads))
        (omega arith) step₂.room

  leaf : step₃.level' r₃.0 ≡ 1
  leaf = omega (arith, tree.root, step₁.leads, step₂.leads, step₃.leads)

  -- The tables on the way keep their levels and their places.
  levels : (step₃.level' pml4 ≡ 4) × (step₃.level' r₁.0 ≡ 3) × (step₃.level' r₂.0 ≡ 2)
  levels = (
    step₃.tree.root,
    omega (arith, tree.root, step₁.leads, step₂.old r₁.0, step₃.old r₁.0),
    omega (arith, tree.root, step₁.leads, step₂.leads, step₃.old r₂.0),
  )

  leaf_place : step₃.place' r₃.0 * 512 + i₃ ≡ a / 2 ^ 12 % 2 ^ 36
  leaf_place = omega (arith, tree.root_place, step₁.leads, step₂.leads, step₃.leads)

  out-above :
      (u j : ℕ)
      → 1 < step₃.level' u
      → j < 512
      → out.memory (entry_at u j) ≡ r₃.1.memory (entry_at u j)
  out-above = set_page-above step₃.tree r₃.0 i₃ physical leaf (omega arith)

  kept₂ : r₂.1.memory (entry_at pml4 i₀) ≡ r₁.1.memory (entry_at pml4 i₀)
  kept₂ = step₂.kept pml4 i₀ (omega (arith, step₁.tree.root)) (omega arith) step₁.linked_up.0

  -- The three entries on the way, in the memory at the end.
  link₁ : out.memory (entry_at pml4 i₀) ≡ r₁.1.memory (entry_at pml4 i₀)
  link₁ =
      out-above pml4 i₀ (omega (arith, levels)) (omega arith)
      ∙ step₃.kept pml4 i₀ (omega (arith, step₂.tree.root)) (omega arith)
          (rw kept₂ step₁.linked_up.0)
      ∙ kept₂

  link₂ : out.memory (entry_at r₁.0 i₁) ≡ r₂.1.memory (entry_at r₁.0 i₁)
  link₂ =
      out-above r₁.0 i₁ (omega (arith, levels)) (omega arith)
      ∙ step₃.kept r₁.0 i₁ (omega (arith, tree.root, step₁.leads, step₂.old r₁.0)) (omega arith)
          step₂.linked_up.0

  link₃ : out.memory (entry_at r₂.0 i₂) ≡ r₃.1.memory (entry_at r₂.0 i₂)
  link₃ = out-above r₂.0 i₂ (omega (arith, levels)) (omega arith)

  link₄ :
      (is_present (out.memory (entry_at r₃.0 i₃)) ≡ true)
      × (target (out.memory (entry_at r₃.0 i₃)) ≡ target physical)
  link₄ =
      let e = set_page-here step₃.tree r₃.0 i₃ physical leaf (omega arith) in
      rw e (
        ground (
          arith,
          linked-eq physical (r₃.1.memory (entry_at r₃.0 i₃)) (step₃.tree.words (entry_at r₃.0 i₃)),
        ))

  maps_lem : translate out.memory pml4 a ≡ some (target physical)
  maps_lem = rw (
    link₁, step₁.linked_up.0, step₁.linked_up.1, link₂, step₂.linked_up.0, step₂.linked_up.1, link₃,
    step₃.linked_up.0, step₃.linked_up.1, link₄.0, link₄.1,
  )

  keeps_lem :
      (b : ℕ)
      → b / 2 ^ 12 % 2 ^ 36 ≢ a / 2 ^ 12 % 2 ^ 36
      → translate out.memory pml4 b ≡ translate m.memory pml4 b
  keeps_lem b ne =
      let small = indices-AreIndices b in
      follow-set_page step₃.tree r₃.0 i₃ physical leaf (omega arith) (indices b) pml4 small
        (omega (arith, levels))
        (λ x. ne (omega (arith, step₃.tree.root_place, spell-indices b, leaf_place)))
      ∙ step₃.walks (indices b) pml4 small (omega (arith, step₂.tree.root))
      ∙ step₂.walks (indices b) pml4 small (omega (arith, step₁.tree.root))
      ∙ step₁.walks (indices b) pml4 small (omega (arith, tree.root))

  map_memory-eq : map_memory pml4 a physical m ≡ out
  unfolding map_memory
  map_memory-eq = let i = indexer-IsIndexed a in rw (i.pdp, i.pd, i.pt, i.p)

  -- With room for three tables, `MapMemory` makes the processor translate the virtual address to
  -- the page of the physical one, leaves every other page as it was, translated or not, and keeps
  -- the tables a tree of taken pages.
  pub map_memory-IsMapped : IsMapped level place pml4 a physical m (map_memory pml4 a physical m)
  map_memory-IsMapped = rw map_memory-eq (record {
    level' = step₃.level';
    place' = step₃.place';
    tree = set_page-IsTree step₃.tree r₃.0 i₃ physical leaf (omega arith);
    maps = maps_lem;
    keeps = keeps_lem;
  })
