-- ===== src/Memory/Paging/Level.antt =====
-- One level of the walk: the table below an entry, found or made.
use husky_os.Base.{
  ℕ, zero, suc, ◌+◌, ◌-◌, ◌*◌, ◌/◌, ◌^◌, ◌<◌, ◌≡◌, ◌≢◌, refl, ap, ◌∙◌, true, false, arith, ◌==◌,
  if◌then◌else◌, u64, inl, inr, Bool-cases, List, [], ◌∷◌, length, none,
}
use husky_os.Memory.Bitmap.{get}
use husky_os.Memory.Frames.{Frames, request_page}
use husky_os.Memory.Frames.Mark.{IsValid, Marks}
use husky_os.Memory.Frames.Request.{
  IsLowest-or_full, request_page_first_fit, request_page_full, size-request_page,
}
use husky_os.Memory.Paging.{
  Machine, entry_at, write_word, clear_page, linked, next_table, present, get_flag, get_address,
}
use husky_os.Memory.Paging.Entry.{linked-eq, get_flag-eq, get_address-eq}
use husky_os.Memory.Paging.Tables.{
  is_present, target, IsTable, Leads, IsTree, HasRoom, follow, AreIndices,
}

-- What one level leaves: a tree that extends the old one, in which the entry leads to the table
-- that is returned and every entry that was present is as it was.
pub record IsStep (level place : ℕ → ℕ) (pml4 t i n : ℕ) (m : Machine) (out : ℕ × Machine)
    : Type 0 where
  pub level' : ℕ → ℕ
  pub place' : ℕ → ℕ
  pub tree : IsTree level' place' pml4 out.1
  pub leads : (level' out.0 + 1 ≡ level t) × (place' out.0 ≡ place t * 512 + i)
  pub old : (u : ℕ) → 0 < level u → (level' u ≡ level u) × (place' u ≡ place u)
  pub linked_up :
      (is_present (out.1.memory (entry_at t i)) ≡ true)
      × (target (out.1.memory (entry_at t i)) ≡ out.0)
  pub kept :
      (u j : ℕ)
      → 0 < level u
      → j < 512
      → is_present (m.memory (entry_at u j)) ≡ true
      → out.1.memory (entry_at u j) ≡ m.memory (entry_at u j)
  pub walks :
      (is : List ℕ) (u : ℕ)
      → AreIndices is
      → level u ≡ length is
      → follow out.1.memory is u ≡ follow m.memory is u
  pub room : HasRoom n out.1.frames

-- A page that `RequestPage` returns: it was clear, and is taken now.
pub record IsFresh (s : Frames) : Type 0 where
  pub frame : ℕ
  pub address : (request_page s).0 ≡ frame * 4096
  pub covered : frame < s.page_bitmap.size * 8
  pub clear : get s.page_bitmap frame ≡ false
  pub marks : Marks s (request_page s).1 frame true
  pub valid : IsValid (request_page s).1
  pub size : (request_page s).1.page_bitmap.size ≡ s.page_bitmap.size

pub request_page-IsFresh : (s : Frames) → IsValid s → 0 < (request_page s).0 → IsFresh s
request_page-IsFresh s v pos = elim (IsLowest-or_full s) [
  | inl (f, low) ↦
      let (a, marks, w, _) = request_page_first_fit s f v low in
      record {
        frame = f;
        address = a;
        covered = omega (arith, low.below);
        clear = low.clear;
        marks = marks;
        valid = w;
        size = size-request_page s;
      }
  | inr full ↦ absurd (ground (arith, request_page_full s v full))
]

HasRoom-pred : (n : ℕ) (s : Frames) → HasRoom (suc n) s → HasRoom n s
HasRoom-pred zero s h = tt
HasRoom-pred (suc n) s h = (h.0, HasRoom-pred n _ h.1)

module _ {level place : ℕ → ℕ} {pml4 : ℕ} {m : Machine} (tree : IsTree level place pml4 m)
    (t i n : ℕ) (inner : 1 < level t) (small : i < 512) where
  abbrev here : ℕ
  here = entry_at t i

  -- The entry is present: nothing changes.
  found_lem :
      HasRoom (suc n) m.frames
      → is_present (m.memory here) ≡ true
      → IsStep level place pml4 t i n m (next_table t i m)
  unfolding next_table
  found_lem room p =
      let q : get_flag present (m.memory here) ≡ true = rw get_flag-eq p in
      let e : u64 (get_address (m.memory here) * 2 ^ 12) ≡ target (m.memory here) =
        omega (arith, get_address-eq (m.memory here) (tree.words here)) in
      let l = tree.entry t i inner small p in
      rw (q, e)
        (record {
          level' = level;
          place' = place;
          tree = tree;
          leads = (l.down, l.at);
          old = λ u h. (refl, refl);
          linked_up = (p, refl);
          kept = λ u j h k r. refl;
          walks = λ is u b l. refl;
          room = HasRoom-pred n m.frames room;
        })

  module _ (missing : is_present (m.memory here) ≡ false) (fresh : IsFresh m.frames) where
    abbrev page : ℕ
    page = (request_page m.frames).0

    abbrev after : ℕ → ℕ
    after = write_word (clear_page m.memory page) here (linked page (m.memory here))

    page-not-table : (u : ℕ) → 0 < level u → u ≢ page
    page-not-table u h e = ground (arith, (tree.table u h).taken, fresh.address, fresh.clear)

    after-here : after here ≡ linked page (m.memory here)
    unfolding write_word
    after-here = ground arith

    -- An entry of an old table that is not the one written.
    after-other :
        (u j : ℕ)
        → 0 < level u
        → j < 512
        → entry_at u j ≢ here
        → after (entry_at u j) ≡ m.memory (entry_at u j)
    unfolding write_word clear_page
    after-other u j h k ne =
        ground (arith, page-not-table u h, (tree.table u h).aligned, fresh.address)

    after-page : (j : ℕ) → j < 512 → after (entry_at page j) ≡ 0
    unfolding write_word clear_page
    after-page j k =
        ground (
          arith,
          page-not-table t (omega arith),
          (tree.table t (omega arith)).aligned,
          fresh.address,
        )

    level_after : ℕ → ℕ
    level_after u = if u == page then level t - 1 else level u

    place_after : ℕ → ℕ
    place_after u = if u == page then place t * 512 + i else place u

    old_after : (u : ℕ) → 0 < level u → (level_after u ≡ level u) × (place_after u ≡ place u)
    unfolding level_after place_after
    old_after u h = ground (arith, page-not-table u h)

    link_after : (is_present (after here) ≡ true) × (target (after here) ≡ page)
    link_after = rw after-here (
        ground (
          arith,
          linked-eq page (m.memory here) (tree.words here),
          fresh.address,
          fresh.covered,
          tree.valid.small,
        ))

    same_entry : (u j : ℕ) → 0 < level u → j < 512 → entry_at u j ≡ here → (u ≡ t) × (j ≡ i)
    same_entry u j h k e =
        omega (arith, (tree.table u h).aligned, (tree.table t (omega arith)).aligned)

    words_after : (a : ℕ) → after a < 2 ^ 64
    unfolding write_word clear_page
    words_after a =
        ground
          (arith, linked-eq page (m.memory here) (tree.words here), tree.words here, tree.words a)

    IsTable-after : (u : ℕ) → 0 < level_after u → IsTable (request_page m.frames).1 u
    unfolding level_after
    IsTable-after u h = elim (Bool-cases (u == page)) [
      | inl e ↦ record {
        aligned = ground (arith, fresh.address);
        covered = ground (arith, fresh.address, fresh.covered, fresh.size);
        taken = ground (arith, fresh.address, fresh.marks (u / 4096));
      }
      | inr e ↦
          let old = tree.table u (ground arith) in
          record {
            aligned = old.aligned;
            covered = omega (arith, old.covered, fresh.size);
            taken = ground (arith, old.taken, fresh.marks (u / 4096));
          }
    ]

    leads_after : (level_after page + 1 ≡ level t) × (place_after page ≡ place t * 512 + i)
    unfolding level_after place_after
    leads_after = ground arith

    -- The entry that was written leads to the new page.
    entry_written :
        (u j : ℕ) → 0 < level u → (u ≡ t) × (j ≡ i) → Leads level_after place_after u j page
    entry_written u j h (eu, ej) =
        let l = leads_after in
        let o = old_after u h in
        let lu : level u ≡ level t = ap level eu in
        let pu : place u ≡ place t = ap place eu in record { down = omega arith; at = omega arith }

    -- The other entries lead where they did.
    entry_kept :
        (u j : ℕ)
        → 1 < level u
        → j < 512
        → entry_at u j ≢ here
        → is_present (after (entry_at u j)) ≡ true
        → Leads level_after place_after u j (target (after (entry_at u j)))
    entry_kept u j h k ne p =
        let e = after-other u j (omega arith) k ne in
        let l = tree.entry u j h k (rw (← e) p) in
        let v = target (m.memory (entry_at u j)) in
        let ou = old_after u (omega arith) in
        let ov = old_after v (omega (arith, l.down)) in
        rw e (record { down = omega (arith, l.down, ou, ov); at = omega (arith, l.at, ou, ov) })

    entry_after :
        (u j : ℕ)
        → 1 < level_after u
        → j < 512
        → is_present (after (entry_at u j)) ≡ true
        → Leads level_after place_after u j (target (after (entry_at u j)))
    entry_after u j h k p = elim (Bool-cases (u == page)) [
      | inl e ↦ let e' : u ≡ page = ground arith in absurd (ground (arith, after-page j k))
      | inr e ↦
          let h' : 1 < level u = unfold level_after in ground arith in
          elim (Bool-cases (entry_at u j == here)) [
            | inl q ↦
                let q' : entry_at u j ≡ here = ground arith in
                rw (q', link_after.1)
                  (entry_written u j (omega arith) (same_entry u j (omega arith) k q'))
            | inr q ↦ entry_kept u j h' k (ground arith) p
          ]
    ]

    IsTree-after :
        IsTree level_after place_after pml4
          (record { memory = after; frames = (request_page m.frames).1 })
    IsTree-after = record {
      valid = fresh.valid;
      root = (old_after pml4 (omega (arith, tree.root))).0 ∙ tree.root;
      root_place = (old_after pml4 (omega (arith, tree.root))).1 ∙ tree.root_place;
      words = words_after;
      table = IsTable-after;
      entry = entry_after;
    }

    kept_after :
        (u j : ℕ)
        → 0 < level u
        → j < 512
        → is_present (m.memory (entry_at u j)) ≡ true
        → after (entry_at u j) ≡ m.memory (entry_at u j)
    kept_after u j h k p = after-other u j h k (λ e. ground (arith, same_entry u j h k e))

    -- The walk from the new page on finds nothing.
    walk_empty : (is : List ℕ) → AreIndices is → 0 < length is → follow after is page ≡ none
    walk_empty [] b l = elim l [ ]
    walk_empty (j ∷ is) b l = let nothing = after-page j b.0 in rw nothing refl

    -- Every walk that ends at a page ends where it did, or finds nothing as before.
    walks_after :
        (is : List ℕ) (u : ℕ)
        → AreIndices is
        → level u ≡ length is
        → follow after is u ≡ follow m.memory is u
    walks_after [] u b l = refl
    walks_after (j ∷ []) u b l =
        let other : entry_at u j ≢ here =
          λ q. let e = same_entry u j (omega arith) b.0 q in omega (arith, ap level e.0) in
        rw (after-other u j (omega arith) b.0 other) refl
    walks_after (j ∷ k ∷ is) u b l = elim (Bool-cases (entry_at u j == here)) [
      | inl q ↦
          let q' : entry_at u j ≡ here = ground arith in
          let nothing = walk_empty (k ∷ is) b.1 (omega arith) in
          rw (q', link_after.0, link_after.1, missing) nothing
      | inr q ↦
          let same_word = after-other u j (omega arith) b.0 (ground arith) in
          rw same_word (elim (Bool-cases (is_present (m.memory (entry_at u j)))) [
            | inl p ↦
                let l' = tree.entry u j (omega arith) b.0 p in
                rw p (walks_after (k ∷ is) _ b.1 (omega (arith, l'.down)))
            | inr p ↦ rw p refl
          ])
    ]

    -- The entry is missing: a page is taken, cleared and linked.
    made_lem :
        HasRoom n (request_page m.frames).1 → IsStep level place pml4 t i n m (next_table t i m)
    unfolding next_table
    made_lem room =
        let q : get_flag present (m.memory here) ≡ false = rw get_flag-eq missing in
        rw q (record {
          level' = level_after;
          place' = place_after;
          tree = IsTree-after;
          leads = leads_after;
          old = old_after;
          linked_up = link_after;
          kept = kept_after;
          walks = walks_after;
          room = room;
        })

  -- One level of `MapMemory`, whether the table below the entry exists or not.
  pub next_table-IsStep :
      HasRoom (suc n) m.frames → IsStep level place pml4 t i n m (next_table t i m)
  next_table-IsStep room = elim (Bool-cases (is_present (m.memory here))) [
    | inl p ↦ found_lem room p
    | inr p ↦ made_lem p (request_page-IsFresh m.frames tree.valid room.0) room.1
  ]
