-- ===== src/Memory/Frames/Each.antt =====
-- The loops over consecutive pages.
use mathlib.Core.Path.{subst}
use husky_os.Base.{
  sym, ℕ, ◌+◌, ◌*◌, ◌/◌, ◌^◌, ◌≤◌, ◌<◌, ◌≡◌, refl, ◌∙◌, Bool, true, false, zero, suc, ◌&&◌, arith,
  ltb, leb, if◌then◌else◌, u64, inl, inr, Bool-cases,
}
use husky_os.Memory.Bitmap.{get}
use husky_os.Memory.Frames.{Frames, offset_of, lock_page, each_page, lock_pages, free_pages}
use husky_os.Memory.Frames.Mark.{
  IsValid, IsMarker, accounted, lock_page-IsMarker, free_page-IsMarker,
}

-- Frame `j` is one of the `n` frames from `first` on that the map covers.
abbrev pub in_run : ℕ → ℕ → ℕ → ℕ → Bool
in_run bits first n j = leb first j && ltb j (first + n) && leb j bits

-- The offsets of the first 2 ^ 19 rounds do not wrap.
offset_of-eq : (t : ℕ) → t < 2 ^ 19 → offset_of t ≡ t * 4096
unfolding offset_of
offset_of-eq t h = ground arith

module _ {op : ℕ → Frames → Frames} {v : Bool} (k : IsMarker op v) (a : ℕ) where
  pub each_page-IsValid : (n t : ℕ) (s : Frames) → IsValid s → IsValid (each_page op a n t s)
  unfolding each_page
  each_page-IsValid zero t s h = h
  each_page-IsValid (suc n) t s h = each_page-IsValid n (t + 1) _ (k.keeps _ s h)

  pub size-each_page :
      (n t : ℕ) (s : Frames) → (each_page op a n t s).page_bitmap.size ≡ s.page_bitmap.size
  unfolding each_page
  size-each_page zero t s = refl
  size-each_page (suc n) t s = size-each_page n (t + 1) _ ∙ k.size _ s

  pub accounted-each_page :
      (n t : ℕ) (s : Frames) → IsValid s → accounted (each_page op a n t s) ≡ accounted s
  unfolding each_page
  accounted-each_page zero t s h = refl
  accounted-each_page (suc n) t s h =
      accounted-each_page n (t + 1) _ (k.keeps _ s h) ∙ k.accounts _ s h

  pub get-each_page :
      (n t : ℕ) (s : Frames) (j : ℕ)
      → IsValid s
      → a + (t + n) * 4096 ≤ 2 ^ 64
      → t + n ≤ 2 ^ 19
      → get (each_page op a n t s).page_bitmap j
        ≡ (if in_run (s.page_bitmap.size * 8) (a / 4096 + t) n j then v else get s.page_bitmap j)
  unfolding each_page
  get-each_page zero t s j h fits short = ground arith
  get-each_page (suc n) t s j h fits short =
      let b = u64 (a + t * 4096) in
      let ih = get-each_page n (t + 1) (op b s) j (k.keeps b s h) (omega arith) (omega arith) in
      subst
        (λ (x : ℕ). get (each_page op a n (t + 1) (op (u64 (a + x)) s)).page_bitmap j ≡ (
          if in_run (s.page_bitmap.size * 8) (a / 4096 + t) (suc n) j
          then v
          else get s.page_bitmap j))
        (sym (offset_of-eq t (omega arith)))
        (elim (Bool-cases (leb (b / 4096) (s.page_bitmap.size * 8))) [
          | inl e ↦ ground (arith, ih, k.size b s, k.marks b s h (ground arith) j)
          | inr e ↦ ground (arith, ih, k.beyond b s h (ground arith))
        ])

-- A bit that is set stays set under locking and reserving.
pub each_page_monotone :
    {op : ℕ → Frames → Frames} (k : IsMarker op true) (a n t : ℕ) (s : Frames) (j : ℕ)
    → IsValid s
    → get s.page_bitmap j ≡ true
    → get (each_page op a n t s).page_bitmap j ≡ true
unfolding each_page
each_page_monotone k a zero t s j h e = e
each_page_monotone {op} k a (suc n) t s j h e =
    each_page_monotone k a n (t + 1) _ j (k.keeps _ s h) (
      let b = u64 (a + offset_of t) in
      elim (Bool-cases (leb (b / 4096) (s.page_bitmap.size * 8))) [
        | inl q ↦ ground (arith, k.marks b s h (ground arith) j)
        | inr q ↦ ground (arith, k.beyond b s h (ground arith))
      ])

-- `LockPages` sets exactly the bits of the `n` frames from that of `a` on which the map covers,
-- changes no other bit and keeps the invariant and the sum of the counters, as long as the run
-- does not pass the end of the address space and has at most 2 ^ 19 frames.
pub lock_pages_run :
    (s : Frames) (a n : ℕ)
    → IsValid s
    → a + n * 4096 ≤ 2 ^ 64
    → n ≤ 2 ^ 19
    → IsValid (lock_pages a n s)
      × (accounted (lock_pages a n s) ≡ accounted s)
      × ((j : ℕ)
          → get (lock_pages a n s).page_bitmap j ≡ (
              if in_run (s.page_bitmap.size * 8) (a / 4096) n j then true else get s.page_bitmap j))
unfolding lock_pages
lock_pages_run s a n v fits short = (
  each_page-IsValid lock_page-IsMarker a n 0 s v,
  accounted-each_page lock_page-IsMarker a n 0 s v,
  λ j. ground (arith, get-each_page lock_page-IsMarker a n 0 s j v (omega arith) (omega arith)),
)

-- `FreePages` undoes `LockPages` on a run of at most 2 ^ 19 clear frames that does not pass the end
-- of the address space: every bit of the map is back, and the counters add up to what they did.
pub free_pages-lock_pages :
    (s : Frames) (a n : ℕ)
    → IsValid s
    → a + n * 4096 ≤ 2 ^ 64
    → n ≤ 2 ^ 19
    → ((j : ℕ) → a / 4096 ≤ j → j < a / 4096 + n → get s.page_bitmap j ≡ false)
    → ((j : ℕ) → get (free_pages a n (lock_pages a n s)).page_bitmap j ≡ get s.page_bitmap j)
      × (accounted (free_pages a n (lock_pages a n s)) ≡ accounted s)
unfolding free_pages lock_pages
free_pages-lock_pages s a n v fits short clear =
    let t = each_page lock_page a n 0 s in
    let w : IsValid t = each_page-IsValid lock_page-IsMarker a n 0 s v in
    (
      λ j. ground (
        arith,
        get-each_page free_page-IsMarker a n 0 t j w (omega arith) (omega arith),
        get-each_page lock_page-IsMarker a n 0 s j v (omega arith) (omega arith),
        size-each_page lock_page-IsMarker a n 0 s,
        clear j,
      ),
      accounted-each_page free_page-IsMarker a n 0 t w
          ∙ accounted-each_page lock_page-IsMarker a n 0 s v,
    )
