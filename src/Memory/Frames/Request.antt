-- ===== src/Memory/Frames/Request.antt =====
-- `RequestPage`: first fit, exhaustion, and no frame handed out twice.
use husky_os.Base.{
  ℕ, ◌+◌, ◌-◌, ◌*◌, ◌≤◌, ◌<◌, ◌≡◌, refl, true, false, zero, suc, arith, ltb, u64, inl, inr,
  Bool-cases, Option, some, none, Option-cases, ap, ◌∙◌, ◌⊎◌,
}
use husky_os.Memory.Bitmap.{Bitmap, bit_count, get}
use husky_os.Memory.Frames.{Frames, first_clear, move_hint, take_page, request_page}
use husky_os.Memory.Frames.Mark.{
  IsValid, Marks, lock_page-IsValid, lock_page-Marks, size-lock_page, accounted,
  accounted-lock_page,
}

-- `f` is the first clear frame of the `n` frames from `x` on.
pub record IsFirst (m : Bitmap) (n x f : ℕ) : Type 0 where
  pub from : x ≤ f
  pub below : f < x + n
  pub clear : get m f ≡ false
  pub taken : (j : ℕ) → x ≤ j → j < f → get m j ≡ true

pub first_clear-IsFirst : (m : Bitmap) (n x f : ℕ) → first_clear m n x ≡ some f → IsFirst m n x f
unfolding first_clear
first_clear-IsFirst m zero x f e = absurd (ground arith)
first_clear-IsFirst m (suc n) x f e = elim (Bool-cases (get m x)) [
  | inl t ↦
      let r = first_clear-IsFirst m n (x + 1) f (ground arith) in
      record {
        from = omega (arith, r.from);
        below = omega (arith, r.below);
        clear = r.clear;
        taken = λ j p q. ground (arith, r.taken j);
      }
  | inr c ↦ record {
    from = ground arith;
    below = ground arith;
    clear = ground arith;
    taken = λ j p q. ground arith;
  }
]

pub first_clear-none :
    (m : Bitmap) (n x j : ℕ) → first_clear m n x ≡ none → x ≤ j → j < x + n → get m j ≡ true
unfolding first_clear
first_clear-none m zero x j e p q = absurd (omega arith)
first_clear-none m (suc n) x j e p q = ground (arith, first_clear-none m n (x + 1) j)

-- The search finds the one frame that is clear and has only taken ones before it.
pub first_clear-eq : (m : Bitmap) (n x f : ℕ) → IsFirst m n x f → first_clear m n x ≡ some f
first_clear-eq m n x f h = elim (Option-cases (first_clear m n x)) [
  | inl e ↦ ground (arith, first_clear-none m n x f e h.from h.below, h.clear)
  | inr (g, e) ↦
      let r = first_clear-IsFirst m n x g e in
      ground (arith, r.taken f h.from, h.taken g r.from, r.clear, h.clear)
]

pub first_clear-full :
    (m : Bitmap) (n x : ℕ)
    → ((j : ℕ) → x ≤ j → j < x + n → get m j ≡ true)
    → first_clear m n x ≡ none
first_clear-full m n x h = elim (Option-cases (first_clear m n x)) [
  | inl e ↦ e
  | inr (g, e) ↦
      let r = first_clear-IsFirst m n x g e in ground (arith, h g r.from r.below, r.clear)
]

-- What the first loop leaves: only the hint has moved, and every frame below it is taken.
pub record IsHinted (s t : Frames) : Type 0 where
  pub same : t ≡ record s { page_bitmap_index = t.page_bitmap_index }
  pub bitmap : t.page_bitmap ≡ s.page_bitmap
  pub le : t.page_bitmap_index ≤ s.page_bitmap_index
  pub taken : (j : ℕ) → j < t.page_bitmap_index → get s.page_bitmap j ≡ true

pub move_hint-IsHinted : (s : Frames) → IsHinted s (move_hint s)
unfolding move_hint
move_hint-IsHinted s = elim (Option-cases (first_clear s.page_bitmap s.page_bitmap_index 0)) [
  | inl e ↦ rw e (record {
    same = refl;
    bitmap = refl;
    le = omega arith;
    taken =
        λ j h. first_clear-none s.page_bitmap s.page_bitmap_index 0 j e (omega arith) (omega arith);
  })
  | inr (f, e) ↦
      let r = first_clear-IsFirst s.page_bitmap s.page_bitmap_index 0 f e in
      rw e (record {
        same = refl;
        bitmap = refl;
        le = omega (arith, r.below);
        taken = λ j h. r.taken j (omega arith) h;
      })
]

pub move_hint-IsValid : (s : Frames) → IsValid s → IsValid (move_hint s)
move_hint-IsValid s v =
    let h = move_hint-IsHinted s in
    rw h.same (record {
      memory = v.memory;
      small = v.small;
      hint = omega (arith, h.le, v.hint);
      free_word = v.free_word;
      used_word = v.used_word;
      reserved_word = v.reserved_word;
    })

pub accounted-move_hint : (s : Frames) → accounted (move_hint s) ≡ accounted s
accounted-move_hint s = ap accounted (move_hint-IsHinted s).same

abbrev scan : Frames → Option ℕ
scan t =
    first_clear t.page_bitmap (bit_count t.page_bitmap - t.page_bitmap_index) t.page_bitmap_index

request_page-eq : (s : Frames) → request_page s ≡ take_page (scan (move_hint s)) (move_hint s)
unfolding request_page
request_page-eq s = refl

-- The lowest clear frame of the map.
abbrev pub IsLowest : Frames → ℕ → Type 0
IsLowest s f = IsFirst s.page_bitmap (s.page_bitmap.size * 8) 0 f

scan-lowest : (s : Frames) (f : ℕ) → IsValid s → IsLowest s f → scan (move_hint s) ≡ some f
scan-lowest s f v low =
    let h = move_hint-IsHinted s in
    first_clear-eq _ _ _ f (
      rw h.bitmap (record {
        from = elim (Bool-cases (ltb f (move_hint s).page_bitmap_index)) [
          | inl e ↦ ground (arith, h.taken f (ground arith), low.clear)
          | inr e ↦ ground arith
        ];
        below = omega (arith, low.below, v.small, h.le, v.hint);
        clear = low.clear;
        taken = λ j p q. low.taken j (omega arith) q;
      }))

-- `RequestPage` hands out the lowest clear frame of the map: it returns its address, marks it
-- and no other frame, and keeps the invariant and the sum of the counters.
pub request_page_first_fit :
    (s : Frames) (f : ℕ)
    → IsValid s
    → IsLowest s f
    → ((request_page s).0 ≡ f * 4096)
      × Marks s (request_page s).1 f true
      × IsValid (request_page s).1
      × (accounted (request_page s).1 ≡ accounted s)
unfolding take_page
request_page_first_fit s f v low =
    let h = move_hint-IsHinted s in
    let w : IsValid (move_hint s) = move_hint-IsValid s v in
    let e : u64 (f * 4096) ≡ f * 4096 = omega (arith, low.below, v.small) in
    rw (request_page-eq s, scan-lowest s f v low, e)
      (
        refl,
        λ j. ground (
          arith,
          lock_page-Marks w (f * 4096)
              (omega (arith, low.below, ap (λ (m : Bitmap). m.size) h.bitmap)) j,
          h.bitmap,
        ),
        lock_page-IsValid w (f * 4096),
        accounted-lock_page w (f * 4096) ∙ accounted-move_hint s,
      )

-- When every frame of the map is taken, `RequestPage` returns `NULL` and takes nothing.
pub request_page_full :
    (s : Frames)
    → IsValid s
    → ((j : ℕ) → j < s.page_bitmap.size * 8 → get s.page_bitmap j ≡ true)
    → request_page s ≡ (0, s)
unfolding request_page move_hint
request_page_full s v full = rw (
  first_clear-full s.page_bitmap s.page_bitmap_index 0 (λ j p q. full j (omega (arith, v.hint))),
  first_clear-full s.page_bitmap (bit_count s.page_bitmap - s.page_bitmap_index) s.page_bitmap_index
      (λ j p q. full j (omega (arith, v.hint, v.small))),
)

-- The two cases are all there are.
pub IsLowest-or_full :
    (s : Frames)
    → ((f : ℕ) × IsLowest s f) ⊎ ((j : ℕ) → j < s.page_bitmap.size * 8 → get s.page_bitmap j ≡ true)
IsLowest-or_full s = elim (Option-cases (first_clear s.page_bitmap (s.page_bitmap.size * 8) 0)) [
  | inl e ↦ inr (λ j h. first_clear-none s.page_bitmap _ 0 j e (omega arith) (omega arith))
  | inr (f, e) ↦ inl (f, first_clear-IsFirst s.page_bitmap _ 0 f e)
]

size-take_page :
    (o : Option ℕ) (s : Frames) → (take_page o s).1.page_bitmap.size ≡ s.page_bitmap.size
unfolding take_page
size-take_page none s = refl
size-take_page (some x) s = size-lock_page (u64 (x * 4096)) s

pub size-request_page : (s : Frames) → (request_page s).1.page_bitmap.size ≡ s.page_bitmap.size
size-request_page s = rw request_page-eq (
    size-take_page (scan (move_hint s)) (move_hint s)
    ∙ ap (λ (m : Bitmap). m.size) (move_hint-IsHinted s).bitmap)
