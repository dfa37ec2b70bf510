-- ===== src/Memory/Heap/Fit.antt =====
-- `malloc` against first fit on the list of blocks.
use husky_os.Base.{
  ℕ, zero, suc, ◌+◌, ◌-◌, ◌^◌, ◌≤◌, ◌<◌, ◌≡◌, true, false, ◌&&◌, some, List, [], ◌∷◌, ◌++◌, ◌==◌,
  ltb, leb, ==_refl, u64, length, arith, refl, sym, ◌∙◌, All, inl, inr, Bool-cases,
}
use mathlib.Core.Option.{none-ne-some, some-injective}
use mathlib.Core.Path.{subst}
use husky_os.Memory.Heap.{Heap, put_free, split, rounded, search, malloc}
use husky_os.Memory.Heap.Segments.{
  behind_block-inv, and_true, carve, first_fit, Block, behind, end_of, follow, Segments, Agree,
  end_of-le,
}
use husky_os.Memory.Heap.Split.{search-here, take-Segments, put_free-other}

-- What is asked of the heap: sizes that an `int32_t` holds, and addresses that do not wrap.
abbrev pub IsSmall : ℕ → List Block → Type 0
IsSmall a bs = All (λ (b : Block). b.size < 2 ^ 31) bs × (end_of a bs < 2 ^ 64)

-- `search` at a segment that does not fit and is not the last.
search-on :
    (fuel size a : ℕ) (b : Block) (bs : List Block) (h : Heap)
    → follow (behind a b) bs ≡ behind a b
    → b.is_free && leb size b.size ≡ false
    → Segments h.headers a (b ∷ bs)
    → search (suc fuel) a size h ≡ search fuel (behind a b) size h
unfolding search
search-on fuel size a b bs h nonempty e v =
    let here = v.2 ∙ nonempty in
    let more : (behind a b == 0) ≡ false = ground arith in
    let not_larger : (b.is_free && ltb size b.size) ≡ false = ground (arith, e) in
    let not_equal : (b.is_free && b.size == size) ≡ false = ground (arith, e) in
    rw (v.1, v.0, here, not_larger, not_equal, more) refl

-- `search` at a segment that fits.
search-first :
    (fuel size a : ℕ) (b : Block) (bs : List Block) (h : Heap)
    → 1 ≤ a
    → 16 ≤ size
    → size ≤ b.size
    → b.is_free ≡ true
    → b.size < 2 ^ 31
    → behind a b < 2 ^ 64
    → Segments h.headers a (b ∷ bs)
    → (g : Heap) × (search (suc fuel) a size h ≡ some (some (a + 32), g))
      × Segments g.headers a (carve size b ++ bs)
      × ((x : ℕ) → x < a → Agree (g.headers x) (h.headers x))
unfolding search
search-first fuel size a b bs h pos large fits is_free small inside v =
    let address : u64 (a + 32) ≡ a + 32 = omega arith in
    elim (Bool-cases (ltb size b.size)) [
      | inl e ↦
          let less : size < b.size = ground arith in
          let here = search-here size a b bs h pos large less is_free small inside v in
          (
            put_free a false (split a size h),
            rw (v.1, is_free, v.0, e, address) refl,
            here.0,
            here.1,
          )
      | inr e ↦
          let equal : b.size ≡ size = ground arith in
          let same = ==_refl size in
          let tight : leb (size + 48) b.size ≡ false = ground arith in
          (
            put_free a false h,
            rw (v.1, is_free, v.0, e, equal, same, address) refl,
            rw tight (take-Segments a b bs h v),
            λ x k. put_free-other a x h (λ d. omega (arith, d, k)),
          )
    ]

first_fit-follow :
    (a size : ℕ) (bs : List Block) (t : ℕ × List Block)
    → first_fit a size bs ≡ some t
    → follow a bs ≡ a
first_fit-follow a size [] t e = absurd (none-ne-some t e)
first_fit-follow a size (b ∷ bs) t e = refl

carve-follow : (a size : ℕ) (b : Block) (bs : List Block) → follow a (carve size b ++ bs) ≡ a
carve-follow a size b bs = elim (Bool-cases (leb (size + 48) b.size)) [
  | inl e ↦ rw e refl
  | inr e ↦ rw e refl
]

search_lem :
    (fuel size a p : ℕ) (bs cs : List Block) (h : Heap)
    → length bs ≤ fuel
    → 1 ≤ a
    → 16 ≤ size
    → IsSmall a bs
    → Segments h.headers a bs
    → first_fit a size bs ≡ some (p, cs)
    → (g : Heap) × (search fuel a size h ≡ some (some p, g))
      × Segments g.headers a cs
      × ((x : ℕ) → x < a → Agree (g.headers x) (h.headers x))
      × (follow a cs ≡ a)
unfolding search
search_lem fuel size a p [] cs h enough pos large fits v found = absurd (none-ne-some (p, cs) found)
search_lem zero size a p (b ∷ bs) cs h enough pos large fits v found = elim enough [ ]
search_lem (suc fuel) size a p (b ∷ bs) cs h enough pos large fits v found =
    elim (Bool-cases (b.is_free && leb size b.size)) [
      | inl e ↦
          let whole = some-injective (a + 32, carve size b ++ bs) (p, cs) (rw e at found) in
          let both = and_true b.is_free (leb size b.size) e in
          let r =
            search-first fuel size a b bs h pos large (ground (arith, both.1)) (both.0) (fits.0.0)
              (omega (arith, fits.1, end_of-le (behind a b) bs)) v in
          subst
            (λ (t : ℕ × List Block).
              (g : Heap) × (search (suc fuel) a size h ≡ some (some (t.0), g))
              × Segments g.headers a (t.1)
              × ((x : ℕ) → x < a → Agree (g.headers x) (h.headers x))
              × (follow a (t.1) ≡ a))
            whole (r.0, r.1, r.2, r.3, carve-follow a size b bs)
      | inr e ↦
          let (ds, inside, shape) =
            behind_block-inv b (first_fit (behind a b) size bs) p cs (rw e at found) in
          let nonempty = first_fit-follow (behind a b) size bs (p, ds) inside in
          let r =
            search_lem fuel size (behind a b) p bs ds h (omega (arith, enough)) (omega arith) large
              (fits.0.1, fits.1) (v.3) inside in
          let here = r.3 a (omega arith) in
          let on : search (suc fuel) a size h ≡ search fuel (behind a b) size h =
            search-on fuel size a b bs h nonempty e v in
          subst
            (λ (t : List Block).
              (g : Heap) × (search (suc fuel) a size h ≡ some (some p, g))
              × Segments g.headers a t
              × ((x : ℕ) → x < a → Agree (g.headers x) (h.headers x))
              × (follow a t ≡ a))
            (sym shape)
            (
              r.0,
              on ∙ r.1,
              (here.0 ∙ v.0, here.1 ∙ v.1, here.2 ∙ v.2 ∙ nonempty ∙ sym r.4, r.2),
              λ x k. r.3 x (omega (arith, k)),
              refl,
            )
    ]

-- First fit: where one of the heap's segments is free and large enough for the size, rounded up to
-- a multiple of 16, `malloc` hands out the first, carved as `carve` says, and leaves the others
-- alone: for fuel of a round for each segment, sizes from 1 on and below 2 ^ 31 - 16, segments
-- below 2 ^ 31 bytes and a heap that does not reach the end of the address space.
pub malloc_lem :
    (rounds fuel size p : ℕ) (bs cs : List Block) (h : Heap)
    → length bs ≤ fuel
    → 1 ≤ size
    → size < 2 ^ 31 - 16
    → 1 ≤ h.heap_start
    → IsSmall h.heap_start bs
    → Segments h.headers h.heap_start bs
    → first_fit h.heap_start (rounded size) bs ≡ some (p, cs)
    → (g : Heap) × (malloc (suc rounds) fuel size h ≡ some (p, g))
      × Segments g.headers h.heap_start cs
unfolding malloc
malloc_lem rounds fuel size p bs cs h enough some_bytes small pos fits v found =
    let large : 16 ≤ rounded size = unfold rounded in ground arith in
    let not_empty : (rounded size == 0) ≡ false = ground arith in
    let r = search_lem fuel (rounded size) h.heap_start p bs cs h enough pos large fits v found in
    (r.0, rw (not_empty, r.1) refl, r.2)
