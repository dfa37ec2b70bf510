-- ===== src/Memory/Frames/Run.antt =====
-- `RequestPages`: the search ends, and what it finds; where it goes past the map.
use husky_os.Base.{
  ℕ, ◌+◌, ◌-◌, ◌*◌, ◌^◌, ◌≤◌, ◌<◌, ◌≡◌, ◌≢◌, refl, true, false, zero, suc, arith, ◌==◌, ltb,
  if◌then◌else◌, u64, inl, inr, Bool-cases, ◌∙◌, ◌⊎◌, lt→ltb,
}
use native.Mathlib.Nat.{le_refl}
use husky_os.Memory.Bitmap.Laws.{get_beyond}
use husky_os.Memory.Bitmap.{Bitmap, bit_count, get}
use husky_os.Memory.Frames.{
  Frames, move_hint, run_clear, Search, found, exhausted, out_of_fuel, find_run, take_pages,
  request_pages,
}
use husky_os.Memory.Frames.Mark.{IsValid, accounted}
use husky_os.Memory.Frames.Each.{in_run, lock_pages_run}
use husky_os.Memory.Frames.Request.{move_hint-IsHinted, move_hint-IsValid, accounted-move_hint}

pub run_clear_iff :
    (m : Bitmap) (n x : ℕ) → run_clear m n x ≡ true → (j : ℕ) → x ≤ j → j < x + n → get m j ≡ false
unfolding run_clear
run_clear_iff m zero x e j p q = absurd (omega arith)
run_clear_iff m (suc n) x e j p q =
    ground (arith, λ (h : run_clear m n (x + 1) ≡ true). run_clear_iff m n (x + 1) h j)

-- The search of `RequestPages` ends within a round for each frame and one more.
pub find_run_ends :
    (m : Bitmap) (amount fuel x : ℕ)
    → bit_count m - x < fuel
    → find_run m amount fuel x ≢ out_of_fuel
unfolding find_run
find_run_ends m amount zero x h = absurd (omega arith)
find_run_ends m amount (suc fuel) x h =
    ground
      (arith, find_run_ends m amount fuel (x + 1), find_run_ends m amount fuel (x + amount + 1))

pub find_run-found :
    (m : Bitmap) (amount fuel x f : ℕ)
    → find_run m amount fuel x ≡ found f
    → (f < bit_count m) × (get m f ≡ false) × (run_clear m amount f ≡ true)
unfolding find_run
find_run-found m amount zero x f e = absurd (ground arith)
find_run-found m amount (suc fuel) x f e =
    ground (
      arith,
      find_run-found m amount fuel (x + 1) f,
      find_run-found m amount fuel (x + amount + 1) f,
    )

-- What `RequestPages` hands out: a run of frames that were clear and whose first lies in the map;
-- afterwards exactly the frames of the run that the map covers are marked besides those before.
pub record IsRun (s t : Frames) (amount f : ℕ) : Type 0 where
  pub inside : f < s.page_bitmap.size * 8
  pub clear : (j : ℕ) → f ≤ j → j < f + amount → get s.page_bitmap j ≡ false
  pub marked :
      (j : ℕ)
      → get t.page_bitmap j
        ≡ (if in_run (s.page_bitmap.size * 8) f amount j then true else get s.page_bitmap j)
  pub valid : IsValid t
  pub accounts : accounted t ≡ accounted s

pub record IsTaken (s : Frames) (amount : ℕ) (out : ℕ × Frames) : Type 0 where
  pub first : ℕ
  pub address : out.0 ≡ first * 4096
  pub run : IsRun s out.1 amount first

take_pages-found :
    (s : Frames) (amount f : ℕ)
    → IsValid s
    → amount < 2 ^ 19
    → f < s.page_bitmap.size * 8
    → run_clear s.page_bitmap amount f ≡ true
    → IsTaken s amount (take_pages (found f) amount (move_hint s))
unfolding take_pages
take_pages-found s amount f v small inside clear =
    let h = move_hint-IsHinted s in
    let e : u64 (f * 4096) ≡ f * 4096 = omega (arith, v.small) in
    let locked =
      lock_pages_run (move_hint s) (f * 4096) amount (move_hint-IsValid s v)
        (omega (arith, v.small)) (omega arith) in
    record {
      first = f;
      address = e;
      run = rw e (record {
        inside = inside;
        clear = run_clear_iff s.page_bitmap amount f clear;
        marked = λ j. ground (arith, locked.2 j, h.bitmap);
        valid = locked.0;
        accounts = locked.1 ∙ accounted-move_hint s;
      });
    }

take_pages_lem :
    (s : Frames) (amount fuel x : ℕ) (r : Search)
    → IsValid s
    → amount < 2 ^ 19
    → bit_count s.page_bitmap - x < fuel
    → find_run s.page_bitmap amount fuel x ≡ r
    → IsTaken s amount (take_pages r amount (move_hint s))
      ⊎ (take_pages r amount (move_hint s) ≡ (0, move_hint s))
unfolding take_pages
take_pages_lem s amount fuel x (found f) v small fits e =
    let (inside, _, clear) = find_run-found s.page_bitmap amount fuel x f e in
    inl (take_pages-found s amount f v small (omega (arith, v.small)) clear)
take_pages_lem s amount fuel x exhausted v small fits e = inr refl
take_pages_lem s amount fuel x out_of_fuel v small fits e =
    absurd (find_run_ends s.page_bitmap amount fuel x fits e)

-- `RequestPages` for fewer than 2 ^ 19 pages either takes a run: the address is that of a frame
-- inside the map, all frames of the run were clear, and afterwards those of them that the map
-- covers are marked and no other frame has changed; or it returns `NULL` and takes nothing.
pub request_pages_lem :
    (s : Frames) (amount : ℕ)
    → IsValid s
    → amount < 2 ^ 19
    → IsTaken s amount (request_pages amount s) ⊎ (request_pages amount s ≡ (0, move_hint s))
unfolding request_pages move_hint
request_pages_lem s amount v small =
    let h = move_hint-IsHinted s in
    rw h.bitmap (
      take_pages_lem s amount (bit_count s.page_bitmap + 1) (move_hint s).page_bitmap_index _ v
        small (omega arith) refl)

find_run-eq :
    (m : Bitmap) (amount fuel x f : ℕ)
    → f < bit_count m
    → x ≤ f
    → f < x + fuel
    → ((j : ℕ) → x ≤ j → j < f → get m j ≡ true)
    → get m f ≡ false
    → run_clear m amount f ≡ true
    → find_run m amount fuel x ≡ found f
unfolding find_run
find_run-eq m amount zero x f hf hx fuel taken clear run = absurd (omega arith)
find_run-eq m amount (suc k) x f hf hx fuel taken clear run = elim (Bool-cases (x == f)) [
  | inl e ↦ let e' : x ≡ f = ground arith in rw (e', lt→ltb _ _ hf, clear, run)
  | inr e ↦
      rw (lt→ltb x (bit_count m) (omega arith), taken x (le_refl x) (ground arith))
        (find_run-eq m amount k (x + 1) f hf (ground arith) (omega arith)
          (λ j p q. taken j (omega arith) q) clear run)
]

run_clear-true :
    (m : Bitmap) (n x : ℕ) → ((j : ℕ) → x ≤ j → get m j ≡ false) → run_clear m n x ≡ true
unfolding run_clear
run_clear-true m zero x h = refl
run_clear-true m (suc n) x h =
    rw (h x (le_refl x)) (run_clear-true m n (x + 1) (λ j p. h j (omega arith)))

-- Where only the last frame of the map is clear, and the bit behind the map is clear too,
-- `RequestPages` returns that frame for every count below 2 ^ 19 of two pages or more, although
-- the map has no frame behind it.
pub request_pages_overrun :
    (s : Frames) (last amount : ℕ)
    → IsValid s
    → last + 1 ≡ s.page_bitmap.size * 8
    → ((j : ℕ) → j < last → get s.page_bitmap j ≡ true)
    → get s.page_bitmap last ≡ false
    → get s.page_bitmap (last + 1) ≡ false
    → 1 < amount
    → amount < 2 ^ 19
    → ((request_pages amount s).0 ≡ last * 4096) × (s.page_bitmap.size * 8 < last + amount)
unfolding request_pages move_hint take_pages
request_pages_overrun s last amount v e taken clear behind many small =
    let h = move_hint-IsHinted s in
    let m = s.page_bitmap in
    let beyond : (j : ℕ) → last ≤ j → get m j ≡ false = λ j p.
      elim (Bool-cases (ltb (last + 1) j)) [
        | inl q ↦ get_beyond m j (ground (arith, v.small))
        | inr q ↦ elim (Bool-cases (j == last)) [ inl r ↦ ground arith | inr r ↦ ground arith ]
      ] in
    let low : (move_hint s).page_bitmap_index ≤ last =
      elim (Bool-cases (ltb last (move_hint s).page_bitmap_index)) [
        | inl q ↦ ground (arith, h.taken last (ground arith))
        | inr q ↦ ground arith
      ] in
    (
      rw
          (
            h.bitmap,
            find_run-eq m amount (bit_count m + 1) (move_hint s).page_bitmap_index last
                (omega (arith, v.small)) low (omega (arith, v.small, h.le, v.hint))
                (λ j p q. taken j q) clear (run_clear-true m amount last beyond),
          )
          (omega (arith, v.small)),
      omega arith,
    )
