-- ===== src/Memory/Frames/Examples.antt =====
-- Runs of the allocator, and its theorems at a machine of eight frames.
use husky_os.Base.{
  ℕ, ◌≡◌, ◌≢◌, ◌⊎◌, ◌≤◌, ◌<◌, refl, true, false, arith, ◌==◌, if◌then◌else◌, List, [], ◌∷◌,
}
use husky_os.Base.Bits.{passes_below, passes_below_at}
use husky_os.Memory.Bitmap.{get, set}
use husky_os.Memory.Frames.{
  Frames, MapEntry, lock_page, free_page, lock_pages, free_pages, request_page, request_pages,
  move_hint, read_map, each_page, first_clear, run_clear, find_run, count_locked, all_free_memory,
  largest_segment,
}
use husky_os.Memory.Frames.Mark.{IsValid, Marks, accounted}
use husky_os.Memory.Frames.Each.{in_run, lock_pages_run, free_pages-lock_pages}
use husky_os.Memory.Frames.Request.{IsLowest, request_page_first_fit, request_page_full}
use husky_os.Memory.Frames.Run.{IsTaken, request_pages_lem}
use husky_os.Memory.Frames.Boot.{CanBoot, map_bits, request_page_booted}
use husky_os.Memory.Frames.Calls.{
  Calls, here, next, lock, free, Calls_accounted, request_page_exclusive,
}

abbrev with_map : ℕ → Frames
with_map byte = record {
  page_bitmap = record { size = 1; address = 0; buffer = λ k. if k == 0 then byte else 0 };
  free_memory = 0x5000;
  reserved_memory = 0x1000;
  used_memory = 0x2000;
  page_bitmap_index = 1;
  initialized = true;
}

-- Frames 0, 1 and 2 are taken.
abbrev machine : Frames
machine = with_map 0xe0

-- Frame 7 alone is clear.
abbrev last_clear : Frames
last_clear = with_map 0xfe

abbrev full : Frames
full = with_map 0xff

request_page_runs : ((request_page machine).0 ≡ 0x3000) × ((request_page full).0 ≡ 0)
unfolding request_page move_hint first_clear get lock_page set count_locked
request_page_runs = (refl, refl)

request_pages_runs :
    ((request_pages 2 machine).0 ≡ 0x3000) × ((request_pages 2 last_clear).0 ≡ 0x7000)
unfolding request_pages move_hint first_clear find_run run_clear lock_pages each_page get lock_page
    set count_locked
request_pages_runs = (refl, refl)

with_map-IsValid : (byte : ℕ) → byte < 256 → IsValid (with_map byte)
with_map-IsValid byte h = record {
  memory = record { bytes = λ k. ground arith };
  small = omega arith;
  hint = omega arith;
  free_word = omega arith;
  used_word = omega arith;
  reserved_word = omega arith;
}

machine-IsValid : IsValid machine
machine-IsValid = with_map-IsValid 0xe0 (omega arith)

get_full : (j : ℕ) → j < 8 → get full.page_bitmap j ≡ true
unfolding get passes_below
get_full j h = passes_below_at (get full.page_bitmap) 8 j refl h

get_machine : (j : ℕ) → j < 3 → get machine.page_bitmap j ≡ true
unfolding get passes_below
get_machine j h = passes_below_at (get machine.page_bitmap) 3 j refl h

get_clear :
    (get machine.page_bitmap 3 ≡ false)
    × (get last_clear.page_bitmap 7 ≡ false)
    × (get last_clear.page_bitmap 8 ≡ false)
unfolding get
get_clear = (refl, refl, refl)

machine-IsLowest : IsLowest machine 3
machine-IsLowest = record {
  from = omega arith;
  below = omega arith;
  clear = get_clear.0;
  taken = λ j p q. get_machine j q;
}

lock_pages_run_example :
    IsValid (lock_pages 0x4000 2 machine)
    × (accounted (lock_pages 0x4000 2 machine) ≡ 0x8000)
    × ((j : ℕ)
        → get (lock_pages 0x4000 2 machine).page_bitmap j
          ≡ (if in_run 8 4 2 j then true else get machine.page_bitmap j))
lock_pages_run_example = lock_pages_run machine 0x4000 2 machine-IsValid (omega arith) (omega arith)

free_pages-lock_pages_example :
    ((j : ℕ)
      → get (free_pages 0x3000 1 (lock_pages 0x3000 1 machine)).page_bitmap j
        ≡ get machine.page_bitmap j)
    × (accounted (free_pages 0x3000 1 (lock_pages 0x3000 1 machine)) ≡ 0x8000)
free_pages-lock_pages_example =
    free_pages-lock_pages machine 0x3000 1 machine-IsValid (omega arith) (omega arith)
      (λ j p q. let e : j ≡ 3 = omega arith in rw e get_clear.0)

request_page_first_fit_example :
    ((request_page machine).0 ≡ 0x3000)
    × Marks machine (request_page machine).1 3 true
    × IsValid (request_page machine).1
    × (accounted (request_page machine).1 ≡ 0x8000)
request_page_first_fit_example = request_page_first_fit machine 3 machine-IsValid machine-IsLowest

request_page_full_example : request_page full ≡ (0, full)
request_page_full_example = request_page_full full (with_map-IsValid 0xff (omega arith)) get_full

request_pages_lem_example :
    IsTaken machine 2 (request_pages 2 machine) ⊎ (request_pages 2 machine ≡ (0, move_hint machine))
request_pages_lem_example = request_pages_lem machine 2 machine-IsValid (omega arith)

-- Two calls: one more page is locked, and another one freed.
two_calls :
    Calls 3 (request_page machine).1 (free_page 0x1000 (lock_page 0x5000 (request_page machine).1))
two_calls = next (next here (lock 0x5000)) (free 0x1000 (omega arith))

Calls_accounted_example :
    IsValid (free_page 0x1000 (lock_page 0x5000 (request_page machine).1))
    × (accounted (free_page 0x1000 (lock_page 0x5000 (request_page machine).1))
        ≡ accounted (request_page machine).1)
Calls_accounted_example = Calls_accounted 3 _ _ two_calls request_page_first_fit_example.2

request_page_exclusive_example :
    let t = free_page 0x1000 (lock_page 0x5000 (request_page machine).1) in
    (get t.page_bitmap 3 ≡ true) × (((request_page t).0 ≢ 0x3000) ⊎ (request_page t ≡ (0, t)))
request_page_exclusive_example =
    request_page_exclusive 3 machine _ machine-IsValid machine-IsLowest two_calls

-- 64 MiB of usable memory from 1 MiB on, below it a reserved entry.
abbrev boot_map : List MapEntry
boot_map =
    record { base = 0; size = 0x100000; kind = 2 }
    ∷ record { base = 0x100000; size = 0x4000000; kind = 1 }
    ∷ []

abbrev at_start : Frames
at_start = record (with_map 0) {
  used_memory = 0;
  reserved_memory = 0;
  page_bitmap_index = 0;
  initialized = false;
}

boot_map-CanBoot : CanBoot (λ a. 0) boot_map at_start
unfolding all_free_memory largest_segment
boot_map-CanBoot = record {
  bytes = λ a. omega arith;
  used_word = omega arith;
  reserved_word = omega arith;
  hint = refl;
  small = omega arith;
  fits = omega arith;
}

request_page_booted_example :
    let t = read_map (λ a. 0) boot_map at_start in
    (0x100000 ≤ (request_page t).0)
    ⊎ ((request_page t ≡ (0, t)) × ((j : ℕ) → j < map_bits boot_map → get t.page_bitmap j ≡ true))
request_page_booted_example = request_page_booted (λ a. 0) boot_map at_start boot_map-CanBoot
