-- ===== src/Memory/Frames/Boot.antt =====
-- `ReadMemoryMap`: what the boot map makes of the bitmap.
use husky_os.Base.{
  ℕ, ◌+◌, ◌*◌, ◌/◌, ◌^◌, ◌≤◌, ◌<◌, ◌≡◌, refl, true, arith, ltb, u64, inl, inr, Bool-cases, ◌∙◌, ◌⊎◌,
  List, [], ◌∷◌, ◌++◌,
}
use husky_os.Memory.Bitmap.{get}
use husky_os.Memory.Frames.{
  Frames, MapEntry, reserved, reserve_entry, init_bitmap, all_free_memory, largest_segment,
  reserve_map, read_map, reserve_pages, lock_pages, reserve_page, each_page, request_page,
}
use husky_os.Memory.Frames.Mark.{IsValid, accounted, lock_page-IsMarker, reserve_page-IsMarker}
use husky_os.Memory.Frames.Request.{IsLowest-or_full, request_page_first_fit, request_page_full}
use husky_os.Memory.Frames.Each.{
  each_page-IsValid, size-each_page, get-each_page, each_page_monotone, accounted-each_page,
}

-- Reserving the pages of an entry, or passing over it.
module _ (e : MapEntry) (s : Frames) where
  reserve_entry-IsValid : IsValid s → IsValid (reserve_entry e s)
  unfolding reserve_entry reserve_pages
  reserve_entry-IsValid v =
      ground (arith, each_page-IsValid reserve_page-IsMarker e.base (e.size / 4096 + 1) 0 s v)

  size-reserve_entry : (reserve_entry e s).page_bitmap.size ≡ s.page_bitmap.size
  unfolding reserve_entry reserve_pages
  size-reserve_entry =
      ground (arith, size-each_page reserve_page-IsMarker e.base (e.size / 4096 + 1) 0 s)

  accounted-reserve_entry : IsValid s → accounted (reserve_entry e s) ≡ accounted s
  unfolding reserve_entry reserve_pages
  accounted-reserve_entry v =
      ground (arith, accounted-each_page reserve_page-IsMarker e.base (e.size / 4096 + 1) 0 s v)

  reserve_entry_monotone :
      (j : ℕ)
      → IsValid s
      → get s.page_bitmap j ≡ true
      → get (reserve_entry e s).page_bitmap j ≡ true
  unfolding reserve_entry reserve_pages
  reserve_entry_monotone j v h =
      ground (arith, each_page_monotone reserve_page-IsMarker e.base (e.size / 4096 + 1) 0 s j v h)

reserve_map-IsValid : (es : List MapEntry) (s : Frames) → IsValid s → IsValid (reserve_map es s)
unfolding reserve_map
reserve_map-IsValid [] s v = v
reserve_map-IsValid (x ∷ es) s v = reserve_map-IsValid es _ (reserve_entry-IsValid x s v)

size-reserve_map :
    (es : List MapEntry) (s : Frames) → (reserve_map es s).page_bitmap.size ≡ s.page_bitmap.size
unfolding reserve_map
size-reserve_map [] s = refl
size-reserve_map (x ∷ es) s = size-reserve_map es _ ∙ size-reserve_entry x s

accounted-reserve_map :
    (es : List MapEntry) (s : Frames) → IsValid s → accounted (reserve_map es s) ≡ accounted s
unfolding reserve_map
accounted-reserve_map [] s v = refl
accounted-reserve_map (x ∷ es) s v =
    accounted-reserve_map es _ (reserve_entry-IsValid x s v) ∙ accounted-reserve_entry x s v

-- Reserving the map never clears a bit.
reserve_map_monotone :
    (es : List MapEntry) (s : Frames) (j : ℕ)
    → IsValid s
    → get s.page_bitmap j ≡ true
    → get (reserve_map es s).page_bitmap j ≡ true
unfolding reserve_map
reserve_map_monotone [] s j v e = e
reserve_map_monotone (x ∷ es) s j v e =
    reserve_map_monotone es _ j (reserve_entry-IsValid x s v) (reserve_entry_monotone x s j v e)

-- Frame `j` lies in the entry, of less than 2 GiB, the page behind its end included, and in the map.
pub record InEntry (e : MapEntry) (bits j : ℕ) : Type 0 where
  pub kind : e.kind ≡ reserved
  pub fits : e.base + (e.size / 4096 + 1) * 4096 ≤ 2 ^ 64
  pub short : e.size / 4096 < 2 ^ 19
  pub from : e.base / 4096 ≤ j
  pub below : j < e.base / 4096 + e.size / 4096 + 1
  pub covered : j ≤ bits

reserve_entry-marks :
    (e : MapEntry) (s : Frames) (j : ℕ)
    → IsValid s
    → InEntry e (s.page_bitmap.size * 8) j
    → get (reserve_entry e s).page_bitmap j ≡ true
unfolding reserve_entry reserve_pages
reserve_entry-marks e s j v i = ground (
  arith,
  i.kind,
  get-each_page reserve_page-IsMarker e.base (e.size / 4096 + 1) 0 s j v (omega (arith, i.fits))
      (omega (arith, i.short)),
  i.from,
  i.below,
  i.covered,
)

reserve_map-marks :
    (xs ys : List MapEntry) (e : MapEntry) (s : Frames) (j : ℕ)
    → IsValid s
    → InEntry e (s.page_bitmap.size * 8) j
    → get (reserve_map (xs ++ e ∷ ys) s).page_bitmap j ≡ true
unfolding reserve_map
reserve_map-marks [] ys e s j v i =
    reserve_map_monotone ys _ j (reserve_entry-IsValid e s v) (reserve_entry-marks e s j v i)
reserve_map-marks (x ∷ xs) ys e s j v i =
    reserve_map-marks xs ys e _ j (reserve_entry-IsValid x s v) (rw (size-reserve_entry x s) i)

-- The same for a map that is known to hold the entry.
reserve_map-marks_of_eq :
    (map xs ys : List MapEntry) (e : MapEntry) (s : Frames) (j : ℕ)
    → IsValid s
    → map ≡ xs ++ e ∷ ys
    → InEntry e (s.page_bitmap.size * 8) j
    → get (reserve_map map s).page_bitmap j ≡ true
reserve_map-marks_of_eq map xs ys e s j v eq i = rw eq (reserve_map-marks xs ys e s j v i)

-- The state between the two loops of `ReadMemoryMap`.
abbrev fresh : (ℕ → ℕ) → List MapEntry → Frames → Frames
fresh memory map s = record s {
  page_bitmap =
      init_bitmap (all_free_memory map 0 / 4096 / 8 + 1) (largest_segment map (0, 0)).0
        (λ k. memory ((largest_segment map (0, 0)).0 + k));
  free_memory = all_free_memory map 0;
  initialized = true;
}

-- The number of bits of the map that `ReadMemoryMap` makes.
abbrev pub map_bits : List MapEntry → ℕ
map_bits map = (all_free_memory map 0 / 4096 / 8 + 1) * 8

-- Memory holds bytes, the counters are words, the hint is still 0, the map has fewer than 2 ^ 31
-- bits, and the segment for the bitmap does not pass the end of the address space.
pub record CanBoot (memory : ℕ → ℕ) (map : List MapEntry) (s : Frames) : Type 0 where
  pub bytes : (a : ℕ) → memory a < 256
  pub used_word : s.used_memory < 2 ^ 64
  pub reserved_word : s.reserved_memory < 2 ^ 64
  pub hint : s.page_bitmap_index ≡ 0
  pub small : map_bits map < 2 ^ 31
  pub fits : (largest_segment map (0, 0)).0 + map_bits map + 4096 ≤ 2 ^ 64

all_free_memory-lt : (map : List MapEntry) (n : ℕ) → n < 2 ^ 64 → all_free_memory map n < 2 ^ 64
unfolding all_free_memory
all_free_memory-lt [] n h = h
all_free_memory-lt (e ∷ es) n h = all_free_memory-lt es _ (omega arith)

fresh-IsValid :
    (memory : ℕ → ℕ) (map : List MapEntry) (s : Frames)
    → CanBoot memory map s
    → IsValid (fresh memory map s)
unfolding init_bitmap
fresh-IsValid memory map s c = record {
  memory = record { bytes = λ k. ground (arith, c.bytes ((largest_segment map (0, 0)).0 + k)) };
  small = c.small;
  hint = omega (arith, c.hint);
  free_word = all_free_memory-lt map 0 (omega arith);
  used_word = c.used_word;
  reserved_word = c.reserved_word;
}

-- What the boot makes of the allocator.
pub record IsBooted (map : List MapEntry) (s t : Frames) : Type 0 where
  pub valid : IsValid t
  pub size : t.page_bitmap.size * 8 ≡ map_bits map
  pub accounts : accounted t ≡ u64 (all_free_memory map 0 + s.used_memory + s.reserved_memory)
  pub low : (j : ℕ) → j < 0x100 → j ≤ map_bits map → get t.page_bitmap j ≡ true
  pub own :
      (j : ℕ)
      → (largest_segment map (0, 0)).0 / 4096 ≤ j
      → j ≤ (largest_segment map (0, 0)).0 / 4096 + map_bits map / 8 / 4096
      → j ≤ map_bits map
      → get t.page_bitmap j ≡ true
  pub entries :
      (xs ys : List MapEntry) (e : MapEntry) (j : ℕ)
      → map ≡ xs ++ e ∷ ys
      → InEntry e (map_bits map) j
      → get t.page_bitmap j ≡ true

pub read_map-IsBooted :
    (memory : ℕ → ℕ) (map : List MapEntry) (s : Frames)
    → CanBoot memory map s
    → IsBooted map s (read_map memory map s)
unfolding read_map reserve_pages lock_pages init_bitmap
read_map-IsBooted memory map s c =
    let a : Frames = fresh memory map s in
    let base = (largest_segment map (0, 0)).0 in
    let va : IsValid a = fresh-IsValid memory map s c in
    let b = reserve_map map a in
    let vb : IsValid b = reserve_map-IsValid map a va in
    let sb : b.page_bitmap.size ≡ a.page_bitmap.size = size-reserve_map map a in
    let d = each_page reserve_page 0 0x100 0 b in
    let vd : IsValid d = each_page-IsValid reserve_page-IsMarker 0 0x100 0 b vb in
    let sd : d.page_bitmap.size ≡ a.page_bitmap.size =
      size-each_page reserve_page-IsMarker 0 0x100 0 b ∙ sb in
    let n = (all_free_memory map 0 / 4096 / 8 + 1) / 4096 + 1 in
    record {
      valid = each_page-IsValid lock_page-IsMarker base n 0 d vd;
      size = omega (arith, size-each_page lock_page-IsMarker base n 0 d, sd);
      accounts =
          accounted-each_page lock_page-IsMarker base n 0 d vd
          ∙ accounted-each_page reserve_page-IsMarker 0 0x100 0 b vb
          ∙ accounted-reserve_map map a va;
      low = λ j p q. each_page_monotone lock_page-IsMarker base n 0 d j vd (
          ground (
            arith,
            get-each_page reserve_page-IsMarker 0 0x100 0 b j vb (omega arith) (omega arith),
            sb,
          ));
      own = λ j p q r. ground (
        arith,
        get-each_page lock_page-IsMarker base n 0 d j vd (omega (arith, c.fits))
            (omega (arith, c.small)),
        sd,
      );
      entries = λ xs ys e j eq i. each_page_monotone lock_page-IsMarker base n 0 d j vd (
          each_page_monotone reserve_page-IsMarker 0 0x100 0 b j vb
            (reserve_map-marks_of_eq map xs ys e a j va eq i));
    }

-- So `RequestPage` never hands out one of the first 0x100 frames after the boot: it returns
-- `NULL` only when every frame of the map is taken.
pub request_page_booted :
    (memory : ℕ → ℕ) (map : List MapEntry) (s : Frames)
    → CanBoot memory map s
    → let t = read_map memory map s in
      (0x100000 ≤ (request_page t).0)
      ⊎ ((request_page t ≡ (0, t)) × ((j : ℕ) → j < map_bits map → get t.page_bitmap j ≡ true))
request_page_booted memory map s c =
    let t = read_map memory map s in
    let b = read_map-IsBooted memory map s c in
    elim (IsLowest-or_full t) [
      | inl (f, low) ↦ inl (elim (Bool-cases (ltb f 0x100)) [
        | inl e ↦
            ground (arith, b.low f (ground arith) (omega (arith, low.below, b.size)), low.clear)
        | inr e ↦ ground (arith, (request_page_first_fit t f b.valid low).0)
      ])
      | inr full ↦ inr (request_page_full t b.valid full, λ j h. full j (omega (arith, b.size)))
    ]
