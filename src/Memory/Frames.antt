-- ===== src/Memory/Frames.antt =====
-- Kernel/src/memory/pageFrameAllocator.cpp and memory.cpp: the page frame allocator.
-- An address is a number below 2 ^ 64. The loops count with an `int`, which does not overflow for
-- fewer than 2 ^ 31 frames; the products with the size of a page are cut to 32 bits where it does.
pub mod Mark
pub mod Each
pub mod Request
pub mod Run
pub mod Boot
pub mod Calls
mod Examples
use husky_os.Base.{
  ℕ, zero, suc, ◌+◌, ◌-◌, ◌*◌, ◌/◌, ◌%◌, ◌^◌, Bool, true, false, Option, none, some, List, [], ◌∷◌,
  ltb, ◌==◌, ◌||◌, if◌then◌else◌, u32, u64, sub64,
}
use husky_os.Memory.Bitmap.{Bitmap, bit_count, get, set}

-- The globals of the file and the allocator's bitmap.
pub record Frames : Type 0 where
  pub page_bitmap : Bitmap
  pub free_memory : ℕ
  pub reserved_memory : ℕ
  pub used_memory : ℕ
  pub page_bitmap_index : ℕ
  pub initialized : Bool

abbrev pub page_size : ℕ
page_size = 4096

-- What the four operations on one page do when `Set` has succeeded.
unfoldable pub count_locked : Frames → Bitmap → Frames
count_locked s m = record s {
  page_bitmap = m;
  free_memory = sub64 s.free_memory page_size;
  used_memory = u64 (s.used_memory + page_size);
}

unfoldable pub count_reserved : Frames → Bitmap → Frames
count_reserved s m = record s {
  page_bitmap = m;
  free_memory = sub64 s.free_memory page_size;
  reserved_memory = u64 (s.reserved_memory + page_size);
}

-- `if (PageBitmapIndex > Index) PageBitmapIndex = Index`
unfoldable pub lower_index : ℕ → ℕ → ℕ
lower_index old index = if ltb index old then index else old

unfoldable pub count_freed : Frames → Bitmap → ℕ → Frames
unfolding lower_index
count_freed s m index = record s {
  page_bitmap = m;
  free_memory = u64 (s.free_memory + page_size);
  used_memory = sub64 s.used_memory page_size;
  page_bitmap_index = lower_index s.page_bitmap_index index;
}

unfoldable pub count_unreserved : Frames → Bitmap → ℕ → Frames
unfolding lower_index
count_unreserved s m index = record s {
  page_bitmap = m;
  free_memory = u64 (s.free_memory + page_size);
  reserved_memory = sub64 s.reserved_memory page_size;
  page_bitmap_index = lower_index s.page_bitmap_index index;
}

unfoldable pub lock_page : ℕ → Frames → Frames
lock_page address s =
    let index = address / page_size in
    if get s.page_bitmap index
    then s
    else (let (done, m) = set s.page_bitmap index true in if done then count_locked s m else s)

unfoldable pub reserve_page : ℕ → Frames → Frames
reserve_page address s =
    let index = address / page_size in
    if get s.page_bitmap index
    then s
    else (let (done, m) = set s.page_bitmap index true in if done then count_reserved s m else s)

unfoldable pub free_page : ℕ → Frames → Frames
free_page address s =
    let index = address / page_size in
    if get s.page_bitmap index
    then (let (done, m) = set s.page_bitmap index false in
        if done then count_freed s m index else s)
    else s

unfoldable pub unreserve_page : ℕ → Frames → Frames
unreserve_page address s =
    let index = address / page_size in
    if get s.page_bitmap index
    then (let (done, m) = set s.page_bitmap index false in
        if done then count_unreserved s m index else s)
    else s

-- `t * 4096` for an `int t`: a product of 32 bits, whose sign fills the upper half of the address.
unfoldable pub offset_of : (t : ℕ) → ℕ
offset_of t =
    let product = u32 (t * page_size) in
    if ltb product (2 ^ 31) then product else product + (2 ^ 64 - 2 ^ 32)

-- `for (t = 0; t < PageCount; t++) op(Address + t * 4096)`, from round `t` with `left` to go.
unfoldable pub each_page : (ℕ → Frames → Frames) → (address left t : ℕ) → Frames → Frames
each_page op address zero t s = s
each_page op address (suc left) t s =
    each_page op address left (t + 1) (op (u64 (address + offset_of t)) s)

unfoldable pub lock_pages : ℕ → ℕ → Frames → Frames
lock_pages address page_count = each_page lock_page address page_count 0

unfoldable pub reserve_pages : ℕ → ℕ → Frames → Frames
reserve_pages address page_count = each_page reserve_page address page_count 0

unfoldable pub free_pages : ℕ → ℕ → Frames → Frames
free_pages address page_count = each_page free_page address page_count 0

unfoldable pub unreserve_pages : ℕ → ℕ → Frames → Frames
unreserve_pages address page_count = each_page unreserve_page address page_count 0

-- The first of the frames `x, x + 1, …` that is clear, `left` of them being looked at.
unfoldable pub first_clear : Bitmap → (left x : ℕ) → Option ℕ
first_clear m zero x = none
first_clear m (suc left) x =
    let rest = first_clear m left (x + 1) in if get m x then rest else some x

-- The first loop of `RequestPage` and `RequestPages`: move the hint down to a clear frame.
set_hint : Option ℕ → Frames → Frames
set_hint none s = s
set_hint (some i) s = record s { page_bitmap_index = i }

unfoldable pub move_hint : Frames → Frames
unfolding set_hint
move_hint s = set_hint (first_clear s.page_bitmap s.page_bitmap_index 0) s

take_page : Option ℕ → Frames → ℕ × Frames
take_page none s = (0, s)
take_page (some x) s = (u64 (x * page_size), lock_page (u64 (x * page_size)) s)

-- `RequestPage`: the address of a frame, 0 for `NULL`.
unfoldable pub request_page : Frames → ℕ × Frames
unfolding take_page
request_page s =
    let s' = move_hint s in
    take_page
      (first_clear s'.page_bitmap (bit_count s'.page_bitmap - s'.page_bitmap_index)
        s'.page_bitmap_index)
      s'

-- The inner loop of `RequestPages`: no frame of the run is taken.
unfoldable pub run_clear : Bitmap → (left x : ℕ) → Bool
run_clear m zero x = true
run_clear m (suc left) x = let rest = run_clear m left (x + 1) in if get m x then false else rest

pub data Search : Type 0 where
  found : ℕ → Search
  exhausted : Search
  out_of_fuel : Search

-- The outer loop: a run that fails moves `x` on by `amount` and by the loop's own `x++`.
unfoldable pub find_run : Bitmap → (amount fuel x : ℕ) → Search
find_run m amount zero x = out_of_fuel
find_run m amount (suc fuel) x =
    let on = find_run m amount fuel (x + 1) in
    let past = find_run m amount fuel (x + amount + 1) in
    if ltb x (bit_count m)
    then (if get m x then on else if run_clear m amount x then found x else past)
    else exhausted

take_pages : Search → ℕ → Frames → ℕ × Frames
take_pages (found x) amount s = (u64 (x * page_size), lock_pages (u64 (x * page_size)) amount s)
take_pages exhausted amount s = (0, s)
take_pages out_of_fuel amount s = (0, s)

-- `RequestPages`; the search gets a round for each frame and one more.
unfoldable pub request_pages : ℕ → Frames → ℕ × Frames
unfolding take_pages
request_pages amount s =
    let s' = move_hint s in
    take_pages (find_run s'.page_bitmap amount (bit_count s'.page_bitmap + 1) s'.page_bitmap_index)
      amount s'

-- An entry of the boot loader's memory map; the types are stivale2's.
pub record MapEntry : Type 0 where
  pub base : ℕ
  pub size : ℕ
  pub kind : ℕ

abbrev pub usable : ℕ
usable = 1

abbrev pub reserved : ℕ
reserved = 2

abbrev pub bootloader_reclaimable : ℕ
bootloader_reclaimable = 0x1000

-- `GetAllFreeMemory`
unfoldable pub all_free_memory : List MapEntry → ℕ → ℕ
all_free_memory [] mems = mems
all_free_memory (e ∷ es) mems = all_free_memory es (u64 (mems + e.size))

-- The first loop of `ReadMemoryMap`: base and size of the largest free segment.
unfoldable pub largest_segment : List MapEntry → ℕ × ℕ → ℕ × ℕ
largest_segment [] best = best
largest_segment (e ∷ es) (base, size) = largest_segment es (
    if (e.kind == usable || e.kind == bootloader_reclaimable)
    then (if ltb size e.size then (e.base, e.size) else (base, size))
    else (base, size))

-- `InitBitmap`, over the bytes `memory` that lie from `BufferAddress` on.
unfoldable pub init_bitmap : ℕ → ℕ → (ℕ → ℕ) → Bitmap
init_bitmap size address memory = record {
  size = size;
  address = address;
  buffer = λ k. if ltb k size then 0 else memory k;
}

-- The second loop of `ReadMemoryMap`, and its body.
unfoldable pub reserve_entry : MapEntry → Frames → Frames
reserve_entry e s = if e.kind == reserved then reserve_pages e.base (e.size / 0x1000 + 1) s else s

unfoldable pub reserve_map : List MapEntry → Frames → Frames
reserve_map [] s = s
reserve_map (e ∷ es) s = reserve_map es (reserve_entry e s)

-- `ReadMemoryMap` behind its test of `Initialized`; `memory a` is the byte at address `a`.
unfoldable pub read_map : (ℕ → ℕ) → List MapEntry → Frames → Frames
read_map memory map s =
    let (base, _) = largest_segment map (0, 0) in
    let total = all_free_memory map 0 in
    let m = init_bitmap (total / 4096 / 8 + 1) base (λ k. memory (base + k)) in
    let s' = record s { page_bitmap = m; free_memory = total; initialized = true } in
    lock_pages base (m.size / 4096 + 1) (reserve_pages 0 0x100 (reserve_map map s'))

unfoldable pub read_memory_map : (ℕ → ℕ) → List MapEntry → Frames → Frames
read_memory_map memory map s = if s.initialized then s else read_map memory map s
