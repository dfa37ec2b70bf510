-- ===== src/Memory/Heap.antt =====
-- Kernel/src/memory/heap.cpp: the kernel's heap. A segment's header is read at its address; headers
-- do not overlap. Pages come from the frame allocator by way of the page tables.
pub mod Segments
pub mod Split
pub mod Safe
pub mod Fit
pub mod Release
pub mod Free
mod Examples
use husky_os.Base.{
  ℕ, zero, suc, ◌+◌, ◌-◌, ◌*◌, ◌/◌, ◌%◌, ◌^◌, Bool, true, false, not, ◌&&◌, ◌||◌, Option, some,
  none, ltb, leb, ◌==◌, if◌then◌else◌, u32, u64, sub64, ◌>>=◌,
}
use husky_os.Klib.Block.{memcpy}
use husky_os.Memory.Frames.{request_page}
use husky_os.Memory.Paging.{Machine, map_memory}

pub record HeapSegHdr : Type 0 where
  pub length : ℕ
  pub next : ℕ
  pub last : ℕ
  pub free : Bool

-- The globals, the headers by their addresses, and the machine with the top page table.
pub record Heap : Type 0 where
  pub headers : ℕ → HeapSegHdr
  pub heap_start : ℕ
  pub heap_end : ℕ
  pub last_hdr : ℕ
  pub pml4 : ℕ
  pub machine : Machine

abbrev pub header_size : ℕ
header_size = 32

-- A change to the header at an address.
abbrev pub at_header : (address : ℕ) → (HeapSegHdr → HeapSegHdr) → Heap → Heap
at_header address f h = record h {
  headers = λ a. if a == address then f (h.headers a) else h.headers a;
}

abbrev pub put_length : (address value : ℕ) → Heap → Heap
put_length address value = at_header address (λ s. record s { length = value })

abbrev pub put_next : (address value : ℕ) → Heap → Heap
put_next address value = at_header address (λ s. record s { next = value })

abbrev pub put_last : (address value : ℕ) → Heap → Heap
put_last address value = at_header address (λ s. record s { last = value })

abbrev pub put_free : (address : ℕ) → Bool → Heap → Heap
put_free address value = at_header address (λ s. record s { free = value })

-- `MapMemory(pos, RequestPage())`
unfoldable pub map_page : (position : ℕ) → Heap → Heap
map_page position h =
    let (page, frames) = request_page h.machine.frames in
    record h { machine = map_memory h.pml4 position page (record h.machine { frames = frames }) }

-- The loop of `initializeHeap`.
unfoldable pub map_pages : (page_count position : ℕ) → Heap → Heap
map_pages zero position h = h
map_pages (suc page_count) position h =
    map_pages page_count (u64 (position + 0x1000)) (map_page position h)

unfoldable pub initialize_heap : (heap_address page_count : ℕ) → Heap → Heap
initialize_heap heap_address page_count h =
    let heap_length = u64 (page_count * 0x1000) in
    at_header heap_address
      (λ s. record { length = sub64 heap_length header_size; next = 0; last = 0; free = true })
      (record (map_pages page_count heap_address h) {
        heap_start = heap_address;
        heap_end = u64 (heap_address + heap_length);
        last_hdr = heap_address;
      })

-- `splitSegLength`: an `int32_t`, here its 32-bit word.
unfoldable pub split_seg_length : (length split_length : ℕ) → ℕ
split_seg_length length split_length = u32 (sub64 (sub64 length split_length) header_size)

-- The new header of `Split`, and the links around it.
unfoldable pub link_split : (this new_split_hdr split_length seg_length : ℕ) → Heap → Heap
link_split this new_split_hdr split_length seg_length h =
    let s = h.headers this in
    put_length this split_length (
      put_free new_split_hdr s.free (
        put_length new_split_hdr seg_length (
          put_last new_split_hdr this (
            put_next this new_split_hdr
              (put_next new_split_hdr s.next (put_last s.next new_split_hdr h))))))

-- `if (LastHdr == this) last = newSplitHdr`
unfoldable pub note_last : (this new_split_hdr : ℕ) → Heap → Heap
note_last this new_split_hdr h = if h.last_hdr == this then put_last this new_split_hdr h else h

unfoldable pub split : (this split_length : ℕ) → Heap → Heap
split this split_length h =
    let seg_length = split_seg_length (h.headers this).length split_length in
    let new_split_hdr = u64 (this + split_length + header_size) in
    if ltb split_length 0x10
    then h
    else if ltb seg_length 0x10 || leb (2 ^ 31) seg_length
    then h
    else note_last this new_split_hdr (link_split this new_split_hdr split_length seg_length h)

unfoldable pub combine_forward : (this : ℕ) → Heap → Heap
combine_forward this h =
    let s = h.headers this in
    let n = h.headers s.next in
    if s.next == 0
    then h
    else if not n.free
    then h
    else let g = if n.next == 0 then h else put_last n.next this h in
      put_next this n.next (put_length this (u64 (s.length + n.length + header_size)) g)

unfoldable pub combine_backward : (this : ℕ) → Heap → Heap
combine_backward this h =
    let last = (h.headers this).last in
    if last == 0 then h else if (h.headers last).free then combine_forward last h else h

unfoldable pub free : (address : ℕ) → Heap → Heap
free address h =
    let segment = sub64 address header_size in
    combine_backward segment (combine_forward segment (put_free segment true h))

-- The size that `ExpandHeap` works with.
unfoldable pub page_size_of : ℕ → ℕ
page_size_of size = if size % 0x1000 == 0 then size else 0x1000

unfoldable pub map_at_end : (page_count : ℕ) → Heap → Heap
map_at_end zero h = h
map_at_end (suc page_count) h =
    let g = map_page h.heap_end h in
    map_at_end page_count (record g { heap_end = u64 (g.heap_end + 0x1000) })

unfoldable pub expand_heap : (size : ℕ) → Heap → Heap
expand_heap size h =
    let whole = page_size_of size in
    let new_segment = h.heap_end in
    let g = map_at_end (whole / 0x1000) h in
    let linked =
      put_next g.last_hdr new_segment
        (put_last new_segment g.last_hdr (put_free new_segment true g)) in
    combine_backward new_segment (
      put_length new_segment (sub64 whole header_size)
        (put_next new_segment 0 (record linked { last_hdr = new_segment })))

-- The size that `malloc` works with, a multiple of 16.
unfoldable pub rounded : ℕ → ℕ
rounded size = if size % 0x10 == 0 then size else u64 (size - size % 0x10 + 0x10)

-- The loop of `malloc`: no result when the fuel is out, else the address if a segment fits.
unfoldable pub search : (fuel current size : ℕ) → Heap → Option (Option ℕ × Heap)
search zero current size h = none
search (suc fuel) current size h =
    let s = h.headers current in
    let on = search fuel s.next size h in
    if s.free && ltb size s.length
    then some (some (u64 (current + header_size)), put_free current false (split current size h))
    else if s.free && s.length == size
    then some (some (u64 (current + header_size)), put_free current false h)
    else if s.next == 0
    then some (none, h)
    else on

-- `malloc` with `rounds` calls of itself.
unfoldable pub malloc : (rounds fuel size : ℕ) → Heap → Option (ℕ × Heap)
malloc zero fuel size h = none
malloc (suc rounds) fuel size h = if rounded size == 0 then some (0, h) else do
  (found, g) ← search fuel h.heap_start (rounded size) h
  elim found [
    | some address ↦ some (address, g)
    | none ↦ malloc rounds fuel (rounded size) (expand_heap (rounded size) g)
  ]

unfoldable pub calloc : (rounds fuel num size : ℕ) → Heap → Option (ℕ × Heap)
calloc rounds fuel num size h = malloc rounds fuel (u64 (num * size)) h

-- `realloc`, over the bytes of memory; it takes the address for that of a header.
unfoldable pub realloc :
    (rounds fuel address size : ℕ) → Heap × (ℕ → ℕ) → Option (ℕ × Heap × (ℕ → ℕ))
realloc rounds fuel address size (h, bytes) =
    if not (h.headers address).free then some (0, h, bytes) else do
      (new_ptr, g) ← malloc rounds fuel size h
      some (new_ptr, free address g, memcpy size new_ptr address bytes)
