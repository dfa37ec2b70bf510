-- ===== src/Memory/Heap/Examples.antt =====
-- A heap of three segments at 0x1000: 64 bytes in use, 128 free, 16 in use.
use husky_os.Base.{
  ℕ, ◌+◌, ◌≤◌, ◌≡◌, ◌⊎◌, true, false, some, List, [], ◌∷◌, ◌==◌, if◌then◌else◌, refl, arith,
}
use husky_os.Memory.Heap.{HeapSegHdr, Heap, rounded, malloc, free}
use husky_os.Memory.Heap.Segments.{Block, behind, Segments, first_fit}
use husky_os.Memory.Heap.Safe.{Used, malloc_safe}
use husky_os.Memory.Heap.Free.{coalesced, free_lem}

abbrev header_at : ℕ → HeapSegHdr
header_at a =
    if a == 0x1000
    then record { length = 64; next = 0x1060; last = 0; free = false }
    else if a == 0x1060
    then record { length = 128; next = 0x1100; last = 0x1000; free = true }
    else record { length = 16; next = 0; last = 0x1060; free = false }

abbrev heap : Heap
heap = record {
  headers = header_at;
  heap_start = 0x1000;
  heap_end = 0x1130;
  last_hdr = 0x1100;
  pml4 = 0;
  machine = record {
    memory = λ a. 0;
    frames = record {
      page_bitmap = record { size = 0; address = 0; buffer = λ k. 0 };
      free_memory = 0;
      reserved_memory = 0;
      used_memory = 0;
      page_bitmap_index = 0;
      initialized = true;
    };
  };
}

abbrev used : ℕ → Block
used n = record { size = n; is_free = false }

abbrev spare : ℕ → Block
spare n = record { size = n; is_free = true }

abbrev blocks : List Block
blocks = used 64 ∷ spare 128 ∷ used 16 ∷ []

heap-Segments : Segments header_at 0x1000 blocks
heap-Segments = (refl, refl, refl, (refl, refl, refl, (refl, refl, refl, tt)))

-- 20 bytes are rounded up to 32, and 64 are left.
abbrev blocks_then : List Block
blocks_then = used 64 ∷ used 32 ∷ spare 64 ∷ used 16 ∷ []

fitting : first_fit 0x1000 (rounded 20) blocks ≡ some (0x1080, blocks_then)
unfolding rounded
fitting = refl

malloc_safe_example :
    (g : Heap) × (malloc 1 3 20 heap ≡ some (0x1080, g))
    × Segments g.headers 0x1000 blocks_then
    × ((n : ℕ) × (20 ≤ n)
        × Used 0x1000 blocks_then 0x1080 n
        × ((q m : ℕ)
            → Used 0x1000 blocks q m
            → Used 0x1000 blocks_then q m × ((q + m ≤ 0x1080) ⊎ (0x1080 + n ≤ q))))
malloc_safe_example =
    malloc_safe 0 3 20 0x1080 blocks blocks_then heap (omega arith) (omega arith) (omega arith)
      (omega arith) ((omega arith, (omega arith, (omega arith, tt))), omega arith) heap-Segments
      fitting

-- The last block is given back.
free_lem_example :
    Segments
      (free (behind 0x1060 (spare 128) + 32) heap).headers
      0x1000
      (used 64 ∷ coalesced (spare 128) (used 16) [])
free_lem_example =
    free_lem (used 64 ∷ []) [] (spare 128) (used 16) heap (omega arith) (omega arith) heap-Segments
      refl
