-- ===== src/Boot/Examples.antt =====
-- The boot loader's tags, and the page tables of a machine of 32 frames.
use husky_os.Base.{
  ℕ, zero, suc, ◌+◌, ◌*◌, ◌/◌, ◌<◌, ◌≡◌, refl, true, some, [], ◌∷◌, arith, ◌==◌, if◌then◌else◌,
  for_range,
}
use husky_os.Memory.Bitmap.{get, set}
use husky_os.Memory.Frames.{Frames, request_page, move_hint, first_clear, lock_page, count_locked}
use husky_os.Memory.Frames.Mark.{IsValid}
use husky_os.Memory.Paging.{
  Machine, indexer, map_memory, next_table, set_page, linked, get_flag, get_address, clear_page,
}
use husky_os.Memory.Paging.Tables.{translate}
use husky_os.Boot.{get_tag_from, new_pml4, map_all, map_high, higher_half}
use husky_os.Boot.Tags.{IsTags, tag_at, last}
use husky_os.Boot.Pages.{HasRooms, mapping}
use husky_os.Boot.Whole.{map_all_lem}

-- Frames 0 to 3 of 32 are taken.
abbrev frames : Frames
frames = record {
  page_bitmap = record { size = 4; address = 0; buffer = λ k. if k == 0 then 0xf0 else 0 };
  free_memory = 0x1c000;
  reserved_memory = 0x1000;
  used_memory = 0x3000;
  page_bitmap_index = 0;
  initialized = true;
}

abbrev machine : Machine
machine = record { memory = λ a. 7; frames = frames }

frames-IsValid : IsValid frames
frames-IsValid = record {
  memory = record { bytes = λ k. ground arith };
  small = omega arith;
  hint = omega arith;
  free_word = omega arith;
  used_word = omega arith;
  reserved_word = omega arith;
}

abbrev pml4 : ℕ
pml4 = (new_pml4 machine).0

abbrev cleared : Machine
cleared = (new_pml4 machine).1

abbrev low : ℕ → Machine → Machine
low = mapping pml4 (λ j. j * 0x1000) (λ j. j * 0x1000)

low-HasRooms : HasRooms 2 0 low cleared
unfolding map_memory next_table set_page linked indexer get_flag get_address request_page move_hint
    first_clear get lock_page set count_locked new_pml4 clear_page for_range
low-HasRooms zero below = (omega arith, (omega arith, (omega arith, tt)))
low-HasRooms (suc zero) below = (omega arith, (omega arith, (omega arith, tt)))
low-HasRooms (suc (suc j)) below = absurd (omega (arith, below))

high-HasRooms : HasRooms 1 0 (map_high pml4) (for_range 2 0 low cleared)
unfolding map_memory next_table set_page linked indexer get_flag get_address request_page move_hint
    first_clear get lock_page set count_locked new_pml4 clear_page for_range
high-HasRooms zero below = (omega arith, (omega arith, (omega arith, tt)))
high-HasRooms (suc j) below = absurd (omega (arith, below))

-- The memory has a page and a half.
map_all_lem_example :
    (out : Machine) × (map_all pml4 3 0x1800 cleared ≡ some out)
    × ((a : ℕ) → a < 0x1800 → translate out.memory pml4 a ≡ some (a / 0x1000 * 0x1000))
    × ((a : ℕ)
        → a < 0x1800 / 0x1000 * 0x1000
        → translate out.memory pml4 (a + higher_half) ≡ some (a / 0x1000 * 0x1000))
unfolding request_page move_hint first_clear get lock_page set count_locked
map_all_lem_example =
    map_all_lem 3 0x1800 machine frames-IsValid (λ a. omega arith) (omega arith) (omega arith)
      (omega arith) (low-HasRooms, high-HasRooms)

-- Two tags, at 8 and 24, with the identifiers 5 and 9.
abbrev tags : ℕ → ℕ
tags a = if a == 8 then 5 else if a == 16 then 24 else if a == 24 then 9 else 0

tags-IsTags : IsTags tags 8 (8 ∷ 24 ∷ [])
tags-IsTags = tag_at (λ e. ground arith) (tag_at (λ e. ground arith) last)

get_tag_run : get_tag_from tags 3 8 9 ≡ some 24
unfolding get_tag_from
get_tag_run = refl
