-- ===== src/Memory/Paging/Examples.antt =====
-- Runs of the paging code, and its theorems at a machine of sixteen frames.
use husky_os.Base.{ℕ, ◌/◌, ◌%◌, ◌^◌, ◌≡◌, refl, true, false, some, arith, ◌==◌, if◌then◌else◌}
use husky_os.Memory.Bitmap.{get, set}
use husky_os.Memory.Frames.{Frames, request_page, move_hint, first_clear, lock_page, count_locked}
use husky_os.Memory.Paging.{
  Machine, present, read_write, position, set_flag, get_flag, get_address, set_address, indexer,
  map_memory, next_table, set_page, linked,
}
use husky_os.Memory.Paging.Entry.{get_flag-set_flag, get_address-set_address}
use husky_os.Memory.Paging.Tables.{translate, IsTree, HasRoom}
use husky_os.Memory.Paging.Map.{IsMapped, map_memory-IsMapped}

-- Frames 0 to 3 of 16 are taken; the table of level 4 lies in frame 3 and is empty.
abbrev frames : Frames
frames = record {
  page_bitmap = record { size = 2; address = 0; buffer = λ k. if k == 0 then 0xf0 else 0 };
  free_memory = 0xc000;
  reserved_memory = 0x1000;
  used_memory = 0x3000;
  page_bitmap_index = 0;
  initialized = true;
}

abbrev machine : Machine
machine = record { memory = λ a. 0; frames = frames }

abbrev level : ℕ → ℕ
level t = if t == 0x3000 then 4 else 0

abbrev place : ℕ → ℕ
place t = 0

map_memory_runs :
    translate (map_memory 0x3000 0x1234000 0x7000 machine).memory 0x3000 0x1234000 ≡ some 0x7000
unfolding map_memory next_table set_page linked indexer get_flag get_address request_page move_hint
    first_clear get lock_page set count_locked
map_memory_runs = refl

machine-IsTree : IsTree level place 0x3000 machine
unfolding get
machine-IsTree = record {
  valid = record {
    memory = record { bytes = λ k. ground arith };
    small = omega arith;
    hint = omega arith;
    free_word = omega arith;
    used_word = omega arith;
    reserved_word = omega arith;
  };
  root = refl;
  root_place = refl;
  words = λ a. omega arith;
  table = λ t h.
      let e : t ≡ 0x3000 = ground arith in
      rw e (record { aligned = refl; covered = omega arith; taken = refl });
  entry = λ t i h k p. absurd (ground arith);
}

machine-HasRoom : HasRoom 3 frames
unfolding request_page move_hint first_clear get lock_page set count_locked
machine-HasRoom = (omega arith, (omega arith, (omega arith, tt)))

map_memory-IsMapped_example :
    IsMapped level place 0x3000 0x1234000 0x7000 machine
      (map_memory 0x3000 0x1234000 0x7000 machine)
map_memory-IsMapped_example = map_memory-IsMapped machine-IsTree 0x1234000 0x7000 machine-HasRoom

get_flag-set_flag_example :
    get_flag read_write (set_flag read_write true 0x1000)
    ≡ (if position read_write == 0 then true else get_flag present 0x1000)
get_flag-set_flag_example = get_flag-set_flag read_write true 0x1000 (omega arith)

-- So the answer for a flag that has just been set is false where `Present` is clear.
get_flag_misses : get_flag read_write (set_flag read_write true 0x1000) ≡ false
unfolding get_flag set_flag
get_flag_misses = refl

get_address-set_address_example :
    (get_address (set_address 0x12345 0x8000000000000003) ≡ 0x12345)
    × (set_address 0x12345 0x8000000000000003 % 2 ^ 12 ≡ 3)
    × (set_address 0x12345 0x8000000000000003 / 2 ^ 52 ≡ 0x800)
get_address-set_address_example = get_address-set_address 0x12345 0x8000000000000003 (omega arith)
