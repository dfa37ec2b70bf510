-- ===== src/Memory/Paging.antt =====
-- Kernel/src/memory/paging.cpp, PageMapIndexer.cpp and PageTableManager.cpp: page table entries,
-- the four indices of an address, and the walk that maps a page.
pub mod Entry
pub mod Tables
pub mod Level
pub mod Map
mod Examples
use husky_os.Base.{
  ℕ, ◌+◌, ◌-◌, ◌*◌, ◌/◌, ◌%◌, ◌^◌, Bool, true, false, bit_and, bit_or, ltb, leb, ◌==◌, ◌&&◌,
  if◌then◌else◌, u64,
}
use husky_os.Memory.Frames.{Frames, request_page}

-- `enum PT_Flag`
pub data PtFlag : Type 0 where
  present read_write user_super write_through cache_disabled accessed : PtFlag
  larger_pages custom0 custom1 custom2 nx : PtFlag

-- The enumerators' values.
unfoldable pub position : PtFlag → ℕ
position present = 0
position read_write = 1
position user_super = 2
position write_through = 3
position cache_disabled = 4
position accessed = 5
position larger_pages = 7
position custom0 = 9
position custom1 = 10
position custom2 = 11
position nx = 63

-- `PageDirectoryEntry::SetFlag` on the entry's value
unfoldable pub set_flag : PtFlag → Bool → ℕ → ℕ
unfolding position
set_flag flag enabled value =
    let bit_selector = 2 ^ position flag in
    let cleared = bit_and value (2 ^ 64 - 1 - bit_selector) in
    if enabled then bit_or cleared bit_selector else cleared

-- `PageDirectoryEntry::GetFlag`. In C++ `Value & BitSelector > 0` is `Value & (BitSelector > 0)`.
unfoldable pub get_flag : PtFlag → ℕ → Bool
unfolding position
get_flag flag value =
    let bit_selector = 2 ^ position flag in
    ltb 0 (bit_and value (if ltb 0 bit_selector then 1 else 0))

-- `PageDirectoryEntry::GetAddress`
unfoldable pub get_address : ℕ → ℕ
get_address value = bit_and value 0x000ffffffffff000 / 2 ^ 12

-- `PageDirectoryEntry::SetAddress`
unfoldable pub set_address : ℕ → ℕ → ℕ
set_address address value =
    let low = bit_and address 0x000000ffffffffff in
    bit_or (bit_and value 0xfff0000000000fff) (u64 (low * 2 ^ 12))

-- `PageMapIndexer`
pub record PageMapIndexer : Type 0 where
  pub pdp_i : ℕ
  pub pd_i : ℕ
  pub pt_i : ℕ
  pub p_i : ℕ

unfoldable pub indexer : ℕ → PageMapIndexer
indexer virtual_address =
    let a = virtual_address / 2 ^ 12 in
    let b = a / 2 ^ 9 in
    let c = b / 2 ^ 9 in
    let d = c / 2 ^ 9 in
    record {
      p_i = bit_and a 0x1ff;
      pt_i = bit_and b 0x1ff;
      pd_i = bit_and c 0x1ff;
      pdp_i = bit_and d 0x1ff;
    }

-- The memory that holds page tables, by entries: `memory a` is the 64-bit word at address `a`.
pub record Machine : Type 0 where
  pub memory : ℕ → ℕ
  pub frames : Frames

-- `&table->Entries[index]`
abbrev pub entry_at : ℕ → ℕ → ℕ
entry_at table index = table + index * 8

unfoldable pub write_word : (ℕ → ℕ) → ℕ → ℕ → ℕ → ℕ
write_word memory a value b = if a == b then value else memory b

-- `memset(table, 0, 0x1000)`
unfoldable pub clear_page : (ℕ → ℕ) → ℕ → ℕ → ℕ
clear_page memory table a = if leb table a && ltb a (table + 0x1000) then 0 else memory a

-- `SetAddress`, then `Present`, then `ReadWrite`: what every level stores.
unfoldable pub linked : ℕ → ℕ → ℕ
unfolding set_address set_flag
linked address value =
    set_flag read_write true (set_flag present true (set_address (address / 2 ^ 12) value))

-- One level of `MapMemory`: the table below entry `index`, which is made if it is missing.
unfoldable pub next_table : ℕ → ℕ → Machine → ℕ × Machine
unfolding write_word clear_page
next_table table index m =
    let pde = m.memory (entry_at table index) in
    if get_flag present pde
    then (u64 (get_address pde * 2 ^ 12), m)
    else (let (page, frames) = request_page m.frames in
        (
          page,
          record {
            memory = write_word (clear_page m.memory page) (entry_at table index) (linked page pde);
            frames = frames;
          },
        ))

-- The entry of the last level.
unfoldable pub set_page : ℕ → ℕ → ℕ → Machine → Machine
unfolding write_word
set_page table index physical m = record m {
  memory =
      write_word m.memory (entry_at table index)
        (linked physical (m.memory (entry_at table index)));
}

-- `PageTableManager::MapMemory`
unfoldable pub map_memory : (pml4 virtual physical : ℕ) → Machine → Machine
map_memory pml4 virtual physical m =
    let i = indexer virtual in
    let (pdp, m₁) = next_table pml4 i.pdp_i m in
    let (pd, m₂) = next_table pdp i.pd_i m₁ in
    let (pt, m₃) = next_table pd i.pt_i m₂ in set_page pt i.p_i physical m₃
