-- ===== src/Boot.antt =====
-- Kernel/src/stivale2_boot.cpp and, of Kernel/src/kernel.cpp, the part of KernelStart that fills the
-- page tables. The boot loader's tags are memory that is read by bytes.
pub mod Tags
pub mod Pages
pub mod Whole
pub mod Disks
mod Examples
use husky_os.Base.{
  ℕ, zero, suc, ◌+◌, ◌*◌, ◌/◌, ◌^◌, Option, none, some, List, [], ◌∷◌, ltb, ◌==◌, if◌then◌else◌,
  u64, sub64, load64, for_range, ◌>>=◌,
}
use husky_os.Memory.Frames.{MapEntry, all_free_memory, read_map, lock_pages, request_page}
use husky_os.Memory.Paging.{Machine, clear_page, map_memory}

-- The loop of `stivale2_get_tag`; 0 when no tag has the identifier.
unfoldable pub get_tag_from : (ℕ → ℕ) → (fuel current_tag id : ℕ) → Option ℕ
get_tag_from m zero current_tag id = none
get_tag_from m (suc fuel) current_tag id =
    let on = get_tag_from m fuel (load64 m (current_tag + 8)) id in
    if current_tag == 0 then some 0 else if load64 m current_tag == id then some current_tag else on

unfoldable pub stivale2_get_tag : (ℕ → ℕ) → (fuel stivale2_struct id : ℕ) → Option ℕ
stivale2_get_tag m fuel stivale2_struct id =
    get_tag_from m fuel (load64 m (stivale2_struct + 128)) id

-- `for (; t < limit; t += 0x1000) MapMemory(t, physical t)`
unfoldable pub map_while : (pml4 fuel limit t : ℕ) → (physical : ℕ → ℕ) → Machine → Option Machine
map_while pml4 zero limit t physical m = none
map_while pml4 (suc fuel) limit t physical m =
    let on =
      map_while pml4 fuel limit (u64 (t + 0x1000)) physical (map_memory pml4 t (physical t) m) in
    if ltb t limit then on else some m

abbrev pub higher_half : ℕ
higher_half = 0xffff800000000000

-- A round of the second loop.
abbrev pub map_high : (pml4 i : ℕ) → Machine → Machine
map_high pml4 i m =
    let physaddr = u64 (i * 0x1000) in map_memory pml4 (u64 (physaddr + higher_half)) physaddr m

-- The first two loops: all memory at its own address, and again in the higher half.
unfoldable pub map_all : (pml4 fuel total : ℕ) → Machine → Option Machine
map_all pml4 fuel total m = map_while pml4 fuel total 0 (λ t. t) m >>= λ t.
    some (for_range (total / 0x1000) 0 (map_high pml4) t)

-- `stivale2_pmr`
pub record Pmr : Type 0 where
  pub base : ℕ
  pub length : ℕ

-- The loops over the ranges of the kernel's own file.
unfoldable pub map_pmrs :
    (pml4 fuel physical_base virtual_base : ℕ) → List Pmr → Machine → Option Machine
map_pmrs pml4 fuel physical_base virtual_base [] m = some m
map_pmrs pml4 fuel physical_base virtual_base (pmr ∷ pmrs) m =
    map_while pml4 fuel (u64 (pmr.base + pmr.length)) pmr.base
      (λ v. u64 (physical_base + sub64 v virtual_base)) m
    >>= λ t. map_pmrs pml4 fuel physical_base virtual_base pmrs t

-- The frame of the first table, cleared.
unfoldable pub new_pml4 : Machine → ℕ × Machine
new_pml4 m =
    let (pml4, frames) = request_page m.frames in
    (pml4, record { memory = clear_page m.memory pml4; frames = frames })

-- From the locked pages of the kernel to the ranges of its file; `total` is what `GetAllFreeMemory`
-- answers.
unfoldable pub boot_tables :
    (fuel total kernel_start end physical_base virtual_base : ℕ)
    → List Pmr
    → Machine
    → Option (ℕ × Machine)
boot_tables fuel total kernel_start end physical_base virtual_base pmrs m =
    let kernel_pages = sub64 end kernel_start / 4096 + 1 in
    let (pml4, t) =
      new_pml4 (record m { frames = lock_pages kernel_start kernel_pages m.frames }) in
    map_all pml4 fuel total t >>= λ u.
    map_pmrs pml4 fuel physical_base virtual_base pmrs u >>= λ v. some (pml4, v)
