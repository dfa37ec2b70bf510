-- ===== src/Memory/Paging/Tables.antt =====
-- What the processor makes of page tables in memory, and when they form a tree.
use husky_os.Base.{
  ℕ, zero, suc, ◌+◌, ◌*◌, ◌/◌, ◌%◌, ◌^◌, ◌<◌, ◌≡◌, Bool, true, Option, none, some, List, [], ◌∷◌,
  ◌==◌, if◌then◌else◌, All,
}
use husky_os.Memory.Bitmap.{get}
use husky_os.Memory.Frames.{Frames, request_page}
use husky_os.Memory.Frames.Mark.{IsValid}
use husky_os.Memory.Paging.{Machine, entry_at}

-- The processor's reading of an entry: bit 0, and bits 12 to 51.
abbrev pub is_present : ℕ → Bool
is_present entry = entry % 2 == 1

abbrev pub target : ℕ → ℕ
target entry = entry / 2 ^ 12 % 2 ^ 40 * 2 ^ 12

-- The walk through entries with these indices, from `table` on.
abbrev pub follow : (ℕ → ℕ) → List ℕ → ℕ → Option ℕ
follow memory [] table = some table
follow memory (i ∷ is) table =
    if is_present (memory (entry_at table i))
    then follow memory is (target (memory (entry_at table i)))
    else none

abbrev pub AreIndices : List ℕ → Type 0
AreIndices = All (λ i. i < 512)

abbrev pub indices : ℕ → List ℕ
indices a = a / 2 ^ 39 % 512 ∷ a / 2 ^ 30 % 512 ∷ a / 2 ^ 21 % 512 ∷ a / 2 ^ 12 % 512 ∷ []

-- The page that the 4-level walk with 4 KiB pages finds for a virtual address.
abbrev pub translate : (ℕ → ℕ) → ℕ → ℕ → Option ℕ
translate memory pml4 a = follow memory (indices a) pml4

-- The page at `t` holds a table: it is aligned, lies in the map and is taken.
pub record IsTable (s : Frames) (t : ℕ) : Type 0 where
  pub aligned : t % 4096 ≡ 0
  pub covered : t / 4096 < s.page_bitmap.size * 8
  pub taken : get s.page_bitmap (t / 4096) ≡ true

-- Where an entry leads: one level down, to the table of the place that the index adds to.
pub record Leads (level place : ℕ → ℕ) (t i u : ℕ) : Type 0 where
  pub down : level u + 1 ≡ level t
  pub at : place u ≡ place t * 512 + i

-- The tables form a tree below `pml4`. `level t` is 4 to 1 for a table, 0 for another page;
-- `place t` is the number that the indices on the way to `t` spell.
pub record IsTree (level place : ℕ → ℕ) (pml4 : ℕ) (m : Machine) : Type 0 where
  pub valid : IsValid m.frames
  pub root : level pml4 ≡ 4
  pub root_place : place pml4 ≡ 0
  pub words : (a : ℕ) → m.memory a < 2 ^ 64
  pub table : (t : ℕ) → 0 < level t → IsTable m.frames t
  pub entry :
      (t i : ℕ)
      → 1 < level t
      → i < 512
      → is_present (m.memory (entry_at t i)) ≡ true
      → Leads level place t i (target (m.memory (entry_at t i)))

-- The next `n` calls of `RequestPage` all return a page.
abbrev pub HasRoom : ℕ → Frames → Type 0
HasRoom zero s = Unit {0}
HasRoom (suc n) s = (0 < (request_page s).0) × HasRoom n (request_page s).1
