-- ===== src/Memory/Frames/Mark.antt =====
-- The four operations on one page: the bit that they change, the invariant and the accounts.
use husky_os.Base.{
  ℕ, ◌+◌, ◌*◌, ◌/◌, ◌^◌, ◌≤◌, ◌<◌, ◌≡◌, Bool, true, false, arith, ◌==◌, if◌then◌else◌, u64,
}
use husky_os.Memory.Bitmap.{get}
use husky_os.Memory.Bitmap.Laws.{IsBytes, get-set, set-IsBytes, size-set, set_beyond, set_within}
use husky_os.Memory.Frames.{
  Frames, count_locked, count_reserved, count_freed, count_unreserved, lock_page, reserve_page,
  free_page, unreserve_page,
}

-- Memory holds bytes, the map has fewer than 2 ^ 31 bits, the hint lies within it, and the
-- counters are `uint64_t`.
pub record IsValid (s : Frames) : Type 0 where
  pub memory : IsBytes s.page_bitmap
  pub small : s.page_bitmap.size * 8 < 2 ^ 31
  pub hint : s.page_bitmap_index ≤ s.page_bitmap.size * 8
  pub free_word : s.free_memory < 2 ^ 64
  pub used_word : s.used_memory < 2 ^ 64
  pub reserved_word : s.reserved_memory < 2 ^ 64

-- What the three counters add up to.
abbrev pub accounted : Frames → ℕ
accounted s = u64 (s.free_memory + s.used_memory + s.reserved_memory)

-- The operations write bit `index` of the map: it is `v` afterwards, and no other bit changes.
abbrev pub Marks : Frames → Frames → ℕ → Bool → Type 0
Marks s t index v = (j : ℕ) → get t.page_bitmap j ≡ (if index == j then v else get s.page_bitmap j)

module _ {s : Frames} (v : IsValid s) (a : ℕ) where
  pub lock_page-IsValid : IsValid (lock_page a s)
  unfolding lock_page count_locked
  lock_page-IsValid = ground (
    arith,
    set-IsBytes s.page_bitmap (a / 4096) true v.memory,
    size-set s.page_bitmap (a / 4096) true,
  )

  pub reserve_page-IsValid : IsValid (reserve_page a s)
  unfolding reserve_page count_reserved
  reserve_page-IsValid = ground (
    arith,
    set-IsBytes s.page_bitmap (a / 4096) true v.memory,
    size-set s.page_bitmap (a / 4096) true,
  )

  pub free_page-IsValid : IsValid (free_page a s)
  unfolding free_page count_freed
  free_page-IsValid = ground (
    arith,
    set-IsBytes s.page_bitmap (a / 4096) false v.memory,
    size-set s.page_bitmap (a / 4096) false,
  )

  pub unreserve_page-IsValid : IsValid (unreserve_page a s)
  unfolding unreserve_page count_unreserved
  unreserve_page-IsValid = ground (
    arith,
    set-IsBytes s.page_bitmap (a / 4096) false v.memory,
    size-set s.page_bitmap (a / 4096) false,
  )

  pub accounted-lock_page : accounted (lock_page a s) ≡ accounted s
  unfolding lock_page count_locked
  accounted-lock_page = ground arith

  pub accounted-reserve_page : accounted (reserve_page a s) ≡ accounted s
  unfolding reserve_page count_reserved
  accounted-reserve_page = ground arith

  pub accounted-free_page : accounted (free_page a s) ≡ accounted s
  unfolding free_page count_freed
  accounted-free_page = ground arith

  pub accounted-unreserve_page : accounted (unreserve_page a s) ≡ accounted s
  unfolding unreserve_page count_unreserved
  accounted-unreserve_page = ground arith

  module _ (within : a / 4096 ≤ s.page_bitmap.size * 8) where
    pub lock_page-Marks : Marks s (lock_page a s) (a / 4096) true
    unfolding lock_page count_locked
    lock_page-Marks j = ground (
      arith,
      get-set s.page_bitmap (a / 4096) j true v.memory,
      v.small,
      set_within s.page_bitmap (a / 4096) true,
    )

    pub reserve_page-Marks : Marks s (reserve_page a s) (a / 4096) true
    unfolding reserve_page count_reserved
    reserve_page-Marks j = ground (
      arith,
      get-set s.page_bitmap (a / 4096) j true v.memory,
      v.small,
      set_within s.page_bitmap (a / 4096) true,
    )

    pub free_page-Marks : Marks s (free_page a s) (a / 4096) false
    unfolding free_page count_freed
    free_page-Marks j = ground (
      arith,
      get-set s.page_bitmap (a / 4096) j false v.memory,
      v.small,
      set_within s.page_bitmap (a / 4096) false,
    )

    pub unreserve_page-Marks : Marks s (unreserve_page a s) (a / 4096) false
    unfolding unreserve_page count_unreserved
    unreserve_page-Marks j = ground (
      arith,
      get-set s.page_bitmap (a / 4096) j false v.memory,
      v.small,
      set_within s.page_bitmap (a / 4096) false,
    )

-- What the loops over pages use of an operation that writes `v` into the bit of its page.
pub record IsMarker (op : ℕ → Frames → Frames) (v : Bool) : Type 0 where
  pub keeps : (a : ℕ) (s : Frames) → IsValid s → IsValid (op a s)
  pub marks :
      (a : ℕ) (s : Frames)
      → IsValid s
      → a / 4096 ≤ s.page_bitmap.size * 8
      → Marks s (op a s) (a / 4096) v
  pub beyond : (a : ℕ) (s : Frames) → IsValid s → s.page_bitmap.size * 8 < a / 4096 → op a s ≡ s
  pub size : (a : ℕ) (s : Frames) → (op a s).page_bitmap.size ≡ s.page_bitmap.size
  pub accounts : (a : ℕ) (s : Frames) → IsValid s → accounted (op a s) ≡ accounted s

lock_page_beyond :
    (a : ℕ) (s : Frames) → IsValid s → s.page_bitmap.size * 8 < a / 4096 → lock_page a s ≡ s
unfolding lock_page
lock_page_beyond a s v h = ground (arith, set_beyond s.page_bitmap (a / 4096) true, v.small)

reserve_page_beyond :
    (a : ℕ) (s : Frames) → IsValid s → s.page_bitmap.size * 8 < a / 4096 → reserve_page a s ≡ s
unfolding reserve_page
reserve_page_beyond a s v h = ground (arith, set_beyond s.page_bitmap (a / 4096) true, v.small)

free_page_beyond :
    (a : ℕ) (s : Frames) → IsValid s → s.page_bitmap.size * 8 < a / 4096 → free_page a s ≡ s
unfolding free_page
free_page_beyond a s v h = ground (arith, set_beyond s.page_bitmap (a / 4096) false, v.small)

unreserve_page_beyond :
    (a : ℕ) (s : Frames) → IsValid s → s.page_bitmap.size * 8 < a / 4096 → unreserve_page a s ≡ s
unfolding unreserve_page
unreserve_page_beyond a s v h = ground (arith, set_beyond s.page_bitmap (a / 4096) false, v.small)

pub size-lock_page : (a : ℕ) (s : Frames) → (lock_page a s).page_bitmap.size ≡ s.page_bitmap.size
unfolding lock_page count_locked
size-lock_page a s = ground (arith, size-set s.page_bitmap (a / 4096) true)

size-reserve_page : (a : ℕ) (s : Frames) → (reserve_page a s).page_bitmap.size ≡ s.page_bitmap.size
unfolding reserve_page count_reserved
size-reserve_page a s = ground (arith, size-set s.page_bitmap (a / 4096) true)

size-free_page : (a : ℕ) (s : Frames) → (free_page a s).page_bitmap.size ≡ s.page_bitmap.size
unfolding free_page count_freed
size-free_page a s = ground (arith, size-set s.page_bitmap (a / 4096) false)

size-unreserve_page :
    (a : ℕ) (s : Frames) → (unreserve_page a s).page_bitmap.size ≡ s.page_bitmap.size
unfolding unreserve_page count_unreserved
size-unreserve_page a s = ground (arith, size-set s.page_bitmap (a / 4096) false)

pub lock_page-IsMarker : IsMarker lock_page true
lock_page-IsMarker = record {
  keeps = λ a s v. lock_page-IsValid v a;
  marks = λ a s v. lock_page-Marks v a;
  beyond = lock_page_beyond;
  size = size-lock_page;
  accounts = λ a s v. accounted-lock_page v a;
}

pub reserve_page-IsMarker : IsMarker reserve_page true
reserve_page-IsMarker = record {
  keeps = λ a s v. reserve_page-IsValid v a;
  marks = λ a s v. reserve_page-Marks v a;
  beyond = reserve_page_beyond;
  size = size-reserve_page;
  accounts = λ a s v. accounted-reserve_page v a;
}

pub free_page-IsMarker : IsMarker free_page false
free_page-IsMarker = record {
  keeps = λ a s v. free_page-IsValid v a;
  marks = λ a s v. free_page-Marks v a;
  beyond = free_page_beyond;
  size = size-free_page;
  accounts = λ a s v. accounted-free_page v a;
}

pub unreserve_page-IsMarker : IsMarker unreserve_page false
unreserve_page-IsMarker = record {
  keeps = λ a s v. unreserve_page-IsValid v a;
  marks = λ a s v. unreserve_page-Marks v a;
  beyond = unreserve_page_beyond;
  size = size-unreserve_page;
  accounts = λ a s v. accounted-unreserve_page v a;
}
