-- ===== src/Klib/Block/Examples.antt =====
-- The block routines on a few bytes.
use husky_os.Base.{ℕ, ◌+◌, ◌-◌, ◌≤◌, ◌<◌, ◌≡◌, if◌then◌else◌}
use husky_os.Klib.Block.{Memory, memmove}
use husky_os.Klib.Block.Laws.{within, memmove_lem}

abbrev counting : Memory
counting k = k

memmove_lem_example :
    (10 < 12
      → (j : ℕ)
      → memmove 10 12 4 counting j
        ≡ (if within 10 4 j then counting (12 + (j - 10)) else counting j))
    × (12 ≤ 10 → memmove 10 12 4 counting ≡ counting)
memmove_lem_example = memmove_lem 10 12 4 counting
