-- ===== src/Memory/Bitmap/Examples.antt =====
-- Runs of the bitmap, and its laws at a map of one byte.
use husky_os.Base.{◌≡◌, refl, true, false, arith, ◌==◌, if◌then◌else◌}
use husky_os.Memory.Bitmap.{Bitmap, get, set}
use husky_os.Memory.Bitmap.Laws.{set_beyond}

-- Frames 0, 1 and 2 of 8 are marked; the byte behind the map is 0.
abbrev one_byte : Bitmap
one_byte = record { size = 1; address = 0; buffer = λ k. if k == 0 then 0xe0 else 0 }

get_runs : (get one_byte 2 ≡ true) × (get one_byte 3 ≡ false) × (get one_byte 9 ≡ false)
unfolding get
get_runs = (refl, refl, refl)

-- Index 8 passes the bounds check of a map of 8 bits.
set_writes_behind : (set one_byte 8 true).1.buffer 1 ≡ 0x80
unfolding set
set_writes_behind = refl

set_beyond_example : set one_byte 9 true ≡ (false, one_byte)
set_beyond_example = set_beyond one_byte 9 true (omega arith)
