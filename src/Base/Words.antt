-- ===== src/Base/Words.antt =====
-- Little-endian words in a memory of bytes.
use Prim.Native.Nat.{ℕ, ◌+◌, ◌*◌, ◌^◌}
use husky_os.Base.Tests.{u8}

abbrev pub load8 : (ℕ → ℕ) → ℕ → ℕ
load8 m a = u8 (m a)

abbrev pub load16 : (ℕ → ℕ) → ℕ → ℕ
load16 m a = load8 m a + load8 m (a + 1) * 2 ^ 8

abbrev pub load32 : (ℕ → ℕ) → ℕ → ℕ
load32 m a = load16 m a + load16 m (a + 2) * 2 ^ 16

abbrev pub load64 : (ℕ → ℕ) → ℕ → ℕ
load64 m a = load32 m a + load32 m (a + 4) * 2 ^ 32
