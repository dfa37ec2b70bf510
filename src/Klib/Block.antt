-- ===== src/Klib/Block.antt =====
-- Kernel/src/klib/string.cpp: the routines on blocks of bytes.
-- Memory is a function from addresses to bytes; a block lies within the address space.
pub mod Laws
mod Examples
use husky_os.Base.{
  ℕ, zero, suc, ◌+◌, ◌-◌, ◌^◌, Bool, true, false, List, [], ◌∷◌, ltb, ◌==◌, if◌then◌else◌, u8,
}

abbrev pub Memory : Type 0
Memory = ℕ → ℕ

abbrev pub write : Memory → ℕ → ℕ → Memory
write m a v k = if a == k then v else m k

-- The `int` -1 as a 32-bit word.
abbrev pub minus_one : ℕ
minus_one = 4294967295

-- `while (size--) *dst++ = *src++`
unfoldable pub memcpy : (size dst src : ℕ) → Memory → Memory
memcpy zero dst src m = m
memcpy (suc size) dst src m = memcpy size (dst + 1) (src + 1) (write m dst (m src))

-- The loop of the other branch of `memmove`: it starts at 0 and runs while `i != 0`.
move_down : (i dst src : ℕ) → Memory → Memory
move_down zero dst src m = m
move_down (suc i) dst src m = move_down i dst src (write m (dst + i) (m (src + i)))

unfoldable pub memmove : (dst src size : ℕ) → Memory → Memory
unfolding move_down
memmove dst src size m = if ltb dst src then memcpy size dst src m else move_down 0 dst src m

unfoldable pub memcmp : (size a b : ℕ) → Memory → ℕ
memcmp zero a b m = 0
memcmp (suc size) a b m =
    let rest = memcmp size (a + 1) (b + 1) m in
    if ltb (m a) (m b) then minus_one else if ltb (m b) (m a) then 1 else rest

unfoldable pub memset : (size pointer value : ℕ) → Memory → Memory
memset zero pointer value m = m
memset (suc size) pointer value m = memset size (pointer + 1) value (write m pointer (u8 value))

-- `strncmp` compares `len` bytes; a NUL does not end it.
unfoldable pub strncmp : (len a b : ℕ) → Memory → ℕ
strncmp zero a b m = 0
strncmp (suc len) a b m = let rest = strncmp len (a + 1) (b + 1) m in if m a == m b then rest else 1

-- `strcpy` of the string `src`: its bytes without the NUL.
unfoldable pub strcpy : (src : List ℕ) → (dst : ℕ) → Memory → Memory
strcpy [] dst m = m
strcpy (c ∷ cs) dst m = strcpy cs (dst + 1) (write m dst c)
