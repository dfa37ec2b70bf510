-- ===== src/Klib/Block/Laws.antt =====
-- What the block routines leave in memory, byte by byte.
use husky_os.Base.{
  ℕ, zero, suc, ◌+◌, ◌-◌, ◌≤◌, ◌<◌, ◌≡◌, ◌≢◌, ◌⊎◌, Bool, List, [], ◌∷◌, ◌&&◌, arith, refl, ltb, leb,
  if◌then◌else◌, u8, length, get_elem?, some,
}
use husky_os.Klib.Block.{Memory, write, minus_one, memcpy, memmove, memcmp, memset, strncmp, strcpy}

-- Whether address `j` lies in the `size` bytes from `a` on.
abbrev pub within : (a size j : ℕ) → Bool
within a size j = leb a j && ltb j (a + size)

-- `memcpy` leaves at each address of the target the byte that the source held before, and every
-- other byte as it was, when the blocks do not overlap or the target does not lie above the
-- source.
pub memcpy_lem :
    (size dst src : ℕ) (m : Memory) (j : ℕ)
    → (dst ≤ src) ⊎ (src + size ≤ dst)
    → memcpy size dst src m j ≡ (if within dst size j then m (src + (j - dst)) else m j)
unfolding memcpy
memcpy_lem zero dst src m j h = ground arith
memcpy_lem (suc size) dst src m j h =
    ground (arith, memcpy_lem size (dst + 1) (src + 1) (write m dst (m src)) j)

pub memset_lem :
    (size p v : ℕ) (m : Memory) (j : ℕ)
    → memset size p v m j ≡ (if within p size j then u8 v else m j)
unfolding memset
memset_lem zero p v m j = ground arith
memset_lem (suc size) p v m j = ground (arith, memset_lem size (p + 1) v (write m p (u8 v)) j)

-- `memmove` moves the block to a lower address as it should, overlapping or not; to a higher
-- address, or in place, it copies nothing.
pub memmove_lem :
    (dst src size : ℕ) (m : Memory)
    → (dst < src
        → (j : ℕ)
        → memmove dst src size m j ≡ (if within dst size j then m (src + (j - dst)) else m j))
      × (src ≤ dst → memmove dst src size m ≡ m)
unfolding memmove
memmove_lem dst src size m = (λ h j. ground (arith, memcpy_lem size dst src m j), λ h. ground arith)

-- `memcmp` is 0 exactly on equal blocks; else its sign is that of the first byte that differs.
pub record FirstDiffers (m : Memory) (size a b i : ℕ) : Type 0 where
  pub below : i < size
  pub differs : m (a + i) ≢ m (b + i)
  pub before : (j : ℕ) → j < i → m (a + j) ≡ m (b + j)

pub memcmp-same :
    (size a b : ℕ) (m : Memory)
    → ((j : ℕ) → j < size → m (a + j) ≡ m (b + j))
    → memcmp size a b m ≡ 0
unfolding memcmp
memcmp-same zero a b m h = refl
memcmp-same (suc size) a b m h =
    ground (arith, h 0, memcmp-same size (a + 1) (b + 1) m (λ j p. ground (arith, h (j + 1))))

pub memcmp-FirstDiffers :
    (size a b i : ℕ) (m : Memory)
    → FirstDiffers m size a b i
    → memcmp size a b m ≡ (if ltb (m (a + i)) (m (b + i)) then minus_one else 1)
unfolding memcmp
memcmp-FirstDiffers zero a b i m d = absurd (omega (arith, d.below))
memcmp-FirstDiffers (suc size) a b zero m d = ground (arith, d.differs)
memcmp-FirstDiffers (suc size) a b (suc i) m d = ground (
  arith,
  d.before 0,
  memcmp-FirstDiffers size (a + 1) (b + 1) i m (record {
    below = omega (arith, d.below);
    differs = λ e. ground (arith, d.differs);
    before = λ j p. ground (arith, d.before (j + 1));
  }),
)

-- `strncmp` answers 0 exactly when all `len` bytes agree, and 1 otherwise.
pub strncmp_lem :
    (len a b : ℕ) (m : Memory)
    → (strncmp len a b m ≡ 0 → (j : ℕ) → j < len → m (a + j) ≡ m (b + j))
      × ((j : ℕ) → j < len → m (a + j) ≢ m (b + j) → strncmp len a b m ≡ 1)
unfolding strncmp
strncmp_lem zero a b m = (λ e j h. absurd (omega arith), λ j h d. absurd (omega arith))
strncmp_lem (suc len) a b m =
    let ih = strncmp_lem len (a + 1) (b + 1) m in
    (
      λ e j h. ground (arith, λ (e' : strncmp len (a + 1) (b + 1) m ≡ 0). ih.0 e' (j - 1)),
      λ j h d. ground (arith, ih.1 (j - 1)),
    )

strcpy_below : (s : List ℕ) (dst : ℕ) (m : Memory) (j : ℕ) → j < dst → strcpy s dst m j ≡ m j
unfolding strcpy
strcpy_below [] dst m j h = refl
strcpy_below (x ∷ s) dst m j h = ground (arith, strcpy_below s (dst + 1) (write m dst x) j)

strcpy_get :
    (s : List ℕ) (dst : ℕ) (m : Memory) (i c : ℕ)
    → get_elem? s i ≡ some c
    → strcpy s dst m (dst + i) ≡ c
unfolding strcpy
strcpy_get [] dst m i c e = ground arith
strcpy_get (x ∷ s) dst m zero c e = ground (arith, strcpy_below s (dst + 1) (write m dst x) dst)
strcpy_get (x ∷ s) dst m (suc i) c e = ground (arith, strcpy_get s (dst + 1) (write m dst x) i c)

strcpy_above :
    (s : List ℕ) (dst : ℕ) (m : Memory) (j : ℕ) → dst + length s ≤ j → strcpy s dst m j ≡ m j
unfolding strcpy
strcpy_above [] dst m j h = refl
strcpy_above (x ∷ s) dst m j h = ground (arith, strcpy_above s (dst + 1) (write m dst x) j)

-- `strcpy` writes the bytes of the string and leaves all others as they were, so that the byte
-- behind them gets no NUL.
pub strcpy_lem :
    (s : List ℕ) (dst : ℕ) (m : Memory)
    → ((i c : ℕ) → get_elem? s i ≡ some c → strcpy s dst m (dst + i) ≡ c)
      × ((j : ℕ) → j < dst → strcpy s dst m j ≡ m j)
      × ((j : ℕ) → dst + length s ≤ j → strcpy s dst m j ≡ m j)
strcpy_lem s dst m = (strcpy_get s dst m, strcpy_below s dst m, strcpy_above s dst m)
