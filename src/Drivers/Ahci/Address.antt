-- ===== src/Drivers/Ahci/Address.antt =====
-- What a command for the disk says of the place it reads from.
use husky_os.Base.{ℕ, ◌+◌, ◌*◌, ◌/◌, ◌%◌, ◌^◌, ◌<◌, ◌≡◌, u8, u32, load8, arith}
use husky_os.Drivers.Ahci.Command.{fill_fis}

-- The address in a command, as the disk reads it: six bytes from the lowest on.
abbrev pub lba : (ℕ → ℕ) → (fis : ℕ) → ℕ
lba m fis =
    load8 m (fis + 4)
    + load8 m (fis + 5) * 2 ^ 8
    + load8 m (fis + 6) * 2 ^ 16
    + load8 m (fis + 8) * 2 ^ 24
    + load8 m (fis + 9) * 2 ^ 32
    + load8 m (fis + 10) * 2 ^ 40

-- The number of sectors.
abbrev pub sectors : (ℕ → ℕ) → (fis : ℕ) → ℕ
sectors m fis = load8 m (fis + 12) + load8 m (fis + 13) * 2 ^ 8

low_bytes :
    (fis sector n : ℕ) (m : ℕ → ℕ)
    → (load8 (fill_fis fis sector n m) (fis + 4) ≡ u8 sector)
      × (load8 (fill_fis fis sector n m) (fis + 5) ≡ u8 (u32 sector / 2 ^ 8))
      × (load8 (fill_fis fis sector n m) (fis + 6) ≡ u8 (u32 sector / 2 ^ 16))
unfolding fill_fis
low_bytes fis sector n m = (ground arith, ground arith, ground arith)

high_bytes :
    (fis sector n : ℕ) (m : ℕ → ℕ)
    → (load8 (fill_fis fis sector n m) (fis + 8) ≡ u8 (u32 (sector / 2 ^ 32)))
      × (load8 (fill_fis fis sector n m) (fis + 9) ≡ u8 (u32 (sector / 2 ^ 32) / 2 ^ 8))
      × (load8 (fill_fis fis sector n m) (fis + 10) ≡ u8 (u32 (sector / 2 ^ 32) / 2 ^ 16))
unfolding fill_fis
high_bytes fis sector n m = (ground arith, ground arith, ground arith)

count_bytes :
    (fis sector n : ℕ) (m : ℕ → ℕ)
    → (load8 (fill_fis fis sector n m) (fis + 12) ≡ u8 n)
      × (load8 (fill_fis fis sector n m) (fis + 13) ≡ u8 (n / 2 ^ 8))
unfolding fill_fis
count_bytes fis sector n m = (ground arith, ground arith)

-- A command names the first 24 bits of the sector and, in the place of the next 24, the bits from
-- 32 on, for sectors below 2 ^ 48: the bits 24 to 31 are lost. For a sector below 2 ^ 24 the address
-- is the sector. The count is taken modulo 2 ^ 16.
pub fill_fis_lem :
    (fis sector n : ℕ) (m : ℕ → ℕ)
    → sector < 2 ^ 48
    → (lba (fill_fis fis sector n m) fis ≡ sector % 2 ^ 24 + sector / 2 ^ 32 % 2 ^ 24 * 2 ^ 24)
      × (sector < 2 ^ 24 → lba (fill_fis fis sector n m) fis ≡ sector)
      × (sectors (fill_fis fis sector n m) fis ≡ n % 2 ^ 16)
fill_fis_lem fis sector n m small =
    let low = low_bytes fis sector n m in
    let high = high_bytes fis sector n m in
    let count = count_bytes fis sector n m in
    (
      omega (arith, low.0, low.1, low.2, high.0, high.1, high.2),
      λ h. omega (arith, h, low.0, low.1, low.2, high.0, high.1, high.2),
      omega (arith, count.0, count.1),
    )
