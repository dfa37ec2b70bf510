-- ===== src/Memory/Paging/Entry.antt =====
-- Entries as arithmetic: flags, addresses and the four indices.
use husky_os.Base.{
  ℕ, suc, ◌+◌, ◌-◌, ◌*◌, ◌/◌, ◌%◌, ◌^◌, ◌<◌, ◌≡◌, ap₂, ◌∙◌, Bool, true, false, bit_and, bit_or,
  arith, ◌==◌, if◌then◌else◌,
}
use husky_os.Base.Bits.{
  bit_and_split, bit_or_split, bit_and_low, bit_and_mask, bit_or-zero, zero-bit_or, bit_and-zero,
}
use native.Mathlib.Nat.{pow-suc, one-le-pow}
use husky_os.Memory.Paging.{
  PtFlag, position, set_flag, get_flag, get_address, set_address, PageMapIndexer, indexer, linked,
  present, read_write, user_super, write_through, cache_disabled, accessed, larger_pages, custom0,
  custom1, custom2, nx,
}

-- `GetAddress` reads bits 12 to 51.
pub get_address-eq : (v : ℕ) → v < 2 ^ 64 → get_address v ≡ v / 2 ^ 12 % 2 ^ 40
unfolding get_address
get_address-eq v h = ground (
  arith,
  bit_and_split 12 (v / 2 ^ 12) (v % 2 ^ 12) 0xffffffffff 0,
  bit_and-zero (v % 2 ^ 12),
  bit_and_mask 40 (v / 2 ^ 12),
)

keep_outside :
    (v : ℕ) → v < 2 ^ 64 → bit_and v 0xfff0000000000fff ≡ v / 2 ^ 52 * 2 ^ 52 + v % 2 ^ 12
keep_outside v h = ground (
  arith,
  bit_and_split 12 (v / 2 ^ 12) (v % 2 ^ 12) 0xfff0000000000 0xfff,
  bit_and_split 40 (v / 2 ^ 52) (v / 2 ^ 12 % 2 ^ 40) 0xfff 0,
  bit_and_low 12 (v / 2 ^ 52),
  bit_and_low 12 (v % 2 ^ 12),
  bit_and-zero (v / 2 ^ 12 % 2 ^ 40),
)

join_address :
    (hi mid lo : ℕ)
    → mid < 2 ^ 40
    → lo < 2 ^ 12
    → bit_or (hi * 2 ^ 52 + lo) (mid * 2 ^ 12) ≡ hi * 2 ^ 52 + mid * 2 ^ 12 + lo
join_address hi mid lo hm hl = ground (
  arith,
  bit_or_split 12 (hi * 2 ^ 40) lo mid 0,
  bit_or_split 40 hi 0 0 mid,
  bit_or-zero lo,
  bit_or-zero hi,
  zero-bit_or mid,
)

-- `SetAddress` writes bits 12 to 51 and no other.
pub set_address-eq :
    (a v : ℕ)
    → v < 2 ^ 64
    → set_address a v ≡ v / 2 ^ 52 * 2 ^ 52 + a % 2 ^ 40 * 2 ^ 12 + v % 2 ^ 12
unfolding set_address
set_address-eq a v h = ground (
  arith,
  bit_and_mask 40 a,
  keep_outside v h,
  join_address (v / 2 ^ 52) (a % 2 ^ 40) (v % 2 ^ 12),
)

-- `GetAddress` answers the low 40 bits of what `SetAddress` stored, and `SetAddress` leaves the
-- flags below bit 12 and the bits from 52 on alone.
pub get_address-set_address :
    (a v : ℕ)
    → v < 2 ^ 64
    → (get_address (set_address a v) ≡ a % 2 ^ 40)
      × (set_address a v % 2 ^ 12 ≡ v % 2 ^ 12)
      × (set_address a v / 2 ^ 52 ≡ v / 2 ^ 52)
get_address-set_address a v h =
    let e = set_address-eq a v h in
    (
      omega (arith, get_address-eq (set_address a v) (omega (arith, e)), e),
      omega (arith, e),
      omega (arith, e),
    )

-- A bit cleared and set in a word of `f + 1 + g` bits, which is given by its three fields.
clear_bit :
    (f g q b r : ℕ)
    → q < 2 ^ g
    → b * 2 ^ f + r < 2 ^ suc f
    → r < 2 ^ f
    → bit_and (q * 2 ^ suc f + (b * 2 ^ f + r)) ((2 ^ g - 1) * 2 ^ suc f + (2 ^ f - 1))
      ≡ q * 2 ^ suc f + r
clear_bit f g q b r hq hb hr = ground (
  arith,
  bit_and_split (suc f) q (b * 2 ^ f + r) (2 ^ g - 1) (2 ^ f - 1),
  bit_and_low g q,
  bit_and_split f b r 0 (2 ^ f - 1),
  bit_and-zero b,
  bit_and_low f r,
  pow-suc 2 f,
  one-le-pow f 2,
)

add_bit : (f q r : ℕ) → r < 2 ^ f → bit_or (q * 2 ^ suc f + r) (2 ^ f) ≡ q * 2 ^ suc f + (2 ^ f + r)
add_bit f q r h = ground (
  arith,
  bit_or_split (suc f) q r 0 (2 ^ f),
  bit_or-zero q,
  bit_or_split f 0 r 1 0,
  zero-bit_or 1,
  bit_or-zero r,
  pow-suc 2 f,
  one-le-pow f 2,
)

-- `SetFlag` replaces the one bit of its flag.
abbrev pub with_bit : ℕ → Bool → ℕ → ℕ
with_bit f enabled v = v / 2 ^ suc f * 2 ^ suc f + ((if enabled then 2 ^ f else 0) + v % 2 ^ f)

-- `v` is a word of `f + 1 + g` = 64 bits.
record IsSplit (f g v : ℕ) : Type 0 where
  mask : 2 ^ 64 - 1 - 2 ^ f ≡ (2 ^ g - 1) * 2 ^ suc f + (2 ^ f - 1)
  high : v / 2 ^ suc f < 2 ^ g
  fields : v ≡ v / 2 ^ suc f * 2 ^ suc f + (v / 2 ^ f % 2 * 2 ^ f + v % 2 ^ f)
  bit : v / 2 ^ f % 2 * 2 ^ f + v % 2 ^ f < 2 ^ suc f
  low : v % 2 ^ f < 2 ^ f

put_bit :
    (f g v : ℕ) (enabled : Bool)
    → IsSplit f g v
    → (let cleared = bit_and v (2 ^ 64 - 1 - 2 ^ f) in
        if enabled then bit_or cleared (2 ^ f) else cleared)
      ≡ with_bit f enabled v
put_bit f g v enabled i =
    let c : bit_and v (2 ^ 64 - 1 - 2 ^ f) ≡ v / 2 ^ suc f * 2 ^ suc f + v % 2 ^ f =
      ap₂ bit_and i.fields i.mask
      ∙ clear_bit f g (v / 2 ^ suc f) (v / 2 ^ f % 2) (v % 2 ^ f) i.high i.bit i.low in
    rw c
      (elim enabled
        as (λ e.
          (if e
            then bit_or (v / 2 ^ suc f * 2 ^ suc f + v % 2 ^ f) (2 ^ f)
            else (v / 2 ^ suc f * 2 ^ suc f + v % 2 ^ f))
          ≡ with_bit f e v) [
            | true ↦ add_bit f (v / 2 ^ suc f) (v % 2 ^ f) i.low
            | false ↦ omega arith
          ])

module _ (v : ℕ) (h : v < 2 ^ 64) where
  pub set_flag-eq :
      (flag : PtFlag) (enabled : Bool)
      → set_flag flag enabled v ≡ with_bit (position flag) enabled v
  unfolding set_flag position
  set_flag-eq present enabled = put_bit 0 63 v enabled (omega arith)
  set_flag-eq read_write enabled = put_bit 1 62 v enabled (omega arith)
  set_flag-eq user_super enabled = put_bit 2 61 v enabled (omega arith)
  set_flag-eq write_through enabled = put_bit 3 60 v enabled (omega arith)
  set_flag-eq cache_disabled enabled = put_bit 4 59 v enabled (omega arith)
  set_flag-eq accessed enabled = put_bit 5 58 v enabled (omega arith)
  set_flag-eq larger_pages enabled = put_bit 7 56 v enabled (omega arith)
  set_flag-eq custom0 enabled = put_bit 9 54 v enabled (omega arith)
  set_flag-eq custom1 enabled = put_bit 10 53 v enabled (omega arith)
  set_flag-eq custom2 enabled = put_bit 11 52 v enabled (omega arith)
  set_flag-eq nx enabled = put_bit 63 0 v enabled (omega arith)

  pub set_flag-lt : (flag : PtFlag) (enabled : Bool) → set_flag flag enabled v < 2 ^ 64
  unfolding position
  set_flag-lt present = λ enabled. ground (arith, set_flag-eq present enabled)
  set_flag-lt read_write = λ enabled. ground (arith, set_flag-eq read_write enabled)
  set_flag-lt user_super = λ enabled. ground (arith, set_flag-eq user_super enabled)
  set_flag-lt write_through = λ enabled. ground (arith, set_flag-eq write_through enabled)
  set_flag-lt cache_disabled = λ enabled. ground (arith, set_flag-eq cache_disabled enabled)
  set_flag-lt accessed = λ enabled. ground (arith, set_flag-eq accessed enabled)
  set_flag-lt larger_pages = λ enabled. ground (arith, set_flag-eq larger_pages enabled)
  set_flag-lt custom0 = λ enabled. ground (arith, set_flag-eq custom0 enabled)
  set_flag-lt custom1 = λ enabled. ground (arith, set_flag-eq custom1 enabled)
  set_flag-lt custom2 = λ enabled. ground (arith, set_flag-eq custom2 enabled)
  set_flag-lt nx = λ enabled. ground (arith, set_flag-eq nx enabled)

pub get_flag-eq : (flag : PtFlag) (v : ℕ) → get_flag flag v ≡ (v % 2 == 1)
unfolding get_flag position
get_flag-eq present v = ground (arith, bit_and_mask 1 v)
get_flag-eq read_write v = ground (arith, bit_and_mask 1 v)
get_flag-eq user_super v = ground (arith, bit_and_mask 1 v)
get_flag-eq write_through v = ground (arith, bit_and_mask 1 v)
get_flag-eq cache_disabled v = ground (arith, bit_and_mask 1 v)
get_flag-eq accessed v = ground (arith, bit_and_mask 1 v)
get_flag-eq larger_pages v = ground (arith, bit_and_mask 1 v)
get_flag-eq custom0 v = ground (arith, bit_and_mask 1 v)
get_flag-eq custom1 v = ground (arith, bit_and_mask 1 v)
get_flag-eq custom2 v = ground (arith, bit_and_mask 1 v)
get_flag-eq nx v = ground (arith, bit_and_mask 1 v)

-- `GetFlag` sees what `SetFlag` did to `Present`; of every other flag it knows nothing: setting
-- or clearing that flag leaves its answer what `Present` is.
pub get_flag-set_flag :
    (flag : PtFlag) (enabled : Bool) (v : ℕ)
    → v < 2 ^ 64
    → get_flag flag (set_flag flag enabled v)
      ≡ (if position flag == 0 then enabled else get_flag present v)
unfolding position
get_flag-set_flag present enabled v h =
    ground
      (arith, get_flag-eq present (set_flag present enabled v), set_flag-eq v h present enabled)
get_flag-set_flag read_write enabled v h = ground (
  arith,
  get_flag-eq read_write (set_flag read_write enabled v),
  get_flag-eq present v,
  set_flag-eq v h read_write enabled,
)
get_flag-set_flag user_super enabled v h = ground (
  arith,
  get_flag-eq user_super (set_flag user_super enabled v),
  get_flag-eq present v,
  set_flag-eq v h user_super enabled,
)
get_flag-set_flag write_through enabled v h = ground (
  arith,
  get_flag-eq write_through (set_flag write_through enabled v),
  get_flag-eq present v,
  set_flag-eq v h write_through enabled,
)
get_flag-set_flag cache_disabled enabled v h = ground (
  arith,
  get_flag-eq cache_disabled (set_flag cache_disabled enabled v),
  get_flag-eq present v,
  set_flag-eq v h cache_disabled enabled,
)
get_flag-set_flag accessed enabled v h = ground (
  arith,
  get_flag-eq accessed (set_flag accessed enabled v),
  get_flag-eq present v,
  set_flag-eq v h accessed enabled,
)
get_flag-set_flag larger_pages enabled v h = ground (
  arith,
  get_flag-eq larger_pages (set_flag larger_pages enabled v),
  get_flag-eq present v,
  set_flag-eq v h larger_pages enabled,
)
get_flag-set_flag custom0 enabled v h = ground (
  arith,
  get_flag-eq custom0 (set_flag custom0 enabled v),
  get_flag-eq present v,
  set_flag-eq v h custom0 enabled,
)
get_flag-set_flag custom1 enabled v h = ground (
  arith,
  get_flag-eq custom1 (set_flag custom1 enabled v),
  get_flag-eq present v,
  set_flag-eq v h custom1 enabled,
)
get_flag-set_flag custom2 enabled v h = ground (
  arith,
  get_flag-eq custom2 (set_flag custom2 enabled v),
  get_flag-eq present v,
  set_flag-eq v h custom2 enabled,
)
get_flag-set_flag nx enabled v h = ground (
  arith,
  get_flag-eq nx (set_flag nx enabled v),
  get_flag-eq present v,
  set_flag-eq v h nx enabled,
)

-- What every level of the walk stores: the address, `Present` and `ReadWrite`.
pub linked-eq :
    (a v : ℕ)
    → v < 2 ^ 64
    → linked a v ≡ v / 2 ^ 52 * 2 ^ 52 + a / 2 ^ 12 % 2 ^ 40 * 2 ^ 12 + v % 2 ^ 12 / 4 * 4 + 3
unfolding linked position
linked-eq a v h =
    let w = set_address (a / 2 ^ 12) v in
    let e = set_address-eq (a / 2 ^ 12) v h in
    let x = set_flag present true w in
    let hw : w < 2 ^ 64 = omega (arith, e) in
    let hx : x < 2 ^ 64 = set_flag-lt w hw present true in
    let ex = set_flag-eq w hw present true in
    let ey = set_flag-eq x hx read_write true in ey ∙ omega (arith, e, ex)

-- The four indices are the digits of the page number to the base 512, so they and the offset in
-- the page give the low 48 bits of the address back.
pub indexer-eq :
    (a : ℕ)
    → (indexer a).pdp_i * 2 ^ 39
        + (indexer a).pd_i * 2 ^ 30
        + (indexer a).pt_i * 2 ^ 21
        + (indexer a).p_i * 2 ^ 12
        + a % 2 ^ 12
      ≡ a % 2 ^ 48
unfolding indexer
indexer-eq a = ground (
  arith,
  bit_and_mask 9 (a / 2 ^ 12),
  bit_and_mask 9 (a / 2 ^ 12 / 2 ^ 9),
  bit_and_mask 9 (a / 2 ^ 12 / 2 ^ 9 / 2 ^ 9),
  bit_and_mask 9 (a / 2 ^ 12 / 2 ^ 9 / 2 ^ 9 / 2 ^ 9),
)

pub record IsIndexed (a : ℕ) (i : PageMapIndexer) : Type 0 where
  pub pdp : i.pdp_i ≡ a / 2 ^ 39 % 512
  pub pd : i.pd_i ≡ a / 2 ^ 30 % 512
  pub pt : i.pt_i ≡ a / 2 ^ 21 % 512
  pub p : i.p_i ≡ a / 2 ^ 12 % 512

pub indexer-IsIndexed : (a : ℕ) → IsIndexed a (indexer a)
unfolding indexer
indexer-IsIndexed a = ground (
  arith,
  bit_and_mask 9 (a / 2 ^ 12),
  bit_and_mask 9 (a / 2 ^ 12 / 2 ^ 9),
  bit_and_mask 9 (a / 2 ^ 12 / 2 ^ 9 / 2 ^ 9),
  bit_and_mask 9 (a / 2 ^ 12 / 2 ^ 9 / 2 ^ 9 / 2 ^ 9),
)
