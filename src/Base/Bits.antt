-- ===== src/Base/Bits.antt =====
-- `&` and `|` at variables: one equation for the lowest digit, and a split at any bit position,
-- which turns masks and fields into arithmetic.
use Prim.Native.Nat.{ℕ, zero, suc, ◌+◌, ◌-◌, ◌*◌, ◌/◌, ◌%◌, ◌^◌, ◌≤◌, ◌<◌, min, max}
use Prim.Native.Nat.{digits, bitwise, bit_and, bit_or, bit_and-bitwise, bit_or-bitwise}
use mathlib.Core.Path.{◌≡◌, refl, ap}
use native.Mathlib.Nat.{le_refl, pow-suc, one-le-pow}
use native.Mathlib.Omega.{arith}
use mathlib.Core.Bool.{Bool, true, false, not}
use husky_os.Base.Tests.{if◌then◌else◌}

-- The library defines the operations by a recursion on binary digits that is given fuel: any
-- fuel from the first operand on gives the same number.
module _ (rest : ℕ → ℕ) (digit : ℕ → ℕ → ℕ) where
  spare_fuel :
      (bound b n a : ℕ) → n ≤ bound → a ≤ n → digits rest digit n a b ≡ bitwise rest digit a b
  spare_fuel bound b (suc n) zero fits enough = refl
  spare_fuel bound b zero zero fits enough = refl
  spare_fuel bound b zero (suc a) fits enough = elim enough [ ]
  spare_fuel zero b (suc n) (suc a) fits enough = elim fits [ ]
  spare_fuel (suc bound) b (suc n) (suc a) fits enough = omega (
    arith,
    spare_fuel bound (b / 2) n (suc a / 2) (omega arith) (omega arith),
    spare_fuel bound (b / 2) a (suc a / 2) (omega arith) (omega arith),
  )

  -- The lowest digit of the result, where the rest of an exhausted operand has it too.
  low_digit :
      ((b : ℕ) → rest b ≡ rest (b / 2) * 2 + digit 0 (b % 2))
      → (b a : ℕ)
      → bitwise rest digit a b ≡ bitwise rest digit (a / 2) (b / 2) * 2 + digit (a % 2) (b % 2)
  low_digit at_end b zero = at_end b
  low_digit at_end b (suc a) =
      omega (arith, spare_fuel a (b / 2) a (suc a / 2) (omega arith) (omega arith))

pub bit_and_digit : (a b : ℕ) → bit_and a b ≡ bit_and (a / 2) (b / 2) * 2 + min (a % 2) (b % 2)
bit_and_digit a b = simp bit_and-bitwise (low_digit (λ _. 0) min (λ y. omega arith) b a)

pub bit_or_digit : (a b : ℕ) → bit_or a b ≡ bit_or (a / 2) (b / 2) * 2 + max (a % 2) (b % 2)
bit_or_digit a b = simp bit_or-bitwise (low_digit (λ y. y) max (λ y. omega arith) b a)

double_shift : (k q : ℕ) → q * 2 ^ suc k ≡ q * 2 ^ k + q * 2 ^ k
double_shift k q = omega (arith, ap (λ (power : ℕ). q * power) (pow-suc 2 k))

-- The two operations work on the digits above and below bit `k` separately.
pub bit_and_split :
    (k q r s t : ℕ)
    → r < 2 ^ k
    → t < 2 ^ k
    → bit_and (q * 2 ^ k + r) (s * 2 ^ k + t) ≡ bit_and q s * 2 ^ k + bit_and r t
bit_and_split zero q r s t hr ht = ground arith
bit_and_split (suc k) q r s t hr ht = ground (
  arith,
  bit_and_digit (q * 2 ^ suc k + r) (s * 2 ^ suc k + t),
  bit_and_digit r t,
  double_shift k q,
  double_shift k s,
  double_shift k (bit_and q s),
  pow-suc 2 k,
  bit_and_split k q (r / 2) s (t / 2) (omega (arith, pow-suc 2 k)) (omega (arith, pow-suc 2 k)),
)

pub bit_or_split :
    (k q r s t : ℕ)
    → r < 2 ^ k
    → t < 2 ^ k
    → bit_or (q * 2 ^ k + r) (s * 2 ^ k + t) ≡ bit_or q s * 2 ^ k + bit_or r t
bit_or_split zero q r s t hr ht = ground arith
bit_or_split (suc k) q r s t hr ht = ground (
  arith,
  bit_or_digit (q * 2 ^ suc k + r) (s * 2 ^ suc k + t),
  bit_or_digit r t,
  double_shift k q,
  double_shift k s,
  double_shift k (bit_or q s),
  pow-suc 2 k,
  bit_or_split k q (r / 2) s (t / 2) (omega (arith, pow-suc 2 k)) (omega (arith, pow-suc 2 k)),
)

-- `0` as the second operand, for operands up to a bound.
or_nothing : (bound a : ℕ) → a ≤ bound → bit_or a 0 ≡ a
or_nothing bound zero fits = refl
or_nothing zero (suc a) fits = elim fits [ ]
or_nothing (suc bound) (suc a) fits =
    omega (arith, bit_or_digit (suc a) 0, or_nothing bound (suc a / 2) (omega arith))

and_nothing : (bound a : ℕ) → a ≤ bound → bit_and a 0 ≡ 0
and_nothing bound zero fits = refl
and_nothing zero (suc a) fits = elim fits [ ]
and_nothing (suc bound) (suc a) fits =
    omega (arith, bit_and_digit (suc a) 0, and_nothing bound (suc a / 2) (omega arith))

pub bit_or-zero : (a : ℕ) → bit_or a 0 ≡ a
bit_or-zero a = or_nothing a a (le_refl a)

pub bit_and-zero : (a : ℕ) → bit_and a 0 ≡ 0
bit_and-zero a = and_nothing a a (le_refl a)

pub zero-bit_or : (a : ℕ) → bit_or 0 a ≡ a
zero-bit_or a = bit_or-bitwise 0 a

-- A mask of `k` low bits is the remainder by `2 ^ k`.
pub bit_and_low : (k r : ℕ) → r < 2 ^ k → bit_and r (2 ^ k - 1) ≡ r
bit_and_low zero r h = ground arith
bit_and_low (suc k) r h = ground (
  arith,
  bit_and_digit r (2 ^ suc k - 1),
  pow-suc 2 k,
  one-le-pow k 2,
  bit_and_low k (r / 2) (omega (arith, pow-suc 2 k)),
)

pub bit_and_mask : (k a : ℕ) → bit_and a (2 ^ k - 1) ≡ a % 2 ^ k
bit_and_mask k a = ground (
  arith,
  one-le-pow k 2,
  bit_and_split k (a / 2 ^ k) (a % 2 ^ k) 0 (2 ^ k - 1),
  bit_and-zero (a / 2 ^ k),
  bit_and_low k (a % 2 ^ k),
)

-- A test that passes at every number below a bound is run once at each of them.
unfoldable pub passes_below : (ℕ → Bool) → ℕ → Bool
passes_below test zero = true
passes_below test (suc n) = if test n then passes_below test n else false

pub passes_below_at :
    (test : ℕ → Bool) (n x : ℕ) → passes_below test n ≡ true → x < n → test x ≡ true
unfolding passes_below
passes_below_at test zero x passed small = elim small [ ]
passes_below_at test (suc n) x passed small = ground (arith, passes_below_at test n x)

-- Whether two answers agree.
abbrev pub same : Bool → Bool → Bool
same true b = b
same false b = not b

pub same-eq : (a b : Bool) → same a b ≡ true → a ≡ b
same-eq true b e = ground arith
same-eq false true e = ground arith
same-eq false false e = ground arith
