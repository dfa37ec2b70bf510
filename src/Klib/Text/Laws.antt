-- ===== src/Klib/Text/Laws.antt =====
-- What the string routines answer.
use husky_os.Base.{
  ℕ, zero, suc, ◌+◌, ◌≤◌, ◌<◌, ◌≡◌, ◌≢◌, ◌↔◌, true, false, [], ◌∷◌, arith, refl, length, get_elem?,
  Option, some, none, Bool-cases, inl, inr,
}
use husky_os.Klib.Text.{
  Text, strlen, strlen_from, strcmp, Found, absent, outside, byte_is, rfind, rfind_from,
}

strlen_from_lem : (s : Text) (n : ℕ) → strlen_from s n ≡ n + length s
unfolding strlen_from
strlen_from_lem [] n = omega arith
strlen_from_lem (c ∷ cs) n = omega (arith, strlen_from_lem cs (n + 1))

pub strlen-length : (s : Text) → strlen s ≡ length s
unfolding strlen
strlen-length s = omega (arith, strlen_from_lem s 0)

-- `strcmp` answers 0 exactly on equal strings.
pub strcmp_zero : (p q : Text) → (strcmp p q ≡ 0) ↔ (p ≡ q)
unfolding strcmp
strcmp_zero [] [] = ground arith
strcmp_zero [] (b ∷ q) = ground arith
strcmp_zero (a ∷ p) [] = ground arith
strcmp_zero (a ∷ p) (b ∷ q) = ground (arith, strcmp_zero p q)

-- `rfind` answers the last position of the byte, or that there is none; on the empty string it
-- reads outside.
pub data LastOf (s : Text) (a : ℕ) : Found → Type 0 where
  last :
      (i : ℕ)
      → get_elem? s i ≡ some a
      → ((j : ℕ) → i < j → get_elem? s j ≢ some a)
      → LastOf s a (Found.at i)
  nowhere : s ≢ [] → ((j : ℕ) → get_elem? s j ≢ some a) → LastOf s a absent
  wrapped : s ≡ [] → LastOf s a outside

byte_is-eq : (o : Option ℕ) (a : ℕ) → byte_is o a ≡ true → o ≡ some a
byte_is-eq none a e = ground arith
byte_is-eq (some c) a e = ground arith

byte_is-ne : (o : Option ℕ) (a : ℕ) → byte_is o a ≡ false → o ≢ some a
byte_is-ne none a e h = ground arith
byte_is-ne (some c) a e h = ground arith

get_beyond : (s : Text) (j a : ℕ) → length s ≤ j → get_elem? s j ≢ some a
get_beyond [] j a h e = ground arith
get_beyond (c ∷ s) zero a h e = ground arith
get_beyond (c ∷ s) (suc j) a h e = get_beyond s j a (omega arith) e

from_first :
    (s : Text) (a : ℕ)
    → get_elem? s 0 ≢ some a
    → ((j : ℕ) → 0 < j → get_elem? s j ≢ some a)
    → (j : ℕ) → get_elem? s j ≢ some a
from_first s a h0 h zero = h0
from_first s a h0 h (suc j) = h (suc j) (omega arith)

rfind_from-LastOf :
    (s : Text) (a i : ℕ)
    → s ≢ []
    → ((j : ℕ) → i < j → get_elem? s j ≢ some a)
    → LastOf s a (rfind_from s a i)
unfolding rfind_from
rfind_from-LastOf s a zero ne h = elim (Bool-cases (byte_is (get_elem? s 0) a)) [
  | inl e ↦ rw e (last 0 (byte_is-eq _ a e) h)
  | inr e ↦ rw e (nowhere ne (from_first s a (byte_is-ne _ a e) h))
]
rfind_from-LastOf s a (suc i) ne h = elim (Bool-cases (byte_is (get_elem? s (suc i)) a)) [
  | inl e ↦ rw e (last (suc i) (byte_is-eq _ a e) h)
  | inr e ↦ rw e (rfind_from-LastOf s a i ne (λ j p q. ground (arith, byte_is-ne _ a e, h j)))
]

pub rfind-LastOf : (s : Text) (a : ℕ) → LastOf s a (rfind s a)
unfolding rfind
rfind-LastOf [] a = wrapped refl
rfind-LastOf (c ∷ s) a =
    rfind_from-LastOf (c ∷ s) a _ (λ e. ground arith)
      (λ j p. get_beyond (c ∷ s) j a (omega (arith, strlen-length (c ∷ s))))
