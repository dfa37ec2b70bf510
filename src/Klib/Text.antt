-- ===== src/Klib/Text.antt =====
-- Kernel/src/klib/string.cpp: the routines on strings.
-- A string is the list of its bytes before the NUL; a pointer into it is what is left from there on.
pub mod Laws
pub mod Tokens
mod Examples
use husky_os.Base.{
  ℕ, zero, suc, ◌+◌, ◌-◌, Bool, true, false, Option, some, none, List, [], ◌∷◌, ◌==◌, if◌then◌else◌,
  length, get_elem?,
}
use husky_os.Klib.Block.{minus_one}

abbrev pub Text : Type 0
Text = List ℕ

-- `strlen`, with the bytes counted so far.
unfoldable pub strlen_from : Text → ℕ → ℕ
strlen_from [] len = len
strlen_from (c ∷ cs) len = strlen_from cs (len + 1)

unfoldable pub strlen : Text → ℕ
unfolding strlen_from
strlen str = strlen_from str 0

-- `strcmp`: 0 or -1. The NUL that ends a string differs from every byte before it.
unfoldable pub strcmp : Text → Text → ℕ
strcmp [] [] = 0
strcmp [] (q ∷ qs) = minus_one
strcmp (p ∷ ps) [] = minus_one
strcmp (p ∷ ps) (q ∷ qs) = let rest = strcmp ps qs in if p == q then rest else minus_one

-- The inner loops of `strspn` and `strpbrk`: whether `c` stands in `accept`.
unfoldable pub accepts : Text → ℕ → Bool
accepts [] c = false
accepts (a ∷ as') c = let rest = accepts as' c in if c == a then true else rest

unfoldable pub strspn_from : Text → Text → ℕ → ℕ
strspn_from [] accept size = size
strspn_from (c ∷ cs) accept size =
    let rest = strspn_from cs accept (size + 1) in if accepts accept c then rest else size

unfoldable pub strspn : Text → Text → ℕ
unfolding strspn_from
strspn str accept = strspn_from str accept 0

-- `strpbrk`: the string from the first accepted byte on.
unfoldable pub strpbrk : Text → Text → Option Text
strpbrk [] accept = none
strpbrk (c ∷ cs) accept =
    let rest = strpbrk cs accept in if accepts accept c then some (c ∷ cs) else rest

-- `lfind`: the string from the first `accept` on, the NUL included; `none` when it runs past that.
unfoldable pub lfind : Text → ℕ → Option Text
lfind [] accept = if accept == 0 then some [] else none
lfind (c ∷ cs) accept = let rest = lfind cs accept in if c == accept then some (c ∷ cs) else rest

-- What `rfind` does: a position, `UINT32_MAX`, or a read at the wrapped index of an empty string.
pub data Found : Type 0 where
  at : ℕ → Found
  absent : Found
  outside : Found

abbrev pub byte_is : Option ℕ → ℕ → Bool
byte_is none a = false
byte_is (some c) a = c == a

unfoldable pub rfind_from : Text → ℕ → (i : ℕ) → Found
rfind_from str accept zero = if byte_is (get_elem? str 0) accept then Found.at 0 else absent
rfind_from str accept (suc i) =
    let rest = rfind_from str accept i in
    if byte_is (get_elem? str (suc i)) accept then Found.at (suc i) else rest

unfoldable pub rfind : Text → ℕ → Found
unfolding rfind_from
rfind [] accept = outside
rfind (c ∷ cs) accept = rfind_from (c ∷ cs) accept (strlen (c ∷ cs) - 1)

-- `str += n`, for `n` up to the length.
unfoldable pub advance : ℕ → Text → Text
advance zero str = str
advance (suc n) [] = []
advance (suc n) (c ∷ cs) = advance n cs

-- The bytes up to where the NUL is written, `left` bytes before the end.
unfoldable pub cut : ℕ → Text → Text
cut zero str = []
cut (suc n) [] = []
cut (suc n) (c ∷ cs) = c ∷ cut n cs

-- The end of `strtok_r`, for the token and what `strpbrk` found; the new `*saveptr` stands second.
unfoldable pub end_token : Text → Option Text → Option Text × Text
end_token token none = (some token, [])
end_token token (some []) = (some token, [])
end_token token (some (c ∷ rest)) = (some (cut (length token - length (c ∷ rest)) token), rest)

unfoldable pub take_token : Text → Text → Option Text × Text
take_token [] delim = (none, [])
take_token (c ∷ cs) delim = end_token (c ∷ cs) (strpbrk (c ∷ cs) delim)

-- `strtok_r`: `none` for `nullptr`.
unfoldable pub strtok_r : Option Text → (delim saved : Text) → Option Text × Text
unfolding take_token end_token
strtok_r none delim saved = take_token (advance (strspn saved delim) saved) delim
strtok_r (some str) delim saved = take_token (advance (strspn str delim) str) delim
