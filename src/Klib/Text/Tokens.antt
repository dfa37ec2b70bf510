-- ===== src/Klib/Text/Tokens.antt =====
-- `strtok_r` with one delimiter: what a loop over it reads from a string.
use husky_os.Base.{
  ℕ, zero, suc, ◌+◌, ◌-◌, ◌≤◌, ◌<◌, ◌≡◌, ◌≢◌, false, List, [], ◌∷◌, ◌++◌, arith, refl, ◌==◌, inl,
  inr, if◌then◌else◌, length, Option, some, none, All, Bool-cases, ap, ◌∙◌, ==_refl, length-append,
}
use husky_os.Klib.Text.{
  Text, accepts, strspn, strspn_from, strpbrk, advance, cut, end_token, take_token, strtok_r,
}

-- The tokens that `while (pch) pch = strtok_r(nullptr, delim, &save)` sees.
unfoldable pub tokens : (fuel : ℕ) → Text → Option Text × Text → List Text
tokens zero delim r = []
tokens (suc fuel) delim (none, save) = []
tokens (suc fuel) delim (some t, save) = t ∷ tokens fuel delim (strtok_r none delim save)

unfoldable pub concat : List Text → Text
concat [] = []
concat (s ∷ ss) = s ++ concat ss

module _ (d : ℕ) where
  skip : Text → Text
  skip [] = []
  skip (c ∷ cs) = if c == d then skip cs else c ∷ cs

  upto : Text → Text
  upto [] = []
  upto (c ∷ cs) = if c == d then [] else c ∷ upto cs

  after : Text → Text
  after [] = []
  after (c ∷ cs) = if c == d then cs else after cs

  next : Text → Option Text × Text
  next [] = (none, [])
  next (c ∷ cs) = (some (upto (c ∷ cs)), after (c ∷ cs))

  strspn_from_lem : (s : Text) (n : ℕ) → strspn_from s (d ∷ []) n ≡ n + strspn_from s (d ∷ []) 0
  unfolding strspn_from accepts
  strspn_from_lem [] n = omega arith
  strspn_from_lem (c ∷ cs) n = ground (arith, strspn_from_lem cs (n + 1), strspn_from_lem cs 1)

  advance-strspn : (s : Text) → advance (strspn s (d ∷ [])) s ≡ skip s
  unfolding strspn strspn_from accepts advance skip
  advance-strspn [] = refl
  advance-strspn (c ∷ cs) = elim (Bool-cases (c == d)) [
    | inl e ↦ rw (e, strspn_from_lem cs 1) (ground (arith, advance-strspn cs))
    | inr e ↦ rw e refl
  ]

  strpbrk-none : (t : Text) → strpbrk t (d ∷ []) ≡ none → (upto t ≡ t) × (after t ≡ [])
  unfolding strpbrk accepts upto after
  strpbrk-none [] e = (refl, refl)
  strpbrk-none (c ∷ cs) e = ground (arith, strpbrk-none cs)

  strpbrk-length : (t r : Text) → strpbrk t (d ∷ []) ≡ some r → length r ≤ length t
  unfolding strpbrk accepts
  strpbrk-length [] r e = ground arith
  strpbrk-length (c ∷ cs) r e = ground (arith, strpbrk-length cs r)

  strpbrk-after : (t r : Text) (c : ℕ) → strpbrk t (d ∷ []) ≡ some (c ∷ r) → after t ≡ r
  unfolding strpbrk accepts after
  strpbrk-after [] r c e = ground arith
  strpbrk-after (x ∷ cs) r c e = ground (arith, strpbrk-after cs r c)

  strpbrk-nonempty : (t : Text) → strpbrk t (d ∷ []) ≢ some []
  unfolding strpbrk accepts
  strpbrk-nonempty [] e = ground arith
  strpbrk-nonempty (x ∷ cs) e = ground (arith, strpbrk-nonempty cs)

  cut-upto : (t r : Text) → strpbrk t (d ∷ []) ≡ some r → cut (length t - length r) t ≡ upto t
  unfolding strpbrk accepts cut upto
  cut-upto [] r e = ground arith
  cut-upto (c ∷ cs) r e = elim (Bool-cases (c == d)) [
    | inl q ↦ ground arith
    | inr q ↦
        let p : strpbrk cs (d ∷ []) ≡ some r = ground arith in
        let l : suc (length cs) - length r ≡ suc (length cs - length r) =
          omega (arith, strpbrk-length cs r p) in
        rw (l, q) (ground (arith, cut-upto cs r p))
  ]

  end_token_lem :
      (t : Text) (o : Option Text)
      → strpbrk t (d ∷ []) ≡ o
      → end_token t o ≡ (some (upto t), after t)
  unfolding end_token
  end_token_lem t none e = ground (arith, strpbrk-none t e)
  end_token_lem t (some []) e = absurd (strpbrk-nonempty t e)
  end_token_lem t (some (c ∷ r)) e = ground (arith, cut-upto t (c ∷ r) e, strpbrk-after t r c e)

  take_token_lem : (t : Text) → take_token t (d ∷ []) ≡ next t
  unfolding take_token next
  take_token_lem [] = refl
  take_token_lem (c ∷ cs) = end_token_lem (c ∷ cs) (strpbrk (c ∷ cs) (d ∷ [])) refl

  strtok_r-some : (s save : Text) → strtok_r (some s) (d ∷ []) save ≡ next (skip s)
  unfolding strtok_r
  strtok_r-some s save = rw (advance-strspn s) (take_token_lem (skip s))

  strtok_r-none : (save : Text) → strtok_r none (d ∷ []) save ≡ next (skip save)
  unfolding strtok_r
  strtok_r-none save = rw (advance-strspn save) (take_token_lem (skip save))

  -- A name: not empty and without the delimiter.
  abbrev pub Clean : Text → Type 0
  Clean s = All (λ c. (c == d) ≡ false) s

  abbrev pub IsName : Text → Type 0
  IsName s = (s ≢ []) × Clean s

  upto-Clean : (t : Text) → Clean (upto t)
  unfolding upto
  upto-Clean [] = tt
  upto-Clean (c ∷ cs) = elim (Bool-cases (c == d)) [
    | inl e ↦ rw e tt
    | inr e ↦ rw e (e, upto-Clean cs)
  ]

  length-after : (t : Text) → length (after t) ≤ length t
  unfolding after
  length-after [] = omega arith
  length-after (c ∷ cs) = ground (arith, length-after cs)

  length-skip : (t : Text) → length (skip t) ≤ length t
  unfolding skip
  length-skip [] = omega arith
  length-skip (c ∷ cs) = ground (arith, length-skip cs)

  -- The tokens of `s`, with one round for each byte and one more.
  abbrev pub tokens_of : Text → List Text
  tokens_of s = tokens (length s + 1) (d ∷ []) (strtok_r (some s) (d ∷ []) [])

  -- The string with every delimiter dropped, and the strings of a list one after the other.
  unfoldable pub erase : Text → Text
  erase [] = []
  erase (c ∷ cs) = if c == d then erase cs else c ∷ erase cs

  skip-head : (s : Text) (c : ℕ) (cs : Text) → skip s ≡ c ∷ cs → (c == d) ≡ false
  unfolding skip
  skip-head [] c cs e = ground arith
  skip-head (x ∷ s) c cs e = ground (arith, skip-head s c cs)

  tokens-IsName : (fuel : ℕ) (s : Text) → All IsName (tokens fuel (d ∷ []) (next (skip s)))
  unfolding tokens next
  tokens-IsName zero s = tt
  tokens-IsName (suc fuel) s = step (skip s) refl (λ r. tokens-IsName fuel r)
    where
      step :
          (t : Text)
          → skip s ≡ t
          → ((r : Text) → All IsName (tokens fuel (d ∷ []) (next (skip r))))
          → All IsName (tokens (suc fuel) (d ∷ []) (next t))
      step [] e ih = tt
      step (c ∷ cs) e ih =
          let h = skip-head s c cs e in
          (
            (λ q. unfold upto in ground arith, upto-Clean (c ∷ cs)),
            rw strtok_r-none (ih (after (c ∷ cs))),
          )

  erase-skip : (s : Text) → erase (skip s) ≡ erase s
  unfolding erase skip
  erase-skip [] = refl
  erase-skip (c ∷ cs) = ground (arith, erase-skip cs)

  erase-upto : (t : Text) → upto t ++ erase (after t) ≡ erase t
  unfolding erase upto after
  erase-upto [] = refl
  erase-upto (c ∷ cs) = elim (Bool-cases (c == d)) [
    | inl e ↦ rw e refl
    | inr e ↦ rw e (ap (λ (r : Text). c ∷ r) (erase-upto cs))
  ]

  length-skip-after : (c : ℕ) (cs : Text) → (c == d) ≡ false → length (after (c ∷ cs)) ≤ length cs
  unfolding after
  length-skip-after c cs e = ground (arith, length-after cs)

  concat-tokens :
      (fuel : ℕ) (s : Text)
      → length s < fuel
      → concat (tokens fuel (d ∷ []) (next (skip s))) ≡ erase s
  concat-tokens zero s h = absurd (omega arith)
  concat-tokens (suc fuel) s h = step (skip s) refl (λ r p. concat-tokens fuel r p) ∙ erase-skip s
    where
      step :
          (t : Text)
          → skip s ≡ t
          → ((r : Text) → length r < fuel → concat (tokens fuel (d ∷ []) (next (skip r))) ≡ erase r)
          → concat (tokens (suc fuel) (d ∷ []) (next t)) ≡ erase t
      step [] e ih = unfold concat tokens next erase in refl
      step (c ∷ cs) e ih =
          let l : length (after (c ∷ cs)) < fuel = omega (
            arith,
            length-skip-after c cs (skip-head s c cs e),
            length-skip s,
            ap (λ (t : Text). length t) e,
          ) in
          unfold concat tokens next in
          rw (strtok_r-none, ih (after (c ∷ cs)) l) (erase-upto (c ∷ cs))

  -- A path: each name behind a delimiter.
  unfoldable pub join : List Text → Text
  join [] = []
  join (n ∷ ns) = d ∷ (n ++ join ns)

  -- What is left of it behind its first delimiter.
  body : List Text → Text
  body [] = []
  body (n ∷ ns) = n ++ join ns

  skip-join : (ns : List Text) → skip (join ns) ≡ skip (body ns)
  unfolding skip join body
  skip-join [] = refl
  skip-join (n ∷ ns) = rw (==_refl d) refl

  upto-join : (n : Text) (ns : List Text) → Clean n → upto (n ++ join ns) ≡ n
  unfolding upto join
  upto-join [] [] h = refl
  upto-join [] (m ∷ ns) h = rw (==_refl d) refl
  upto-join (c ∷ n) ns h = rw h.0 (ap (λ (r : Text). c ∷ r) (upto-join n ns h.1))

  after-join : (n : Text) (ns : List Text) → Clean n → after (n ++ join ns) ≡ body ns
  unfolding after join body
  after-join [] [] h = refl
  after-join [] (m ∷ ns) h = rw (==_refl d) refl
  after-join (c ∷ n) ns h = rw h.0 (after-join n ns h.1)

  next-join :
      (n : Text) (ns : List Text) → IsName n → next (skip (n ++ join ns)) ≡ (some n, body ns)
  next-join [] ns h = absurd (h.0 refl)
  next-join (c ∷ n) ns h =
      unfold skip in
      rw h.1.0 (unfold next in rw (upto-join (c ∷ n) ns h.1, after-join (c ∷ n) ns h.1) refl)

  tokens-some :
      (fuel : ℕ) (t save : Text)
      → tokens (suc fuel) (d ∷ []) (some t, save)
        ≡ t ∷ tokens fuel (d ∷ []) (strtok_r none (d ∷ []) save)
  unfolding tokens
  tokens-some fuel t save = refl

  tokens-body :
      (fuel : ℕ) (ns : List Text)
      → length ns < fuel
      → All IsName ns
      → tokens fuel (d ∷ []) (next (skip (body ns))) ≡ ns
  unfolding body
  tokens-body zero ns p h = absurd (omega arith)
  tokens-body (suc fuel) [] p h = unfold tokens next skip body in refl
  tokens-body (suc fuel) (n ∷ ns) p h =
      rw (next-join n ns h.0, tokens-some, strtok_r-none)
        (ap (λ (r : List Text). n ∷ r) (tokens-body fuel ns (omega arith) h.1))

  length-join : (ns : List Text) → length ns ≤ length (join ns)
  unfolding join
  length-join [] = omega arith
  length-join (n ∷ ns) = omega (arith, length-join ns, length-append n (join ns))

-- Reading a string with `strtok_r` and one delimiter yields names: they are not empty and hold
-- no delimiter, and one after the other they are the string without its delimiters.
pub tokens_lem :
    (d : ℕ) (s : Text) → All (IsName d) (tokens_of d s) × (concat (tokens_of d s) ≡ erase d s)
tokens_lem d s =
    rw strtok_r-some
      (tokens-IsName d (length s + 1) s, concat-tokens d (length s + 1) s (omega arith))

-- Names that are joined with delimiters are read back as they are.
pub tokens-join : (d : ℕ) (ns : List Text) → All (IsName d) ns → tokens_of d (join d ns) ≡ ns
tokens-join d ns h =
    rw (strtok_r-some, skip-join)
      (tokens-body d (length (join d ns) + 1) ns (omega (arith, length-join d ns)) h)
