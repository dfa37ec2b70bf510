-- ===== src/Fs/Path/Laws.antt =====
-- `canonicalize_path` against a fold over the names of the two paths.
use husky_os.Base.{
  not, ◌&&◌, none, some, length, ℕ, zero, suc, ◌+◌, ◌≡◌, ◌≢◌, Bool, true, false, not, ◌&&◌, Option,
  some, none, List, [], ◌∷◌, ◌++◌, ltb, ◌==◌, if◌then◌else◌, length, All, All-append, refl, arith,
  ap, ◌∙◌, inl, inr, Bool-cases, length-append,
}
use husky_os.Klib.Text.{Text, strlen, strcmp, strtok_r, strspn, accepts, advance}
use husky_os.Klib.Text.Laws.{strlen-length, strcmp_zero}
use husky_os.Klib.Text.Tokens.{tokens, tokens_of, IsName, join, tokens_lem, tokens-join}
use husky_os.Fs.Path.{
  path_separator, path_dot, path_up, insert, pop, push_all, push_element, walk_all, first_is,
  path_size, join_all, render, canonical_elements, canonicalize_path,
}

unfoldable pub foldl {ℓ κ} : {A : Type ℓ} {B : Type κ} → (B → A → B) → B → List A → B
foldl f b [] = b
foldl f b (x ∷ xs) = foldl f (f b x) xs

walk_all-foldl :
    (fuel : ℕ) (r : Option Text × Text) (out : List Text)
    → walk_all fuel r out ≡ foldl push_element out (tokens fuel (path_separator ∷ []) r)
unfolding walk_all foldl tokens
walk_all-foldl zero r out = refl
walk_all-foldl (suc fuel) (none, save) out = refl
walk_all-foldl (suc fuel) (some pch, save) out = walk_all-foldl fuel _ (push_element out pch)

append_assoc : (xs ys zs : List Text) → (xs ++ ys) ++ zs ≡ xs ++ (ys ++ zs)
append_assoc [] ys zs = refl
append_assoc (x ∷ xs) ys zs = ap (λ (t : List Text). x ∷ t) (append_assoc xs ys zs)

append_nil : (xs : List Text) → xs ++ [] ≡ xs
append_nil [] = refl
append_nil (x ∷ xs) = ap (λ (t : List Text). x ∷ t) (append_nil xs)

push_all-append :
    (fuel : ℕ) (r : Option Text × Text) (out : List Text)
    → push_all fuel r out ≡ out ++ tokens fuel (path_separator ∷ []) r
unfolding push_all tokens
push_all-append zero r out = simp append_nil
push_all-append (suc fuel) (none, save) out = simp append_nil
push_all-append (suc fuel) (some pch, save) out =
    push_all-append fuel _ (insert out pch) ∙ append_assoc out (pch ∷ []) _

-- Whether the input is read from the working directory on.
abbrev pub relative : Text → Bool
relative input = ltb 0 (strlen input) && not (first_is input path_separator)

pub canonical_elements-eq :
    (cwd input : Text)
    → canonical_elements cwd input
      ≡ foldl push_element
          (if relative input then tokens_of path_separator cwd else [])
          (tokens_of path_separator input)
unfolding canonical_elements
canonical_elements-eq cwd input =
    rw
      (
        walk_all-foldl,
        push_all-append (length cwd + 1) (strtok_r (some cwd) (path_separator ∷ []) []) [],
      )
      refl

-- A name that is neither "." nor "..".
abbrev pub IsNormal : Text → Type 0
IsNormal s = IsName path_separator s × (s ≢ path_dot) × (s ≢ path_up)

All-pop : (out : List Text) → All IsNormal out → All IsNormal (pop out)
unfolding pop
All-pop [] h = tt
All-pop (x ∷ []) h = tt
All-pop (x ∷ y ∷ xs) h = (h.0, All-pop (y ∷ xs) h.1)

push_element-IsNormal :
    (out : List Text) (s : Text)
    → IsName path_separator s
    → All IsNormal out
    → All IsNormal (push_element out s)
unfolding push_element
push_element-IsNormal out s n h = elim (Bool-cases (strcmp s path_up == 0)) [
  | inl e ↦ rw e (All-pop out h)
  | inr e ↦ elim (Bool-cases (strcmp s path_dot == 0)) [
    | inl e' ↦ rw (e, e') h
    | inr e' ↦
        rw (e, e')
          (All-append IsNormal out (s ∷ []) h (
            (
              n,
              λ q. ground (arith, strcmp_zero s path_dot),
              λ q. ground (arith, strcmp_zero s path_up),
            ),
            tt,
          ))
  ]
]

foldl-IsNormal :
    (ts out : List Text)
    → All (IsName path_separator) ts
    → All IsNormal out
    → All IsNormal (foldl push_element out ts)
unfolding foldl
foldl-IsNormal [] out n h = h
foldl-IsNormal (t ∷ ts) out n h =
    foldl-IsNormal ts (push_element out t) n.1 (push_element-IsNormal out t n.0 h)

pub canonical_elements-IsNormal :
    (cwd input : Text)
    → (relative input ≡ true → All IsNormal (tokens_of path_separator cwd))
    → All IsNormal (canonical_elements cwd input)
canonical_elements-IsNormal cwd input h =
    rw canonical_elements-eq (elim (Bool-cases (relative input)) [
      | inl e ↦ rw e (foldl-IsNormal _ _ (tokens_lem path_separator input).0 (h e))
      | inr e ↦ rw e (foldl-IsNormal _ [] (tokens_lem path_separator input).0 tt)
    ])

pub join_all-join : (ns : List Text) → join_all ns ≡ join path_separator ns
unfolding join_all join
join_all-join [] = refl
join_all-join (n ∷ ns) = ap (λ (t : Text). path_separator ∷ (n ++ t)) (join_all-join ns)

path_size-length : (ns : List Text) → path_size ns ≡ length (join_all ns)
unfolding path_size join_all
path_size-length [] = refl
path_size-length (n ∷ ns) =
    omega (arith, path_size-length ns, strlen-length n, length-append n (join_all ns))

pub render-nil : render [] ≡ path_separator ∷ []
unfolding render path_size
render-nil = refl

pub render-cons : (n : Text) (ns : List Text) → render (n ∷ ns) ≡ join path_separator (n ∷ ns)
unfolding render path_size
render-cons n ns = rw join_all-join (ground arith)

push_element-name : (out : List Text) (s : Text) → IsNormal s → push_element out s ≡ insert out s
unfolding push_element
push_element-name out s n = ground (arith, strcmp_zero s path_up, strcmp_zero s path_dot, n.1, n.2)

foldl-names : (ns out : List Text) → All IsNormal ns → foldl push_element out ns ≡ out ++ ns
unfolding foldl
foldl-names [] out h = simp append_nil
foldl-names (n ∷ ns) out h =
    rw (push_element-name out n h.0)
      (foldl-names ns (insert out n) h.1 ∙ append_assoc out (n ∷ []) ns)

pub All-names : (ns : List Text) → All IsNormal ns → All (IsName path_separator) ns
All-names [] h = tt
All-names (n ∷ ns) h = (h.0.0, All-names ns h.1)

pub tokens-separator : tokens_of path_separator (path_separator ∷ []) ≡ []
unfolding tokens strtok_r strspn accepts advance
tokens-separator = refl

relative-render : (ns : List Text) → relative (render ns) ≡ false
relative-render [] = rw render-nil (ground arith)
relative-render (n ∷ ns) = rw render-cons (unfold join in ground arith)

tokens-render : (ns : List Text) → All IsNormal ns → tokens_of path_separator (render ns) ≡ ns
tokens-render [] h = rw render-nil tokens-separator
tokens-render (n ∷ ns) h =
    rw render-cons (tokens-join path_separator (n ∷ ns) (All-names (n ∷ ns) h))

-- A canonical path is read back as the names it was made of, whatever the working directory.
pub canonical_elements-render :
    (cwd : Text) (ns : List Text) → All IsNormal ns → canonical_elements cwd (render ns) ≡ ns
canonical_elements-render cwd ns h =
    rw (canonical_elements-eq, relative-render ns, tokens-render ns h) (foldl-names ns [] h)

pub path_size-zero : (out : List Text) → (path_size out == 0) ≡ (length out == 0)
unfolding path_size
path_size-zero [] = refl
path_size-zero (s ∷ ss) = ground arith

-- `canonicalize_path` of an absolute path, or in a working directory without "." and "..", is
-- "/" or names joined by "/", and none of them is empty, ".", ".." or holds a separator; they are
-- what the stack machine makes of the names of the two paths. Where there are no names and
-- `realloc` does not return memory it writes through `nullptr` instead.
pub canonicalize_path-IsNormal :
    (realloc_answers : Bool) (cwd input : Text)
    → (relative input ≡ true → All IsNormal (tokens_of path_separator cwd))
    → (ns : List Text) × All IsNormal ns
      × (canonicalize_path realloc_answers cwd input
          ≡ (if (length ns == 0 && not realloc_answers) then none else some (render ns)))
      × (ns
          ≡ foldl push_element
              (if relative input then tokens_of path_separator cwd else [])
              (tokens_of path_separator input))
unfolding canonicalize_path
canonicalize_path-IsNormal realloc_answers cwd input h = (
  canonical_elements cwd input,
  canonical_elements-IsNormal cwd input h,
  rw (path_size-zero (canonical_elements cwd input)) refl,
  canonical_elements-eq cwd input,
)

-- Canonicalizing a canonical path again changes nothing, in any working directory.
pub canonical_elements_idempotent :
    (cwd input other : Text)
    → (relative input ≡ true → All IsNormal (tokens_of path_separator cwd))
    → canonical_elements other (render (canonical_elements cwd input))
      ≡ canonical_elements cwd input
canonical_elements_idempotent cwd input other h =
    canonical_elements-render other _ (canonical_elements-IsNormal cwd input h)

pop-insert : (out : List Text) (n : Text) → pop (insert out n) ≡ out
unfolding pop
pop-insert [] n = refl
pop-insert (x ∷ []) n = refl
pop-insert (x ∷ y ∷ xs) n = ap (λ (t : List Text). x ∷ t) (pop-insert (y ∷ xs) n)

foldl-append :
    (xs ys out : List Text)
    → foldl push_element out (xs ++ ys) ≡ foldl push_element (foldl push_element out xs) ys
unfolding foldl
foldl-append [] ys out = refl
foldl-append (x ∷ xs) ys out = foldl-append xs ys (push_element out x)
