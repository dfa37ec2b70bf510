-- ===== src/Fs/Vfs/Open.antt =====
-- `kopen` against a walk over the names of the canonical path.
use husky_os.Base.{
  ◌∙◌, Bool, not, ◌&&◌, ℕ, suc, ◌+◌, ◌≡◌, ◌≢◌, true, false, Option, some, none, List, [], ◌∷◌, ◌++◌,
  ◌==◌, if◌then◌else◌, length, All, All-append, refl, arith, ap, inl, inr, Bool-cases,
}
use husky_os.Klib.Text.{Text, strlen, strcmp, advance}
use husky_os.Klib.Text.Laws.{strlen-length}
use husky_os.Klib.Text.Tokens.{IsName, Clean, join, tokens_of, tokens_lem, concat, erase}
use husky_os.Fs.Path.{
  path_separator, path_dot, path_up, push_element, pop, render, canonical_elements,
  canonicalize_path,
}
use husky_os.Fs.Path.Laws.{
  IsNormal, All-names, tokens-separator, foldl, canonical_elements-eq, canonical_elements-IsNormal,
  relative, render-nil, render-cons, path_size-zero,
}
use husky_os.Fs.Vfs.{
  FsNode, Callbacks, open_fs, finddir_fs, cut_path, string_at, behind, dig_on, dig, open_path,
  open_canonical, kopen,
}

-- No byte of a string is 0.
abbrev pub NoNul : Text → Type 0
NoNul s = All (λ c. (c == 0) ≡ false) s

-- The path behind its separators, with a NUL for each: `kopen`'s copy from `path` on.
cut_names : List Text → List ℕ
cut_names [] = 0 ∷ []
cut_names (n ∷ ns) = 0 ∷ (n ++ cut_names ns)

cut_path-append :
    (n rest : Text) (k : ℕ)
    → Clean path_separator n
    → cut_path (n ++ rest) k ≡ (n ++ (cut_path rest k).0, (cut_path rest k).1)
unfolding cut_path
cut_path-append [] rest k h = refl
cut_path-append (c ∷ n) rest k h = rw (h.0, cut_path-append n rest k h.1) refl

cut_path-join :
    (ns : List Text) (k : ℕ)
    → All (IsName path_separator) ns
    → cut_path (join path_separator ns) k ≡ (cut_names ns, k + length ns)
unfolding cut_path join cut_names
cut_path-join [] k h = ground arith
cut_path-join (n ∷ ns) k h =
    rw (cut_path-append n (join path_separator ns) (k + 1) h.0.1, cut_path-join ns (k + 1) h.1)
      (ground arith)

string_at-names : (n : Text) (ns : List Text) → NoNul n → string_at (n ++ cut_names ns) ≡ n
unfolding string_at cut_names
string_at-names [] [] h = refl
string_at-names [] (m ∷ ns) h = refl
string_at-names (c ∷ n) ns h = rw h.0 (ap (λ (t : Text). c ∷ t) (string_at-names n ns h.1))

behind-names :
    (n : Text) (ns : List Text) → NoNul n → behind (n ++ cut_names ns) ≡ advance 1 (cut_names ns)
unfolding behind cut_names advance
behind-names [] [] h = refl
behind-names [] (m ∷ ns) h = refl
behind-names (c ∷ n) ns h = rw h.0 (behind-names n ns h.1)

advance-cut_names : (n : Text) (ns : List Text) → advance 1 (cut_names (n ∷ ns)) ≡ n ++ cut_names ns
unfolding advance cut_names
advance-cut_names n ns = refl

suc_ne_zero : (n : ℕ) → (suc n == 0) ≡ false
suc_ne_zero n = ground arith

name_long : (n rest : Text) → n ≢ [] → (length (path_separator ∷ (n ++ rest)) == 1) ≡ false
name_long [] rest h = absurd (h refl)
name_long (c ∷ n) rest h = ground arith

abbrev pub bind : Option FsNode → (FsNode → Option FsNode) → Option FsNode
bind none f = none
bind (some a) f = f a

-- The node at the end of a path of names.
unfoldable pub find_all : Callbacks → List Text → FsNode → Option FsNode
find_all calls [] node = some node
find_all calls (n ∷ ns) node = bind (finddir_fs calls node n) (find_all calls ns)

module _ (calls : Callbacks) where
  -- `open_fs(node, 1, 0)` on what was found.
  abbrev pub opened : Option FsNode → Option FsNode
  opened o = bind o (λ found. some (open_fs calls found 1 0))

  dig_on-last :
      (on : FsNode → Option FsNode) (o : Option FsNode)
      → dig_on calls on true o ≡ opened (bind o (find_all calls []))
  unfolding dig_on find_all
  dig_on-last on none = refl
  dig_on-last on (some a) = refl

  dig_on-next :
      (on f : FsNode → Option FsNode) (o : Option FsNode)
      → ((a : FsNode) → on a ≡ opened (f a))
      → dig_on calls on false o ≡ opened (bind o f)
  unfolding dig_on
  dig_on-next on f none h = refl
  dig_on-next on f (some a) h = h a

  dig-names :
      (n : Text) (ns : List Text) (node : FsNode)
      → All NoNul (n ∷ ns)
      → dig calls (length (n ∷ ns)) (n ++ cut_names ns) node ≡ opened (find_all calls (n ∷ ns) node)
  unfolding dig find_all
  dig-names n [] node h = rw (string_at-names n [] h.0) (dig_on-last _ (finddir_fs calls node n))
  dig-names n (m ∷ ns) node h =
      rw (string_at-names n (m ∷ ns) h.0, behind-names n (m ∷ ns) h.0, suc_ne_zero (length ns))
        (dig_on-next _ (find_all calls (m ∷ ns)) (finddir_fs calls node n)
          (λ a. rw (advance-cut_names m ns) (dig-names m ns a h.1)))

  -- `kopen` on a path of names walks down from the root by them and opens what it finds.
  pub open_path-render :
      (ns : List Text) (root : FsNode)
      → All (IsName path_separator) ns
      → All NoNul ns
      → open_path calls (render ns) root
        ≡ (if length ns == 0 then some root else opened (find_all calls ns root))
  unfolding open_path
  open_path-render [] root h z = rw (render-nil, strlen-length) refl
  open_path-render (n ∷ ns) root h z =
      let l : (strlen (join path_separator (n ∷ ns)) == 1) ≡ false =
        rw strlen-length (unfold join in name_long n (join path_separator ns) h.0.0) in
      rw (render-cons, l, cut_path-join (n ∷ ns) 0 h, advance-cut_names n ns)
        (ground (arith, dig-names n ns root z))

split_NoNul : (a b : Text) → NoNul (a ++ b) → NoNul a × NoNul b
split_NoNul [] b h = (tt, h)
split_NoNul (c ∷ a) b h = let r = split_NoNul a b h.1 in ((h.0, r.0), r.1)

concat-NoNul : (ns : List Text) → NoNul (concat ns) → All NoNul ns
unfolding concat
concat-NoNul [] h = tt
concat-NoNul (n ∷ ns) h = let r = split_NoNul n (concat ns) h in (r.0, concat-NoNul ns r.1)

erase-NoNul : (s : Text) → NoNul s → NoNul (erase path_separator s)
unfolding erase
erase-NoNul [] h = tt
erase-NoNul (c ∷ s) h = elim (Bool-cases (c == path_separator)) [
  | inl e ↦ rw e (erase-NoNul s h.1)
  | inr e ↦ rw e (h.0, erase-NoNul s h.1)
]

tokens-NoNul : (s : Text) → NoNul s → All NoNul (tokens_of path_separator s)
tokens-NoNul s h = concat-NoNul _ (rw ((tokens_lem path_separator s).1) (erase-NoNul s h))

pop-NoNul : (out : List Text) → All NoNul out → All NoNul (pop out)
unfolding pop
pop-NoNul [] h = tt
pop-NoNul (x ∷ []) h = tt
pop-NoNul (x ∷ y ∷ xs) h = (h.0, pop-NoNul (y ∷ xs) h.1)

push_element-NoNul :
    (out : List Text) (s : Text) → NoNul s → All NoNul out → All NoNul (push_element out s)
unfolding push_element
push_element-NoNul out s n h = elim (Bool-cases (strcmp s path_up == 0)) [
  | inl e ↦ rw e (pop-NoNul out h)
  | inr e ↦ elim (Bool-cases (strcmp s path_dot == 0)) [
    | inl e' ↦ rw (e, e') h
    | inr e' ↦ rw (e, e') (All-append NoNul out (s ∷ []) h (n, tt))
  ]
]

foldl-NoNul :
    (ts out : List Text) → All NoNul ts → All NoNul out → All NoNul (foldl push_element out ts)
unfolding foldl
foldl-NoNul [] out n h = h
foldl-NoNul (t ∷ ts) out n h =
    foldl-NoNul ts (push_element out t) n.1 (push_element-NoNul out t n.0 h)

-- The names that `kopen` looks up: those of the canonical path in the working directory "/".
abbrev pub names_of : Text → List Text
names_of = canonical_elements (path_separator ∷ [])

names_of-NoNul : (s : Text) → NoNul s → All NoNul (names_of s)
names_of-NoNul s h = rw canonical_elements-eq (elim (Bool-cases (relative s)) [
  | inl e ↦
      rw e (foldl-NoNul _ _ (tokens-NoNul s h) (tokens-NoNul (path_separator ∷ []) (refl, tt)))
  | inr e ↦ rw e (foldl-NoNul _ [] (tokens-NoNul s h) tt)
])

root_tokens :
    (s : Text) → relative s ≡ true → All IsNormal (tokens_of path_separator (path_separator ∷ []))
root_tokens s e = rw tokens-separator tt

-- A path without names, as `realloc` answers.
open_empty :
    (calls : Callbacks) (root : FsNode) (path : Text) (answers : Bool)
    → open_path calls path root ≡ some root
    → open_canonical calls (if (true && not answers) then none else some path) root
      ≡ (if answers then some root else calls.without_path)
unfolding open_canonical
open_empty calls root path true e = e
open_empty calls root path false e = refl

-- `kopen` of a string without NUL bytes answers the root for a path without names, if `realloc`
-- returns memory for it, and otherwise the node that `finddir_fs` finds name by name from the root
-- on, opened; `nullptr` when one of them is not found. What follows on a `realloc` that returns
-- `nullptr` for a path without names is not known.
pub kopen_lem :
    (calls : Callbacks) (root : FsNode) (filename : Text)
    → NoNul filename
    → kopen calls (some root) (some filename) ≡ (
        if length (names_of filename) == 0
        then (if calls.realloc_answers then some root else calls.without_path)
        else opened calls (find_all calls (names_of filename) root))
unfolding kopen canonicalize_path open_canonical
kopen_lem calls root filename h =
    let found =
      open_path-render calls (names_of filename) root
        (All-names _
          (canonical_elements-IsNormal (path_separator ∷ []) filename (root_tokens filename)))
        (names_of-NoNul filename h) in
    elim (Bool-cases (length (names_of filename) == 0)) [
      | inl e ↦
          rw (path_size-zero (names_of filename), e)
            (open_empty calls root (render (names_of filename)) calls.realloc_answers
              (found ∙ rw e refl))
      | inr e ↦ rw (path_size-zero (names_of filename), e) (found ∙ rw e refl)
    ]
