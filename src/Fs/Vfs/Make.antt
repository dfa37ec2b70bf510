-- ===== src/Fs/Vfs/Make.antt =====
-- Making files and directories: the parent that is opened and the callback that is run.
use husky_os.Base.{
  ℕ, zero, suc, ◌+◌, ◌<◌, ◌≡◌, ◌≢◌, Bool, true, false, ◌&&◌, Option, some, none, [], ◌∷◌, ◌++◌,
  ◌==◌, if◌then◌else◌, length, get_elem?, refl, arith, ap, ◌∙◌, length-append,
}
use husky_os.Klib.Text.{Text, strlen, advance, cut, Found, rfind}
use husky_os.Klib.Text.Laws.{strlen-length, LastOf, rfind-LastOf, last, nowhere, wrapped}
use husky_os.Klib.Text.Tokens.{IsName, Clean}
use husky_os.Fs.Path.{path_separator}
use husky_os.Fs.Vfs.{
  FsNode, Callbacks, kopen, drop_slash, split_at, parent_and_leaf, nothing, create, mkdir,
  create_in, mkdir_in, create_file_fs, mkdir_fs, is_directory,
}

LastOf-unique :
    (s : Text) (a i : ℕ) (r : Found)
    → LastOf s a r
    → get_elem? s i ≡ some a
    → ((j : ℕ) → i < j → get_elem? s j ≢ some a)
    → r ≡ Found.at i
LastOf-unique s a i _ (last j here above) e h = ap Found.at (ground (arith, h j, above i))
LastOf-unique s a i _ (nowhere ne no_one) e h = absurd (no_one i e)
LastOf-unique s a i _ (wrapped empty) e h = absurd (empty_get s i a empty e)
  where
    empty_get : (s : Text) (i a : ℕ) → s ≡ [] → get_elem? s i ≢ some a
    empty_get [] i a q e = ground arith
    empty_get (c ∷ s) i a q e = ground arith

get-separator : (p leaf : Text) (a : ℕ) → get_elem? (p ++ (a ∷ leaf)) (length p) ≡ some a
get-separator [] leaf a = refl
get-separator (c ∷ p) leaf a = get-separator p leaf a

Clean-get :
    (leaf : Text) (j : ℕ) → Clean path_separator leaf → get_elem? leaf j ≢ some path_separator
Clean-get [] j h e = ground arith
Clean-get (c ∷ leaf) zero h e = ground (arith, h.0)
Clean-get (c ∷ leaf) (suc j) h e = Clean-get leaf j h.1 e

get-leaf :
    (p leaf : Text) (j : ℕ)
    → Clean path_separator leaf
    → length p < j
    → get_elem? (p ++ (path_separator ∷ leaf)) j ≢ some path_separator
get-leaf [] leaf zero h l e = absurd (omega arith)
get-leaf [] leaf (suc j) h l e = Clean-get leaf j h e
get-leaf (c ∷ p) leaf zero h l e = absurd (omega arith)
get-leaf (c ∷ p) leaf (suc j) h l e = get-leaf p leaf j h (omega arith) e

rfind-separator :
    (p leaf : Text)
    → Clean path_separator leaf
    → rfind (p ++ (path_separator ∷ leaf)) path_separator ≡ Found.at (length p)
rfind-separator p leaf h =
    LastOf-unique _ path_separator (length p) _ (rfind-LastOf _ path_separator)
      (get-separator p leaf path_separator) (λ j l. get-leaf p leaf j h l)

parent_and_leaf-rfind :
    (c : ℕ) (s : Text) → parent_and_leaf (c ∷ s) ≡ split_at (rfind (c ∷ s) path_separator) (c ∷ s)
unfolding parent_and_leaf rfind
parent_and_leaf-rfind c s = refl

cut-append : (p r : Text) → cut (length p) (p ++ r) ≡ p
unfolding cut
cut-append [] r = refl
cut-append (c ∷ p) r = ap (λ (t : Text). c ∷ t) (cut-append p r)

advance-append : (p r : Text) (a : ℕ) → advance (suc (length p)) (p ++ (a ∷ r)) ≡ r
unfolding advance
advance-append [] r a = refl
advance-append (c ∷ p) r a = advance-append p r a

-- The path of the parent and the name behind the last separator.
parent_and_leaf_lem :
    (p leaf : Text)
    → Clean path_separator leaf
    → parent_and_leaf (p ++ (path_separator ∷ leaf)) ≡ (p, leaf)
parent_and_leaf_lem p leaf h = start p ∙ found
  where
    start :
        (p : Text)
        → parent_and_leaf (p ++ (path_separator ∷ leaf))
          ≡ split_at
              (rfind (p ++ (path_separator ∷ leaf)) path_separator)
              (p ++ (path_separator ∷ leaf))
    start [] = parent_and_leaf-rfind path_separator leaf
    start (c ∷ p) = parent_and_leaf-rfind c (p ++ (path_separator ∷ leaf))

    found :
        split_at
          (rfind (p ++ (path_separator ∷ leaf)) path_separator)
          (p ++ (path_separator ∷ leaf))
        ≡ (p, leaf)
    found = rw (rfind-separator p leaf h) (
        unfold split_at in
        let e : length p + 1 ≡ suc (length p) = omega arith in
        rw (e, cut-append, advance-append) refl)

-- A path with or without a separator at its end.
abbrev pub slashed : Bool → Text → Text
slashed true s = s ++ (path_separator ∷ [])
slashed false s = s

drop_slash-slashed : (s : Text) → drop_slash (s ++ (path_separator ∷ [])) ≡ s
unfolding drop_slash
drop_slash-slashed [] = refl
drop_slash-slashed (c ∷ []) = refl
drop_slash-slashed (c ∷ d ∷ s) = ap (λ (t : Text). c ∷ t) (drop_slash-slashed (d ∷ s))

drop_slash-Clean : (s : Text) → Clean path_separator s → drop_slash s ≡ s
unfolding drop_slash
drop_slash-Clean [] h = refl
drop_slash-Clean (c ∷ []) h = rw h.0 refl
drop_slash-Clean (c ∷ d ∷ s) h = ap (λ (t : Text). c ∷ t) (drop_slash-Clean (d ∷ s) h.1)

drop_slash-append :
    (p : Text) (a c : ℕ) (s : Text) → drop_slash (p ++ (a ∷ c ∷ s)) ≡ p ++ (a ∷ drop_slash (c ∷ s))
unfolding drop_slash
drop_slash-append [] a c s = refl
drop_slash-append (x ∷ []) a c s = refl
drop_slash-append (x ∷ y ∷ p) a c s = ap (λ (t : Text). x ∷ t) (drop_slash-append (y ∷ p) a c s)

drop_slash-path :
    (b : Bool) (p leaf : Text)
    → IsName path_separator leaf
    → drop_slash (slashed b (p ++ (path_separator ∷ leaf))) ≡ p ++ (path_separator ∷ leaf)
drop_slash-path true p leaf h = drop_slash-slashed (p ++ (path_separator ∷ leaf))
drop_slash-path false p [] h = absurd (h.0 refl)
drop_slash-path false p (c ∷ leaf) h =
    drop_slash-append p path_separator c leaf
    ∙ ap (λ (t : Text). p ++ (path_separator ∷ t)) (drop_slash-Clean (c ∷ leaf) h.1)

strlen-path : (p leaf : Text) → (strlen (p ++ (path_separator ∷ leaf)) == 0) ≡ false
strlen-path p leaf =
    ground
      (arith, strlen-length (p ++ (path_separator ∷ leaf)), length-append p (path_separator ∷ leaf))

module _ (calls : Callbacks) (root : Option FsNode) (b : Bool) (p leaf : Text)
    (permission : ℕ) where
  mkdir_fs-eq :
      IsName path_separator leaf
      → mkdir_fs calls root (slashed b (p ++ (path_separator ∷ leaf))) permission
        ≡ mkdir_in (kopen calls root (some p)) leaf permission
  unfolding mkdir_fs
  mkdir_fs-eq n = rw (drop_slash-path b p leaf n, strlen-path, parent_and_leaf_lem p leaf n.1) refl

-- `mkdir_fs` of a path with a name behind its last separator, with one more separator at the end
-- or not, opens the parent: it returns 1 when there is none, and otherwise 0, and has the parent
-- make the name when that is a directory with `mkdir`.
pub mkdir_fs_lem :
    (calls : Callbacks) (root : Option FsNode) (b : Bool) (p leaf : Text) (permission : ℕ)
    → IsName path_separator leaf
    → (kopen calls root (some p) ≡ none
        → mkdir_fs calls root (slashed b (p ++ (path_separator ∷ leaf))) permission ≡ (1, nothing))
      × ((node : FsNode)
          → kopen calls root (some p) ≡ some node
          → mkdir_fs calls root (slashed b (p ++ (path_separator ∷ leaf))) permission ≡ (
            0,
            if (is_directory node && node.has_mkdir) then mkdir node leaf permission else nothing,
          ))
mkdir_fs_lem calls root b p leaf permission n =
    let e = mkdir_fs-eq calls root b p leaf permission n in
    (
      λ none_there. e ∙ rw none_there (unfold mkdir_in in refl),
      λ node there. e ∙ rw there (unfold mkdir_in in refl),
    )

module _ (calls : Callbacks) (root : Option FsNode) (b : Bool) (p leaf : Text)
    (permission : ℕ) where
  create_file_fs-eq :
      IsName path_separator leaf
      → create_file_fs calls root (slashed b (p ++ (path_separator ∷ leaf))) permission
        ≡ create_in (kopen calls root (some p)) leaf permission
  unfolding create_file_fs
  create_file_fs-eq n =
      rw (drop_slash-path b p leaf n, strlen-path, parent_and_leaf_lem p leaf n.1) refl

-- `create_file_fs` of a path with a name behind its last separator, with one more separator at the
-- end or not, returns 2 when the parent cannot be opened, and otherwise 0; it calls `create` of a
-- directory that has `mkdir`, whether or not it has `create`.
pub create_file_fs_lem :
    (calls : Callbacks) (root : Option FsNode) (b : Bool) (p leaf : Text) (permission : ℕ)
    → IsName path_separator leaf
    → (kopen calls root (some p) ≡ none
        → create_file_fs calls root (slashed b (p ++ (path_separator ∷ leaf))) permission
          ≡ (2, nothing))
      × ((node : FsNode)
          → kopen calls root (some p) ≡ some node
          → create_file_fs calls root (slashed b (p ++ (path_separator ∷ leaf))) permission ≡ (
            0,
            if (is_directory node && node.has_mkdir) then create node leaf permission else nothing,
          ))
create_file_fs_lem calls root b p leaf permission n =
    let e = create_file_fs-eq calls root b p leaf permission n in
    (
      λ none_there. e ∙ rw none_there (unfold create_in in refl),
      λ node there. e ∙ rw there (unfold create_in in refl),
    )
