-- ===== src/Fs/Path/Examples.antt =====
-- Paths from the source's point of view, and the laws of canonical paths at them.
use husky_os.Base.{
  false, true, some, none, ◌&&◌, ◌==◌, length, ◌≡◌, refl, List, [], ◌∷◌, if◌then◌else◌, All, arith,
}
use husky_os.Klib.Text.{Text, strlen, strcmp, strtok_r, strspn, accepts, advance, strpbrk, cut}
use husky_os.Klib.Text.Tokens.{tokens_of}
use husky_os.Fs.Path.{
  path_separator, pop, push_all, push_element, walk_all, path_size, join_all, render,
  canonical_elements, canonicalize_path,
}
use husky_os.Fs.Path.Laws.{IsNormal, foldl, relative, canonicalize_path-IsNormal}

-- "/a/../b/."
abbrev up_and_down : Text
up_and_down = 47 ∷ 97 ∷ 47 ∷ 46 ∷ 46 ∷ 47 ∷ 98 ∷ 47 ∷ 46 ∷ []

canonicalize_path_run : canonicalize_path false (47 ∷ []) up_and_down ≡ some (47 ∷ 98 ∷ [])
unfolding canonicalize_path canonical_elements walk_all push_all push_element pop path_size join_all
    render strlen strcmp strtok_r strspn strpbrk advance accepts cut
canonicalize_path_run = refl

-- "c" in "/a/..": the parts of the working directory are taken as they are.
working_directory_run :
    canonicalize_path false (47 ∷ 97 ∷ 47 ∷ 46 ∷ 46 ∷ []) (99 ∷ [])
    ≡ some (47 ∷ 97 ∷ 47 ∷ 46 ∷ 46 ∷ 47 ∷ 99 ∷ [])
unfolding canonicalize_path canonical_elements walk_all push_all push_element pop path_size join_all
    render strlen strcmp strtok_r strspn strpbrk advance accepts cut
working_directory_run = refl

canonicalize_path-IsNormal_example :
    (ns : List Text) × All IsNormal ns
    × (canonicalize_path false (47 ∷ []) up_and_down
        ≡ (if (length ns == 0 && true) then none else some (render ns)))
    × (ns
        ≡ foldl push_element
            (if relative up_and_down then tokens_of path_separator (47 ∷ []) else [])
            (tokens_of path_separator up_and_down))
canonicalize_path-IsNormal_example =
    canonicalize_path-IsNormal false (47 ∷ []) up_and_down (λ e. ground arith)
