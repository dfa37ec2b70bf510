-- ===== src/Fs/Path.antt =====
-- Kernel/src/fs/vfs.cpp: `canonicalize_path`. The stack of names is a list, what `list_insert`
-- and `list_pop` make of it; `malloc` returns memory.
pub mod Laws
mod Examples
use husky_os.Base.{
  ℕ, zero, suc, ◌+◌, Bool, true, false, not, ◌&&◌, Option, some, none, List, [], ◌∷◌, ◌++◌, ltb,
  ◌==◌, if◌then◌else◌, length,
}
use husky_os.Klib.Text.{Text, strlen, strcmp, strtok_r}

-- `PATH_SEPARATOR`, `PATH_DOT` and `PATH_UP`.
abbrev pub path_separator : ℕ
path_separator = 47

abbrev pub path_dot : Text
path_dot = 46 ∷ []

abbrev pub path_up : Text
path_up = 46 ∷ 46 ∷ []

-- What `list_insert` and `list_pop` do to the values of the list.
abbrev pub insert : List Text → Text → List Text
insert out s = out ++ (s ∷ [])

unfoldable pub pop : List Text → List Text
pop [] = []
pop (x ∷ []) = []
pop (x ∷ y ∷ xs) = x ∷ pop (y ∷ xs)

-- The loop that pushes the elements of the working directory; `pch` and `save` come from `strtok_r`.
unfoldable pub push_all : (fuel : ℕ) → Option Text × Text → List Text → List Text
push_all zero r out = out
push_all (suc fuel) (none, save) out = out
push_all (suc fuel) (some pch, save) out =
    push_all fuel (strtok_r none (path_separator ∷ []) save) (insert out pch)

-- The body of the loop over the input.
unfoldable pub push_element : List Text → Text → List Text
push_element out pch =
    if strcmp pch path_up == 0
    then pop out
    else if strcmp pch path_dot == 0
    then out
    else insert out pch

unfoldable pub walk_all : (fuel : ℕ) → Option Text × Text → List Text → List Text
walk_all zero r out = out
walk_all (suc fuel) (none, save) out = out
walk_all (suc fuel) (some pch, save) out =
    walk_all fuel (strtok_r none (path_separator ∷ []) save) (push_element out pch)

abbrev pub first_is : Text → ℕ → Bool
first_is [] a = false
first_is (c ∷ cs) a = c == a

-- `size`: what the elements need, each with its separator.
unfoldable pub path_size : List Text → ℕ
path_size [] = 0
path_size (s ∷ ss) = strlen s + 1 + path_size ss

-- `join() the list`
unfoldable pub join_all : List Text → Text
join_all [] = []
join_all (s ∷ ss) = path_separator ∷ (s ++ join_all ss)

unfoldable pub render : List Text → Text
render out = if path_size out == 0 then path_separator ∷ [] else join_all out

-- The loops have a round for each byte of what they read and one more.
unfoldable pub canonical_elements : (cwd input : Text) → List Text
canonical_elements cwd input =
    walk_all (length input + 1) (strtok_r (some input) (path_separator ∷ []) []) (
      if (ltb 0 (strlen input) && not (first_is input path_separator))
      then push_all (length cwd + 1) (strtok_r (some cwd) (path_separator ∷ []) []) []
      else [])

-- `realloc_answers` is whether `realloc`, which is called for an empty path only, returns memory:
-- it does where it reads a byte of the block that is not 0 as `free`. Otherwise the path is written
-- through `nullptr`: `none`.
unfoldable pub canonicalize_path : (realloc_answers : Bool) → (cwd input : Text) → Option Text
canonicalize_path realloc_answers cwd input =
    let out = canonical_elements cwd input in
    if (path_size out == 0 && not realloc_answers) then none else some (render out)
