-- ===== src/Fs/Vfs/Examples.antt =====
-- A small file system: the root holds the directory "a", and nothing else has entries.
use husky_os.Base.{
  ℕ, ◌≡◌, refl, true, false, [], ◌∷◌, ◌++◌, if◌then◌else◌, arith, some, none, ◌&&◌, length, ◌==◌,
}
use husky_os.Fs.Path.{path_separator}
use husky_os.Fs.Vfs.{
  FsNode, Callbacks, kopen, nothing, create, mkdir, mkdir_fs, create_file_fs, is_directory,
}
use husky_os.Fs.Vfs.Open.{kopen_lem, names_of, opened, find_all}
use husky_os.Fs.Vfs.Make.{slashed, mkdir_fs_lem, create_file_fs_lem}

abbrev directory : ℕ → FsNode
directory inode = record {
  name = [];
  mask = 0;
  uid = 0;
  gid = 0;
  flags = 2;
  inode = inode;
  size = 0;
  impl = 0;
  has_read = false;
  has_write = false;
  has_open = false;
  has_close = false;
  has_readdir = false;
  has_finddir = true;
  has_create = false;
  has_mkdir = true;
}

abbrev calls : Callbacks
calls = record {
  read = λ n o s b. (0, b);
  write = λ n o s b. 0;
  open_node = λ n r w. n;
  close_node = λ n. n;
  readdir = λ n i. none;
  finddir = λ n s. if n.inode == 2 then some (directory 3) else none;
  realloc_answers = false;
  without_path = none;
}

kopen_lem_example : kopen calls (some (directory 2)) (some (97 ∷ [])) ≡ (
    if length (names_of (97 ∷ [])) == 0
    then none
    else opened calls (find_all calls (names_of (97 ∷ [])) (directory 2)))
kopen_lem_example = kopen_lem calls (directory 2) (97 ∷ []) (refl, tt)

mkdir_fs_lem_example :
    (kopen calls (some (directory 2)) (some (97 ∷ [])) ≡ none
      → mkdir_fs calls
          (some (directory 2))
          (slashed true ((97 ∷ []) ++ (path_separator ∷ 98 ∷ [])))
          5
        ≡ (1, nothing))
    × ((node : FsNode)
        → kopen calls (some (directory 2)) (some (97 ∷ [])) ≡ some node
        → mkdir_fs calls
            (some (directory 2))
            (slashed true ((97 ∷ []) ++ (path_separator ∷ 98 ∷ [])))
            5
          ≡ (0, if (is_directory node && node.has_mkdir) then mkdir node (98 ∷ []) 5 else nothing))
mkdir_fs_lem_example =
    mkdir_fs_lem calls (some (directory 2)) true (97 ∷ []) (98 ∷ []) 5
      (λ e. ground arith, (refl, tt))

create_file_fs_lem_example :
    (kopen calls (some (directory 2)) (some (97 ∷ [])) ≡ none
      → create_file_fs calls
          (some (directory 2))
          (slashed false ((97 ∷ []) ++ (path_separator ∷ 98 ∷ [])))
          5
        ≡ (2, nothing))
    × ((node : FsNode)
        → kopen calls (some (directory 2)) (some (97 ∷ [])) ≡ some node
        → create_file_fs calls
            (some (directory 2))
            (slashed false ((97 ∷ []) ++ (path_separator ∷ 98 ∷ [])))
            5
          ≡ (0, if (is_directory node && node.has_mkdir) then create node (98 ∷ []) 5 else nothing))
create_file_fs_lem_example =
    create_file_fs_lem calls (some (directory 2)) false (97 ∷ []) (98 ∷ []) 5
      (λ e. ground arith, (refl, tt))
