-- ===== src/Fs/Vfs.antt =====
-- Kernel/src/fs/vfs.cpp and Kernel/include/vfs.h: nodes, their dispatch, `kopen`, and the making
-- of files and directories. A node's callbacks belong to its file system and are parameters; the
-- node says which of them it has. Memory does not run out.
pub mod Open
pub mod Make
mod Examples
use husky_os.Base.{
  ℕ, zero, suc, ◌+◌, ◌-◌, Bool, true, false, not, ◌&&◌, Option, some, none, List, [], ◌∷◌, ◌++◌,
  ltb, ◌==◌, if◌then◌else◌, length, bit_and,
}
use husky_os.Klib.Text.{Text, strlen, Found, absent, outside, rfind_from, cut, advance}
use husky_os.Fs.Path.{path_separator, canonicalize_path}

-- `fs_node_t`; a callback is there or null.
pub record FsNode : Type 0 where
  pub name : Text
  pub mask : ℕ
  pub uid : ℕ
  pub gid : ℕ
  pub flags : ℕ
  pub inode : ℕ
  pub size : ℕ
  pub impl : ℕ
  pub has_read : Bool
  pub has_write : Bool
  pub has_open : Bool
  pub has_close : Bool
  pub has_readdir : Bool
  pub has_finddir : Bool
  pub has_create : Bool
  pub has_mkdir : Bool

-- `FS_DIRECTORY`, a bit of `flags`.
abbrev pub fs_directory : ℕ
fs_directory = 2

unfoldable pub is_directory : FsNode → Bool
is_directory node = not (bit_and node.flags fs_directory == 0)

pub record DirEntry : Type 0 where
  pub name : Text
  pub ino : ℕ

-- The callbacks; `read` and `write` answer a count and what they leave in the buffer. With them,
-- what the heap makes of an empty path: whether `realloc` returns memory, and what `kopen` answers
-- when it does not and the path is written through `nullptr`, which C++ leaves open.
pub record Callbacks : Type 0 where
  pub read : FsNode → (offset size : ℕ) → List ℕ → ℕ × List ℕ
  pub write : FsNode → (offset size : ℕ) → List ℕ → ℕ
  pub open_node : FsNode → (reading writing : ℕ) → FsNode
  pub close_node : FsNode → FsNode
  pub readdir : FsNode → ℕ → Option DirEntry
  pub finddir : FsNode → Text → Option FsNode
  pub realloc_answers : Bool
  pub without_path : Option FsNode

-- The loop that writes a NUL over every separator, and the count of them.
unfoldable pub cut_path : Text → ℕ → List ℕ × ℕ
cut_path [] depth = (0 ∷ [], depth)
cut_path (c ∷ cs) depth =
    let (rest, depth') = cut_path cs (if c == path_separator then depth + 1 else depth) in
    ((if c == path_separator then 0 else c) ∷ rest, depth')

-- The string at `path_offset`, and `path_offset + strlen(path_offset) + 1`.
unfoldable pub string_at : List ℕ → Text
string_at [] = []
string_at (c ∷ cs) = if c == 0 then [] else c ∷ string_at cs

unfoldable pub behind : List ℕ → List ℕ
behind [] = []
behind (c ∷ cs) = if c == 0 then cs else behind cs

module _ (calls : Callbacks) where
  unfoldable pub read_fs : FsNode → (offset size : ℕ) → List ℕ → ℕ × List ℕ
  read_fs node offset size buffer =
      if node.has_read then calls.read node offset size buffer else (0, buffer)

  unfoldable pub write_fs : FsNode → (offset size : ℕ) → List ℕ → ℕ
  write_fs node offset size buffer =
      if node.has_write then calls.write node offset size buffer else 0

  unfoldable pub open_fs : FsNode → (reading writing : ℕ) → FsNode
  open_fs node reading writing =
      if node.has_open then calls.open_node node reading writing else node

  -- `close_fs`; closing the root panics.
  unfoldable pub close_fs : (is_root : Bool) → FsNode → Option FsNode
  close_fs is_root node =
      if is_root then none else some (if node.has_close then calls.close_node node else node)

  unfoldable pub readdir_fs : FsNode → ℕ → Option DirEntry
  readdir_fs node index =
      if (is_directory node && node.has_readdir) then calls.readdir node index else none

  unfoldable pub finddir_fs : FsNode → Text → Option FsNode
  finddir_fs node name =
      if (is_directory node && node.has_finddir) then calls.finddir node name else none

  -- The end of a round of `kopen`'s loop, for what `finddir_fs` found; `on` is the next round.
  unfoldable pub dig_on :
      (on : FsNode → Option FsNode) → (last : Bool) → Option FsNode → Option FsNode
  dig_on on last none = none
  dig_on on last (some node) = if last then some (open_fs node 1 0) else on node

  -- The loop, with `left` rounds to go.
  unfoldable pub dig : (left : ℕ) → List ℕ → FsNode → Option FsNode
  dig zero path node = none
  dig (suc left) path node =
      dig_on (λ next. dig left (behind path) next) (left == 0) (finddir_fs node (string_at path))

  -- The part of `kopen` behind the canonical path.
  unfoldable pub open_path : Text → FsNode → Option FsNode
  open_path path root =
      if strlen path == 1
      then some root
      else (let (bytes, path_depth) = cut_path path 0 in dig path_depth (advance 1 bytes) root)

  -- Behind `canonicalize_path`.
  unfoldable pub open_canonical : Option Text → FsNode → Option FsNode
  open_canonical none root = calls.without_path
  open_canonical (some path) root = open_path path root

  unfoldable pub kopen : (fs_root : Option FsNode) → (filename : Option Text) → Option FsNode
  kopen none filename = none
  kopen (some root) none = none
  kopen (some root) (some filename) =
      open_canonical (canonicalize_path calls.realloc_answers (path_separator ∷ []) filename) root

-- The last byte is dropped when it is a separator. Of an empty name the source looks at the byte
-- in front of its copy, and returns 1 whatever that is.
unfoldable pub drop_slash : Text → Text
drop_slash [] = []
drop_slash (c ∷ []) = if c == path_separator then [] else c ∷ []
drop_slash (c ∷ d ∷ cs) = c ∷ drop_slash (d ∷ cs)

-- The path of the parent, "." when there is no separator, and the name behind it.
unfoldable pub split_at : Found → Text → Text × Text
split_at (Found.at i) path = (cut i path, advance (i + 1) path)
split_at absent path = (46 ∷ [], path)
split_at outside path = (46 ∷ [], path)

unfoldable pub parent_and_leaf : Text → Text × Text
parent_and_leaf path = split_at (rfind_from path path_separator (strlen path - 1)) path

-- What the two functions do: the code that they return, and the callback that they run.
pub data Request : Type 0 where
  nothing : Request
  create : FsNode → Text → (permission : ℕ) → Request
  mkdir : FsNode → Text → (permission : ℕ) → Request

unfoldable pub create_in : Option FsNode → Text → ℕ → ℕ × Request
create_in none leaf permission = (2, nothing)
create_in (some node) leaf permission =
    (0, if (is_directory node && node.has_mkdir) then create node leaf permission else nothing)

unfoldable pub mkdir_in : Option FsNode → Text → ℕ → ℕ × Request
mkdir_in none leaf permission = (1, nothing)
mkdir_in (some node) leaf permission =
    (0, if (is_directory node && node.has_mkdir) then mkdir node leaf permission else nothing)

module _ (calls : Callbacks) (fs_root : Option FsNode) where
  unfoldable pub create_file_fs : (name : Text) → (permission : ℕ) → ℕ × Request
  create_file_fs name permission =
      let path = drop_slash name in
      if strlen path == 0
      then (1, nothing)
      else (let (parent, leaf) = parent_and_leaf path in
          create_in (kopen calls fs_root (some parent)) leaf permission)

  unfoldable pub mkdir_fs : (name : Text) → (permission : ℕ) → ℕ × Request
  mkdir_fs name permission =
      let path = drop_slash name in
      if strlen path == 0
      then (1, nothing)
      else (let (parent, leaf) = parent_and_leaf path in
          mkdir_in (kopen calls fs_root (some parent)) leaf permission)
