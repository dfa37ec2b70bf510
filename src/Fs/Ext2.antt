-- ===== src/Fs/Ext2.antt =====
-- Kernel/src/fs/ext2_initrd.cpp and Kernel/include/ext2.h: the ram disk's file system.
-- The image is memory that is read by bytes; a buffer that a file is read into lies elsewhere.
pub mod Copy
pub mod Read
pub mod Nodes
mod Examples
use husky_os.Base.{
  ℕ, zero, suc, ◌+◌, ◌-◌, ◌*◌, ◌/◌, ◌%◌, ◌^◌, Bool, true, false, Option, some, none, List, [], ◌∷◌,
  ltb, leb, ◌&&◌, ◌==◌, if◌then◌else◌, u8, u16, u32, bit_and, bit_or, load8, load16, load32,
}
use husky_os.Klib.Text.{Text, strcmp}
use husky_os.Fs.Vfs.{FsNode, DirEntry, string_at}

-- The bytes, and what `initrd_mount` keeps of the superblock and the first group.
pub record Initrd : Type 0 where
  pub memory : ℕ → ℕ
  pub initrd_start : ℕ
  pub log_block_size : ℕ
  pub inode_size : ℕ
  pub initrd_inode_table : ℕ

-- `1024 << log_block_size`, as a `uint32_t`.
unfoldable pub block_size : Initrd → ℕ
block_size d = u32 (1024 * 2 ^ d.log_block_size)

-- The address of an inode, and its fields.
unfoldable pub ext2_get_inode : Initrd → ℕ → ℕ
ext2_get_inode d inode = d.initrd_inode_table + u32 (d.inode_size * u32 (inode + 2 ^ 32 - 1))

abbrev pub inode_mode : Initrd → ℕ → ℕ
inode_mode d inode = load16 d.memory inode

abbrev pub inode_uid : Initrd → ℕ → ℕ
inode_uid d inode = load16 d.memory (inode + 2)

abbrev pub inode_file_size : Initrd → ℕ → ℕ
inode_file_size d inode = load32 d.memory (inode + 4)

abbrev pub inode_gid : Initrd → ℕ → ℕ
inode_gid d inode = load16 d.memory (inode + 24)

abbrev pub inode_block : Initrd → (inode i : ℕ) → ℕ
inode_block d inode i = load32 d.memory (inode + 40 + i * 4)

unfoldable pub ext2_get_block : Initrd → ℕ → ℕ
ext2_get_block d block = d.initrd_start + u32 (block_size d * block)

-- The address of a file's block, 0 for `nullptr`.
unfoldable pub ext2_get_inode_block : Initrd → (inode block : ℕ) → ℕ
ext2_get_inode_block d inode block =
    if ltb block 12
    then ext2_get_block d (inode_block d inode block)
    else if ltb block (12 + block_size d / 4)
    then ext2_get_block d
        (load32 d.memory (ext2_get_block d (inode_block d inode 12) + (block - 12) * 4))
    else if ltb block (12 + 256 + 256 * 256)
    then (let b = u32 (u32 (block + 2 ^ 32 - 12) + 2 ^ 32 - 256) in
        let c = b / 256 in
        let c_block =
          ext2_get_block d (load32 d.memory (ext2_get_block d (inode_block d inode 13) + c * 4)) in
        ext2_get_block d (load32 d.memory (c_block + (b - c * 256) * 4)))
    else 0

-- `memcpy` from the image into the buffer.
abbrev pub copy_in : (memory : ℕ → ℕ) → (size dst src : ℕ) → (ℕ → ℕ) → ℕ → ℕ
copy_in memory size dst src buffer k =
    if (leb dst k && ltb k (dst + size)) then memory (src + (k - dst)) else buffer k

module _ (memory : ℕ → ℕ) (block_at : ℕ → ℕ) (size start rest buffer : ℕ) where
  -- The body of the loop of `read_initrd`: `rest` is `offset % block_size`.
  unfoldable pub read_block : (block_offset blocks_read : ℕ) → (ℕ → ℕ) → ℕ → ℕ
  read_block block_offset blocks_read to =
      if block_offset == start
      then copy_in memory (size - rest) buffer (block_at block_offset + rest) to
      else copy_in memory size (buffer + u32 (size * blocks_read) - rest) (block_at block_offset) to

  -- The loop, `left` rounds from its end.
  unfoldable pub read_blocks : (left block_offset blocks_read : ℕ) → (ℕ → ℕ) → ℕ → ℕ
  read_blocks zero block_offset blocks_read to = to
  read_blocks (suc left) block_offset blocks_read to =
      read_blocks left (block_offset + 1) (blocks_read + 1) (read_block block_offset blocks_read to)

-- `end`: the sum is a `uint32_t`.
unfoldable pub read_end : (offset size file_size : ℕ) → ℕ
read_end offset size file_size =
    if ltb file_size (u32 (offset + size)) then file_size else u32 (offset + size)

-- The part of `read_initrd` behind that; it answers the count and what lies behind `buffer`.
unfoldable pub read_range : Initrd → (inode offset end buffer : ℕ) → (ℕ → ℕ) → ℕ × (ℕ → ℕ)
read_range d inode offset end buffer to =
    let bs = block_size d in
    let start_block = offset / bs in
    let end_block = end / bs in
    let size_to_read = u32 (end + 2 ^ 32 - offset) in
    let block_at = ext2_get_inode_block d inode in
    if start_block == end_block
    then (
      size_to_read,
      copy_in d.memory size_to_read buffer (block_at start_block + offset % bs) to,
    )
    else (
      size_to_read,
      copy_in d.memory (end % bs) (buffer + u32 (bs * (end_block - start_block)) - offset % bs)
          (block_at end_block)
          (read_blocks d.memory block_at bs start_block (offset % bs) buffer
            (end_block - start_block) start_block 0 to),
    )

unfoldable pub read_initrd : Initrd → (node_inode offset size buffer : ℕ) → (ℕ → ℕ) → ℕ × (ℕ → ℕ)
read_initrd d node_inode offset size buffer to =
    let inode = ext2_get_inode d node_inode in
    read_range d inode offset (read_end offset size (inode_file_size d inode)) buffer to

-- The fields of a directory entry at an address.
abbrev pub entry_inode : Initrd → ℕ → ℕ
entry_inode d e = load32 d.memory e

abbrev pub rec_len : Initrd → ℕ → ℕ
rec_len d e = load16 d.memory (e + 4)

abbrev pub name_len : Initrd → ℕ → ℕ
name_len d e = load8 d.memory (e + 6)

-- `count` bytes from an address on, and the string that they are with a NUL behind them.
unfoldable pub bytes_from : (ℕ → ℕ) → (address count : ℕ) → List ℕ
bytes_from m address zero = []
bytes_from m address (suc count) = load8 m address ∷ bytes_from m (address + 1) count

unfoldable pub entry_name : Initrd → ℕ → Text
entry_name d e = string_at (bytes_from d.memory (e + 8) (name_len d e))

-- How a loop over the entries of a directory ends.
pub data Search : Type 0 where
  entry : ℕ → Search
  absent : Search
  out_of_fuel : Search

-- The loop of `finddir_initrd`.
unfoldable pub find_entry : Initrd → (size block : ℕ) → Text → (fuel dir_offset : ℕ) → Search
find_entry d size block name zero dir_offset = out_of_fuel
find_entry d size block name (suc fuel) dir_offset =
    let on =
      find_entry d size block name fuel (u32 (dir_offset + rec_len d (block + dir_offset))) in
    if ltb dir_offset size
    then (if strcmp (entry_name d (block + dir_offset)) name == 0
        then entry (block + dir_offset)
        else on)
    else absent

-- The loop of `ext2_get_direntry`.
unfoldable pub nth_entry :
    Initrd → (size block index : ℕ) → (fuel dir_offset dir_index : ℕ) → Search
nth_entry d size block index zero dir_offset dir_index = out_of_fuel
nth_entry d size block index (suc fuel) dir_offset dir_index =
    let on =
      nth_entry d size block index fuel (u32 (dir_offset + rec_len d (block + dir_offset)))
        (dir_index + 1) in
    if ltb dir_offset size
    then (if dir_index == index then entry (block + dir_offset) else on)
    else absent

-- Both loops get a round for each byte of the directory and one more.
unfoldable pub ext2_get_direntry : Initrd → (inode index : ℕ) → Search
ext2_get_direntry d inode index =
    nth_entry d (inode_file_size d inode) (ext2_get_inode_block d inode 0) index
      (inode_file_size d inode + 1) 0 0

unfoldable pub dirent_of : Initrd → Search → Option DirEntry
dirent_of d (entry e) = some (record { name = entry_name d e; ino = entry_inode d e })
dirent_of d absent = none
dirent_of d out_of_fuel = none

unfoldable pub readdir_initrd : Initrd → (node_inode index : ℕ) → Option DirEntry
readdir_initrd d node_inode index =
    dirent_of d (ext2_get_direntry d (ext2_get_inode d node_inode) index)

-- `if ((mode & type) == type) flags |= flag`
unfoldable pub add_flag : (mode type flag : ℕ) → ℕ → ℕ
add_flag mode type flag flags = if bit_and mode type == type then bit_or flags flag else flags

unfoldable pub node_flags : (mode : ℕ) → ℕ
node_flags mode = add_flag mode 0xa000 6 (
    add_flag mode 0x1000 5 (
      add_flag mode 0x2000 3
        (add_flag mode 0x6000 4 (add_flag mode 0x4000 2 (add_flag mode 0x8000 1 0)))))

-- What the three functions that fill a node do; `raw` is the memory that `malloc` returned.
unfoldable pub fill_node : Initrd → (inode number : ℕ) → (name : Text) → (raw : FsNode) → FsNode
fill_node d inode number name raw = record raw {
  inode = number;
  name = name;
  uid = inode_uid d inode;
  gid = inode_gid d inode;
  size = inode_file_size d inode;
  mask = bit_and (inode_mode d inode) 0xfff;
  flags = node_flags (inode_mode d inode);
  has_read = true;
  has_write = true;
  has_open = true;
  has_close = true;
  has_readdir = true;
  has_finddir = true;
}

unfoldable pub initrd_node_from_file : Initrd → (inode direntry : ℕ) → FsNode → FsNode
initrd_node_from_file d inode direntry raw =
    fill_node d inode (entry_inode d direntry) (entry_name d direntry) raw

unfoldable pub initrd_node_root : Initrd → (inode : ℕ) → FsNode → FsNode
initrd_node_root d inode raw = fill_node d inode 2 (47 ∷ []) raw

unfoldable pub initrd_node_from_dirent : Initrd → (inode : ℕ) → DirEntry → FsNode → FsNode
initrd_node_from_dirent d inode direntry raw = fill_node d inode direntry.ino direntry.name raw

unfoldable pub node_of : Initrd → FsNode → Search → Option FsNode
node_of d raw (entry e) = some (initrd_node_from_file d (ext2_get_inode d (entry_inode d e)) e raw)
node_of d raw absent = none
node_of d raw out_of_fuel = none

unfoldable pub finddir_initrd : Initrd → (node_inode : ℕ) → Text → (raw : FsNode) → Option FsNode
finddir_initrd d node_inode name raw =
    let inode = ext2_get_inode d node_inode in
    node_of d raw (
      find_entry d (inode_file_size d inode) (ext2_get_inode_block d inode 0) name
        (inode_file_size d inode + 1) 0)

-- `write_initrd`, which is not implemented.
abbrev pub write_initrd : (node_inode offset size : ℕ) → ℕ
write_initrd node_inode offset size = 0

-- `initrd_mount`: the file system and its root, or `none` when the first `assert` fails. The
-- superblock stands at 1024, the first group's descriptor at 2048.
unfoldable pub initrd_mount :
    (memory : ℕ → ℕ) → (mem_head : ℕ) → (raw : FsNode) → Option (Initrd × FsNode)
initrd_mount memory mem_head raw =
    let superblock = mem_head + 1024 in
    let log = load32 memory (superblock + 24) in
    let size = load16 memory (superblock + 88) in
    let d : Initrd = record {
      memory = memory;
      initrd_start = mem_head;
      log_block_size = log;
      inode_size = if size == 0 then 128 else size;
      initrd_inode_table =
          mem_head + u32 (u32 (1024 * 2 ^ log) * load32 memory (mem_head + 2048 + 8));
    } in
    if load16 memory (superblock + 56) == 0xef53
    then some (d, initrd_node_root d (ext2_get_inode d 2) raw)
    else none
