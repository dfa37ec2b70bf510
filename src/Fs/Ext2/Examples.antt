-- ===== src/Fs/Ext2/Examples.antt =====
-- A small image: inode 2 is a directory of one entry, "a", which is inode 3, a file of 5 bytes.
use husky_os.Base.{
  ℕ, ◌+◌, ◌-◌, ◌<◌, ◌≡◌, refl, false, [], ◌∷◌, ltb, leb, ◌&&◌, ◌==◌, if◌then◌else◌, arith,
}
use husky_os.Fs.Vfs.{FsNode}
use husky_os.Fs.Ext2.{
  Initrd, block_size, ext2_get_inode, ext2_get_inode_block, ext2_get_block, inode_file_size,
  read_initrd, finddir_initrd, node_of,
}
use husky_os.Fs.Ext2.Copy.{file_byte}
use husky_os.Fs.Ext2.Read.{count_of, read_initrd_lem}
use husky_os.Fs.Ext2.Nodes.{Entries, last, next, first_named, finddir_initrd_lem}

-- The inodes stand at 4096 + 128 and 4096 + 256, their first blocks at 8192 and 9216.
abbrev image : ℕ → ℕ
image a =
    if a == 4225
    then 0x40
    else if a == 4228
    then 12
    else if a == 4264
    then 8
    else if a == 4353
    then 0xa0
    else if a == 4356
    then 5
    else if a == 4392
    then 9
    else if a == 8192
    then 3
    else if a == 8196
    then 12
    else if a == 8198
    then 1
    else if a == 8200
    then 97
    else if (leb 9216 a && ltb a 9221)
    then a - 9216 + 65
    else 0

abbrev disk : Initrd
disk = record {
  memory = image;
  initrd_start = 0;
  log_block_size = 0;
  inode_size = 128;
  initrd_inode_table = 4096;
}

abbrev raw : FsNode
raw = record {
  name = [];
  mask = 0;
  uid = 0;
  gid = 0;
  flags = 0;
  inode = 0;
  size = 0;
  impl = 0;
  has_read = false;
  has_write = false;
  has_open = false;
  has_close = false;
  has_readdir = false;
  has_finddir = false;
  has_create = false;
  has_mkdir = false;
}

positive : 0 < block_size disk
unfolding block_size
positive = omega arith

file_of_5 : inode_file_size disk (ext2_get_inode disk 3) ≡ 5
unfolding ext2_get_inode
file_of_5 = refl

read_initrd_lem_example :
    let inode = ext2_get_inode disk 3 in
    let count = count_of 1 9 (inode_file_size disk inode) in
    let r = read_initrd disk 3 1 9 70000 (λ k. 0) in
    (r.0 ≡ count)
    × ((k : ℕ)
        → r.1 k ≡ (
            if (leb 70000 k && ltb k (70000 + count))
            then file_byte image
                (ext2_get_inode_block disk inode)
                (block_size disk)
                (1 + (k - 70000))
            else 0))
read_initrd_lem_example =
    read_initrd_lem disk 3 1 9 70000 (λ k. 0) positive (omega arith) (omega (arith, file_of_5))

root_entries :
    let inode = ext2_get_inode disk 2 in
    Entries disk (inode_file_size disk inode) (ext2_get_inode_block disk inode 0) 0 (8192 ∷ [])
unfolding ext2_get_inode ext2_get_inode_block ext2_get_block block_size
root_entries = next 0 [] (omega arith) (omega arith) (omega arith) (last 12 refl)

finddir_initrd_lem_example :
    finddir_initrd disk 2 (97 ∷ []) raw ≡ node_of disk raw (first_named disk (97 ∷ []) (8192 ∷ []))
finddir_initrd_lem_example = finddir_initrd_lem disk 2 (97 ∷ []) raw (8192 ∷ []) root_entries
