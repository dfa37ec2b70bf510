-- ===== src/Fs/Ext2/Nodes.antt =====
-- Directories of the ram disk, and the kinds of its nodes.
use husky_os.Base.{
  ℕ, zero, suc, ◌+◌, ◌-◌, ◌*◌, ◌/◌, ◌%◌, ◌^◌, ◌≤◌, ◌<◌, ◌≡◌, Bool, true, not, ◌||◌, Option, some,
  none, List, [], ◌∷◌, ltb, ◌==◌, if◌then◌else◌, u32, bit_and, bit_or, arith, refl, ◌∙◌, get_elem?,
  inl, inr, Bool-cases, ap,
}
use husky_os.Base.Bits.{bit_and_split, bit_and-zero, passes_below, passes_below_at, same, same-eq}
use husky_os.Klib.Text.{Text, strcmp}
use husky_os.Fs.Vfs.{FsNode, is_directory}
use husky_os.Fs.Ext2.{
  Initrd, rec_len, entry_name, Search, entry, absent, find_entry, nth_entry, ext2_get_inode,
  ext2_get_inode_block, inode_file_size, inode_mode, ext2_get_direntry, dirent_of, readdir_initrd,
  node_of, finddir_initrd, add_flag, node_flags, fill_node, initrd_node_from_file,
}

-- The entries of a directory of `size` bytes at `block`, from an offset on: each has a length, and
-- the next stands behind it; the last
-- one ends with the directory.
pub data Entries (d : Initrd) (size block : ℕ) : (dir_offset : ℕ) → List ℕ → Type 0 where
  last : (o : ℕ) → size ≡ o → Entries d size block o []
  next :
      (o : ℕ) (es : List ℕ)
      → o < size
      → 0 < rec_len d (block + o)
      → o + rec_len d (block + o) ≤ size
      → Entries d size block (o + rec_len d (block + o)) es
      → Entries d size block o ((block + o) ∷ es)

-- The first entry with a name.
unfoldable pub first_named : Initrd → Text → List ℕ → Search
first_named d name [] = absent
first_named d name (e ∷ es) =
    let rest = first_named d name es in if strcmp (entry_name d e) name == 0 then entry e else rest

abbrev pub found_at : Option ℕ → Search
found_at none = absent
found_at (some e) = entry e

module _ (d : Initrd) (size block : ℕ) (small : size < 2 ^ 32) where
  start-le : {o : ℕ} {es : List ℕ} → Entries d size block o es → o ≤ size
  start-le (last o l) = omega arith
  start-le (next o es l p w r) = omega arith

  find_entry_lem :
      (name : Text) (fuel : ℕ) {o : ℕ} {es : List ℕ}
      → Entries d size block o es
      → size < fuel + o
      → find_entry d size block name fuel o ≡ first_named d name es
  unfolding find_entry first_named
  find_entry_lem name zero c f = absurd (omega (arith, start-le c))
  find_entry_lem name (suc fuel) (last o l) f = ground arith
  find_entry_lem name (suc fuel) (next o es l p w r) f =
      let e : u32 (o + rec_len d (block + o)) ≡ o + rec_len d (block + o) = omega arith in
      rw e (ground (arith, find_entry_lem name fuel r (omega arith)))

  nth_entry_lem :
      (index fuel k : ℕ) {o : ℕ} {es : List ℕ}
      → Entries d size block o es
      → size < fuel + o
      → k ≤ index
      → nth_entry d size block index fuel o k ≡ found_at (get_elem? es (index - k))
  unfolding nth_entry
  nth_entry_lem index zero k c f h = absurd (omega (arith, start-le c))
  nth_entry_lem index (suc fuel) k (last o l) f h = ground arith
  nth_entry_lem index (suc fuel) k (next o es l p w r) f h =
      let e : u32 (o + rec_len d (block + o)) ≡ o + rec_len d (block + o) = omega arith in
      let t : ltb o size ≡ true = ground arith in
      elim (Bool-cases (k == index)) [
        | inl q ↦ (let z : index - k ≡ 0 = ground arith in rw (e, t, q, z) refl)
        | inr q ↦
            let ne : index - k ≡ suc (index - (k + 1)) = ground arith in
            rw (e, t, q, ne) (nth_entry_lem index fuel (k + 1) r (omega arith) (ground arith))
      ]

-- `finddir_initrd` of a directory whose entries follow one another from the start of its first
-- block to its size answers a node made of the first entry with the name, and of its inode, and
-- `nullptr` when no entry has the name.
pub finddir_initrd_lem :
    (d : Initrd) (node_inode : ℕ) (name : Text) (raw : FsNode) (es : List ℕ)
    → let inode = ext2_get_inode d node_inode in
      Entries d (inode_file_size d inode) (ext2_get_inode_block d inode 0) 0 es
      → finddir_initrd d node_inode name raw ≡ node_of d raw (first_named d name es)
unfolding finddir_initrd
finddir_initrd_lem d n name raw es c = ap (node_of d raw) (
    find_entry_lem d (inode_file_size d (ext2_get_inode d n))
      (ext2_get_inode_block d (ext2_get_inode d n) 0) (omega arith) name
      (inode_file_size d (ext2_get_inode d n) + 1) c (omega arith))

-- `readdir_initrd` of a directory whose entries follow one another from the start of its first
-- block to its size answers the name and the inode of the entry at the index, and `nullptr` from
-- the number of entries on.
pub readdir_initrd_lem :
    (d : Initrd) (node_inode index : ℕ) (es : List ℕ)
    → let inode = ext2_get_inode d node_inode in
      Entries d (inode_file_size d inode) (ext2_get_inode_block d inode 0) 0 es
      → readdir_initrd d node_inode index ≡ dirent_of d (found_at (get_elem? es index))
unfolding readdir_initrd ext2_get_direntry
readdir_initrd_lem d n index es c =
    ap (dirent_of d) (
      nth_entry_lem d (inode_file_size d (ext2_get_inode d n))
        (ext2_get_inode_block d (ext2_get_inode d n) 0) (omega arith) index
        (inode_file_size d (ext2_get_inode d n) + 1) 0 c (omega arith) (omega arith))
    ∙ ap (λ (i : ℕ). dirent_of d (found_at (get_elem? es i))) (omega arith)

-- The flags by the type, the four high bits of the mode.
add_type_flag : (type wanted flag : ℕ) → ℕ → ℕ
add_type_flag type wanted flag flags =
    if bit_and type wanted == wanted then bit_or flags flag else flags

type_flags : ℕ → ℕ
unfolding add_type_flag
type_flags type = add_type_flag type 10 6 (
    add_type_flag type 1 5 (
      add_type_flag type 2 3
        (add_type_flag type 6 4 (add_type_flag type 4 2 (add_type_flag type 8 1 0)))))

add_flag-type :
    (mode wanted flag flags : ℕ)
    → add_flag mode (wanted * 2 ^ 12 + 0) flag flags
      ≡ add_type_flag (mode / 2 ^ 12) wanted flag flags
unfolding add_flag add_type_flag
add_flag-type mode wanted flag flags =
    ground (
      arith,
      bit_and_split 12 (mode / 2 ^ 12) (mode % 2 ^ 12) wanted 0,
      bit_and-zero (mode % 2 ^ 12),
    )

node_flags-type : (mode : ℕ) → node_flags mode ≡ type_flags (mode / 2 ^ 12)
unfolding node_flags type_flags
node_flags-type mode =
    rw
      (
        add_flag-type mode 8 1,
        add_flag-type mode 4 2,
        add_flag-type mode 6 4,
        add_flag-type mode 2 3,
        add_flag-type mode 1 5,
        add_flag-type mode 10 6,
      )
      refl

-- The types that get the flag of a directory.
abbrev pub looks_like_directory : ℕ → Bool
looks_like_directory type = type / 4 % 2 == 1 || type / 2 % 2 == 1

type_fits : ℕ → Bool
unfolding type_flags add_type_flag
type_fits type = same (not (bit_and (type_flags type) 2 == 0)) (looks_like_directory type)

type_fits-eq :
    (type : ℕ)
    → type_fits type ≡ true
    → not (bit_and (type_flags type) 2 == 0) ≡ looks_like_directory type
unfolding type_fits
type_fits-eq type e = same-eq _ _ e

types_fit : passes_below type_fits 16 ≡ true
unfolding passes_below type_fits
types_fit = refl

-- The file system layer takes a node for a directory exactly when the type in its mode has the bit
-- 0x4000 or the bit 0x2000: a directory, but also a link, a character or a block device and a
-- socket; a regular file or a pipe is none.
pub is_directory-node :
    (d : Initrd) (inode direntry : ℕ) (raw : FsNode)
    → is_directory (initrd_node_from_file d inode direntry raw)
      ≡ looks_like_directory (inode_mode d inode / 2 ^ 12)
unfolding is_directory initrd_node_from_file fill_node
is_directory-node d inode direntry raw = rw (node_flags-type (inode_mode d inode)) (
    type_fits-eq _
      (passes_below_at type_fits 16 (inode_mode d inode / 2 ^ 12) types_fit (omega arith)))
