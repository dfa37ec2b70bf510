-- ===== src/Fs/Ext2/Read.antt =====
-- `read_initrd` against the bytes of the file.
use husky_os.Base.{
  ℕ, suc, ◌+◌, ◌-◌, ◌*◌, ◌/◌, ◌%◌, ◌^◌, ◌≤◌, ◌<◌, ◌≡◌, ◌≢◌, ltb, leb, ◌&&◌, ◌==◌, if◌then◌else◌,
  u32, arith, refl, sym, ◌∙◌, ap, min, inl, inr, Bool-cases,
}
use native.Mathlib.Nat.{div-add-mod', mod-lt, add-mul, suc-mul, mul_comm}
use husky_os.Fs.Ext2.{
  Initrd, block_size, ext2_get_inode, ext2_get_inode_block, inode_file_size, copy_in, read_blocks,
  read_end, read_range, read_initrd,
}
use husky_os.Fs.Ext2.Copy.{file_byte, file_byte-block, Holds, Holds-copy_in, Holds-read_blocks}

-- The quotient grows with the number.
div_le : (a b n : ℕ) → 0 < n → a ≤ b → a / n ≤ b / n
div_le a b n p h = grind (arith, div-add-mod', mod-lt)

module _ (d : Initrd) (inode offset end buffer : ℕ) (to : ℕ → ℕ) (positive : 0 < block_size d) where
  abbrev bs : ℕ
  bs = block_size d

  abbrev block_at : ℕ → ℕ
  block_at = ext2_get_inode_block d inode

  abbrev HoldsTo : (p : ℕ) → (ℕ → ℕ) → Type 0
  HoldsTo = Holds d.memory block_at bs offset buffer to

  nothing_yet : HoldsTo offset to
  nothing_yet k = ground arith

  -- The range lies in one block.
  one_block :
      offset ≤ end
      → offset / bs ≡ end / bs
      → HoldsTo end
          (copy_in d.memory (end - offset) buffer (block_at (offset / bs) + offset % bs) to)
  one_block h e =
      let o = div-add-mod' offset bs in
      let q = div-add-mod' end bs in
      let small = mod-lt end positive in
      let product : offset / bs * bs ≡ end / bs * bs = ap (λ (t : ℕ). t * bs) e in
      λ k.
        ground
          (arith, file_byte-block d.memory block_at bs (offset / bs) (offset % bs + (k - buffer)))

  -- It lies in several: `start` and `last` are the first and the last, `rest` and `part` the
  -- positions in them.
  blocks :
      (start rest m last part : ℕ)
      → offset ≡ start * bs + rest
      → rest < bs
      → last ≡ start + suc m
      → end ≡ last * bs + part
      → part < bs
      → end < 2 ^ 32
      → HoldsTo end (
          copy_in d.memory part
            (buffer + u32 (bs * (last - start)) - rest)
            (block_at last)
            (read_blocks d.memory block_at bs start rest buffer (last - start) start 0 to))
  blocks start rest m last part o r l e x w =
      let count : last - start ≡ suc m = omega arith in
      let product : last * bs ≡ start * bs + suc m * bs =
        ap (λ (t : ℕ). t * bs) l ∙ add-mul start (suc m) bs in
      let more : suc m * bs ≡ m * bs + bs = suc-mul m bs in
      let flip : bs * suc m ≡ suc m * bs = mul_comm bs (suc m) in
      let dst : buffer + u32 (bs * suc m) - rest ≡ buffer + (last * bs - offset) =
        omega (arith, product, more, flip) in
      let read = read_blocks d.memory block_at bs start rest buffer (suc m) start 0 to in
      let held : HoldsTo (last * bs) read = rw l (
        Holds-read_blocks d.memory block_at bs offset buffer to m start rest o r
          (rw⁻¹ l (omega arith))) in
      rw (count, dst, e)
        (Holds-copy_in d.memory block_at bs offset buffer to (last * bs) part (block_at last) read
          (omega (arith, product, more))
          (λ i h. sym (file_byte-block d.memory block_at bs last i (omega arith))) held)

  read_range_lem :
      offset ≤ end
      → end < 2 ^ 32
      → ((read_range d inode offset end buffer to).0 ≡ end - offset)
        × HoldsTo end (read_range d inode offset end buffer to).1
  unfolding read_range
  read_range_lem h w =
      let count : u32 (end + 2 ^ 32 - offset) ≡ end - offset = omega arith in
      elim (Bool-cases (offset / bs == end / bs)) [
        | inl e ↦ rw (e, count) (refl, one_block h (ground arith))
        | inr e ↦
            let o = div-add-mod' offset bs in
            let q = div-add-mod' end bs in
            let order : offset / bs ≤ end / bs = div_le offset end bs positive h in
            let ne : offset / bs ≢ end / bs = λ p. ground arith in
            rw (e, count)
              (
                refl,
                blocks (offset / bs) (offset % bs) (end / bs - offset / bs - 1) (end / bs)
                    (end % bs) (sym o) (mod-lt offset positive) (omega arith) (sym q)
                    (mod-lt end positive) w,
              )
      ]

-- The bytes that are asked for and lie in the file.
abbrev pub count_of : (offset size file_size : ℕ) → ℕ
count_of offset size file_size = min size (file_size - offset)

-- `read_initrd` from an offset within the file answers how many of the bytes lie in the file, and
-- puts exactly those into the buffer, each from its place in its block, whatever number of blocks
-- they take; nothing else of the memory there changes. The block size is not 0, and offset and
-- size together fit 32 bits.
pub read_initrd_lem :
    (d : Initrd) (node_inode offset size buffer : ℕ) (to : ℕ → ℕ)
    → 0 < block_size d
    → offset + size < 2 ^ 32
    → offset ≤ inode_file_size d (ext2_get_inode d node_inode)
    → let inode = ext2_get_inode d node_inode in
      let count = count_of offset size (inode_file_size d inode) in
      let r = read_initrd d node_inode offset size buffer to in
      (r.0 ≡ count)
      × ((k : ℕ)
          → r.1 k ≡ (
              if (leb buffer k && ltb k (buffer + count))
              then file_byte d.memory
                  (ext2_get_inode_block d inode)
                  (block_size d)
                  (offset + (k - buffer))
              else to k))
unfolding read_initrd read_end
read_initrd_lem d n offset size buffer to positive w h =
    let inode = ext2_get_inode d n in
    let file_size = inode_file_size d inode in
    let small : file_size < 2 ^ 32 = omega arith in
    let end = read_end offset size file_size in
    let count : end - offset ≡ count_of offset size file_size = ground arith in
    let r = read_range_lem d inode offset end buffer to positive (ground arith) (ground arith) in
    (r.0 ∙ count, λ k. rw⁻¹ count (r.1 k))
