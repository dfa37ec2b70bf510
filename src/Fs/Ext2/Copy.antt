-- ===== src/Fs/Ext2/Copy.antt =====
-- Copying a file block by block: what a part of the buffer holds after each block.
use husky_os.Base.{
  ℕ, zero, suc, ◌+◌, ◌-◌, ◌*◌, ◌/◌, ◌%◌, ◌^◌, ◌≤◌, ◌<◌, ◌≡◌, true, false, ltb, leb, ◌&&◌, ◌==◌,
  if◌then◌else◌, u32, arith, ==_refl, refl, sym, ◌∙◌, ap,
}
use mathlib.Core.Path.{subst}
use native.Mathlib.Nat.{mul-add-div_right, div-eq_of_lt, div-add-mod', add-mul, mul_comm, suc-mul}
use husky_os.Fs.Ext2.{copy_in, read_block, read_blocks}

-- Byte `p` of a file whose blocks of `size` bytes stand at `block_at`.
abbrev pub file_byte : (memory block_at : ℕ → ℕ) → (size p : ℕ) → ℕ
file_byte memory block_at size p = memory (block_at (p / size) + p % size)

module _ (memory block_at : ℕ → ℕ) (size : ℕ) where
  -- Bytes of one block.
  pub file_byte-block :
      (q r : ℕ) → r < size → file_byte memory block_at size (q * size + r) ≡ memory (block_at q + r)
  file_byte-block q r h =
      let e : (q * size + r) / size ≡ q =
        mul-add-div_right (omega arith) q r
        ∙ ap (λ (t : ℕ). q + t) (div-eq_of_lt h)
        ∙ omega arith in
      let e' : (q * size + r) % size ≡ r =
        omega (arith, div-add-mod' (q * size + r) size, ap (λ (t : ℕ). t * size) e) in
      rw (e, e') refl

module _ (memory block_at : ℕ → ℕ) (size offset buffer : ℕ) (to : ℕ → ℕ) where
  -- The buffer holds the bytes of the file from `offset` up to `p`, and nothing else has changed.
  abbrev pub Holds : (p : ℕ) → (ℕ → ℕ) → Type 0
  Holds p now =
      (k : ℕ)
      → now k ≡ (
          if (leb buffer k && ltb k (buffer + (p - offset)))
          then file_byte memory block_at size (offset + (k - buffer))
          else to k)

  pub Holds-copy_in :
      (p n src : ℕ) (now : ℕ → ℕ)
      → offset ≤ p
      → ((i : ℕ) → i < n → memory (src + i) ≡ file_byte memory block_at size (p + i))
      → Holds p now
      → Holds (p + n) (copy_in memory n (buffer + (p - offset)) src now)
  Holds-copy_in p n src now h same held k =
      ground (arith, held k, same (k - (buffer + (p - offset))))

  -- The blocks behind the first: `q` is the number of the block.
  Holds-next :
      (q start rest blocks_read : ℕ) (now : ℕ → ℕ)
      → offset ≡ start * size + rest
      → rest < size
      → q ≡ start + suc blocks_read
      → q * size < 2 ^ 32
      → Holds (q * size) now
      → Holds
          (q * size + size)
          (read_block memory block_at size start rest buffer q (suc blocks_read) now)
  unfolding read_block
  Holds-next q start rest n now o r e w held =
      let product : q * size ≡ start * size + suc n * size =
        ap (λ (t : ℕ). t * size) e ∙ add-mul start (suc n) size in
      let one_more : suc n * size ≡ size + n * size = suc-mul n size ∙ omega arith in
      let ne : (q == start) ≡ false = ground arith in
      let flip : size * suc n ≡ suc n * size = mul_comm size (suc n) in
      let at : buffer + u32 (size * suc n) - rest ≡ buffer + (q * size - offset) =
        omega (arith, product, flip, one_more) in
      rw (ne, at)
        (Holds-copy_in (q * size) size (block_at q) now (omega (arith, product, one_more))
          (λ i h. sym (file_byte-block memory block_at size q i h)) held)

  Holds-blocks :
      (left q start rest blocks_read : ℕ) (now : ℕ → ℕ)
      → offset ≡ start * size + rest
      → rest < size
      → q ≡ start + suc blocks_read
      → (q + left) * size < 2 ^ 32
      → Holds (q * size) now
      → Holds
          ((q + left) * size)
          (read_blocks memory block_at size start rest buffer left q (suc blocks_read) now)
  unfolding read_blocks
  Holds-blocks zero q start rest n now o r e w held =
      let same : q + 0 ≡ q = omega arith in rw same held
  Holds-blocks (suc left) q start rest n now o r e w held =
      let product : (q + suc left) * size ≡ q * size + suc left * size =
        add-mul q (suc left) size in
      let on : q * size + size ≡ (q + 1) * size = sym (add-mul q 1 size ∙ omega arith) in
      let further : q + suc left ≡ q + 1 + left = omega arith in
      let read = read_block memory block_at size start rest buffer q (suc n) now in
      let held' : Holds ((q + 1) * size) read =
        subst (λ (p : ℕ). Holds p read) on
          (Holds-next q start rest n now o r e (omega (arith, product)) held) in
      let count : suc n + 1 ≡ suc (suc n) = omega arith in
      rw (further, count)
        (Holds-blocks left (q + 1) start rest (suc n) read o r (omega (arith, e)) (rw⁻¹ further w)
          held')

  -- The first block, from `rest` on.
  Holds-first :
      (start rest : ℕ)
      → offset ≡ start * size + rest
      → rest < size
      → Holds (start * size + size) (read_block memory block_at size start rest buffer start 0 to)
  unfolding read_block
  Holds-first start rest o r =
      let is_first : (start == start) ≡ true = ==_refl start in
      let p : start * size + size ≡ offset + (size - rest) = omega arith in
      let dst : buffer ≡ buffer + (offset - offset) = omega arith in
      rw (is_first, p)
        (λ k. ground (arith, file_byte-block memory block_at size start (rest + (k - buffer))))

  -- The whole loop, for at least one block.
  pub Holds-read_blocks :
      (left start rest : ℕ)
      → offset ≡ start * size + rest
      → rest < size
      → (start + suc left) * size < 2 ^ 32
      → Holds
          ((start + suc left) * size)
          (read_blocks memory block_at size start rest buffer (suc left) start 0 to)
  unfolding read_blocks
  Holds-read_blocks left start rest o r w =
      let further : start + suc left ≡ start + 1 + left = omega arith in
      let on : start * size + size ≡ (start + 1) * size =
        sym (add-mul start 1 size ∙ omega arith) in
      let read = read_block memory block_at size start rest buffer start 0 to in
      let held : Holds ((start + 1) * size) read =
        subst (λ (p : ℕ). Holds p read) on (Holds-first start rest o r) in
      let count : 0 + 1 ≡ suc 0 = omega arith in
      rw (further, count)
        (Holds-blocks left (start + 1) start rest 0 read o r (omega arith) (rw⁻¹ further w) held)
