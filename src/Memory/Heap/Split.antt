-- ===== src/Memory/Heap/Split.antt =====
-- What `Split` leaves of a segment that is taken.
use husky_os.Base.{
  ℕ, ◌+◌, ◌-◌, ◌^◌, ◌≤◌, ◌<◌, ◌≡◌, ◌≢◌, true, false, ◌||◌, List, ◌∷◌, ◌++◌, ◌==◌, if◌then◌else◌,
  ltb, leb, ==_refl, ne→==, u32, u64, sub64, arith, refl, sym, ap, ◌∙◌, inl, inr, Bool-cases,
}
use mathlib.Core.Path.{subst}
use husky_os.Memory.Heap.{
  HeapSegHdr, Heap, put_free, put_last, split_seg_length, link_split, note_last, split,
}
use husky_os.Memory.Heap.Segments.{
  carve, Block, behind, Segments, Agree, Agree-trans, Segments-same,
}

-- The headers that `link_split` leaves, but for the links backwards.
abbrev linked_header : (this size seg x : ℕ) → Heap → HeapSegHdr
linked_header this size seg x h =
    if x == this
    then record (h.headers x) { length = size; next = this + size + 32 }
    else if x == this + size + 32
    then record (h.headers x) {
      length = seg;
      next = (h.headers this).next;
      free = (h.headers this).free;
    }
    else h.headers x

link_split-eq :
    (this size seg x : ℕ) (h : Heap)
    → this ≢ this + size + 32
    → Agree
        ((link_split this (this + size + 32) size seg h).headers x)
        (linked_header this size seg x h)
unfolding link_split
link_split-eq this size seg x h ne = elim (Bool-cases (x == (h.headers this).next)) [
  | inl n ↦ elim (Bool-cases (x == this)) [
    | inl e ↦
        let apart : (x == this + size + 32) ≡ false = ground arith in
        rw (n, e, apart) (refl, refl, refl)
    | inr e ↦ elim (Bool-cases (x == this + size + 32)) [
      | inl d ↦ rw (n, e, d) (refl, refl, refl)
      | inr d ↦ rw (n, e, d) (refl, refl, refl)
    ]
  ]
  | inr n ↦ elim (Bool-cases (x == this)) [
    | inl e ↦
        let apart : (x == this + size + 32) ≡ false = ground arith in
        rw (n, e, apart) (refl, refl, refl)
    | inr e ↦ elim (Bool-cases (x == this + size + 32)) [
      | inl d ↦ rw (n, e, d) (refl, refl, refl)
      | inr d ↦ rw (n, e, d) (refl, refl, refl)
    ]
  ]
]

pub put_last-Agree :
    (address value x : ℕ) (h : Heap) → Agree ((put_last address value h).headers x) (h.headers x)
put_last-Agree address value x h = elim (Bool-cases (x == address)) [
  | inl e ↦ rw e (refl, refl, refl)
  | inr e ↦ rw e (refl, refl, refl)
]

note_last-Agree :
    (this new x : ℕ) (h : Heap) → Agree ((note_last this new h).headers x) (h.headers x)
unfolding note_last
note_last-Agree this new x h = elim (Bool-cases (h.last_hdr == this)) [
  | inl e ↦ rw e (put_last-Agree this new x h)
  | inr e ↦ rw e (refl, refl, refl)
]

-- A header that is taken, one that is split off, and the others.
split_header : (this size rest x : ℕ) → Heap → HeapSegHdr
split_header this size rest x h =
    if x == this
    then record (h.headers x) { length = size; next = this + size + 32; free = false }
    else if x == this + size + 32
    then record (h.headers x) {
      length = rest;
      next = (h.headers this).next;
      free = (h.headers this).free;
    }
    else h.headers x

put_free-Agree :
    (this x : ℕ) (h g : Heap)
    → Agree (h.headers x) (g.headers x)
    → Agree ((put_free this false h).headers x) ((put_free this false g).headers x)
put_free-Agree this x h g e = elim (Bool-cases (x == this)) [
  | inl d ↦ rw d (e.0, refl, e.2)
  | inr d ↦ rw d e
]

-- `Split` where there is room: the segment keeps `size` bytes, and the rest is a segment of its own.
split-room :
    (this size whole x : ℕ) (h : Heap)
    → (h.headers this).length ≡ whole
    → 16 ≤ size
    → size + 48 ≤ whole
    → whole < 2 ^ 31
    → this + 32 + whole < 2 ^ 64
    → Agree
        ((put_free this false (split this size h)).headers x)
        (split_header this size (whole - size - 32) x h)
unfolding split split_seg_length split_header
split-room this size whole x h e large room small inside =
    let seg : u32 (sub64 (sub64 whole size) 32) ≡ whole - size - 32 = omega arith in
    let new : u64 (this + size + 32) ≡ this + size + 32 = omega arith in
    let not_tiny : ltb size 16 ≡ false = ground arith in
    let fits : (ltb (whole - size - 32) 16 || leb (2 ^ 31) (whole - size - 32)) ≡ false =
      ground arith in
    let rest = whole - size - 32 in
    let linked =
      Agree-trans
        ((note_last this (this + size + 32)
            (link_split this (this + size + 32) size rest h)).headers
          x)
        ((link_split this (this + size + 32) size rest h).headers x)
        (linked_header this size rest x h)
        (note_last-Agree this (this + size + 32) x (link_split this (this + size + 32) size rest h))
        (link_split-eq this size rest x h (λ d. omega (arith, d))) in
    rw (e, seg, new, not_tiny, fits)
      (elim (Bool-cases (x == this)) [
        | inl d ↦ let there = rw d at linked in rw d (there.0, refl, there.2)
        | inr d ↦ let there = rw d at linked in rw d there
      ])

-- `Split` where there is none leaves the segment whole.
split-full :
    (this size whole : ℕ) (h : Heap)
    → (h.headers this).length ≡ whole
    → size < whole
    → whole < size + 48
    → whole < 2 ^ 31
    → split this size h ≡ h
unfolding split split_seg_length
split-full this size whole h e less full_block small = elim (Bool-cases (ltb size 16)) [
  | inl d ↦ rw d refl
  | inr d ↦
      let full : (ltb (u32 (sub64 (sub64 whole size) 32)) 16
            || leb (2 ^ 31) (u32 (sub64 (sub64 whole size) 32)))
          ≡ true =
        ground arith in
      rw (d, e, full) refl
]

split_header-this :
    (this size rest : ℕ) (h : Heap)
    → split_header this size rest this h
      ≡ record (h.headers this) { length = size; next = this + size + 32; free = false }
unfolding split_header
split_header-this this size rest h = let e = ==_refl this in rw e refl

split_header-new :
    (this size rest : ℕ) (h : Heap)
    → split_header this size rest (this + size + 32) h ≡ record (h.headers (this + size + 32)) {
      length = rest;
      next = (h.headers this).next;
      free = (h.headers this).free;
    }
unfolding split_header
split_header-new this size rest h =
    let e : (this + size + 32 == this) ≡ false = ground arith in
    let d = ==_refl (this + size + 32) in rw (e, d) refl

split_header-other :
    (this size rest x : ℕ) (h : Heap)
    → x ≢ this
    → x ≢ this + size + 32
    → split_header this size rest x h ≡ h.headers x
unfolding split_header
split_header-other this size rest x h ne apart =
    let e = ne→== x this ne in let d = ne→== x (this + size + 32) apart in rw (e, d) refl

pub Agree-of : (s t : HeapSegHdr) → s ≡ t → Agree s t
Agree-of s t e = (
  ap (λ (u : HeapSegHdr). u.length) e,
  ap (λ (u : HeapSegHdr). u.free) e,
  ap (λ (u : HeapSegHdr). u.next) e,
)

-- The headers that a split leaves are those of the carved block and of the blocks behind it.
split-Segments :
    (m : ℕ → HeapSegHdr) (size a : ℕ) (b : Block) (bs : List Block) (h : Heap)
    → size + 48 ≤ b.size
    → b.is_free ≡ true
    → ((x : ℕ) → Agree (m x) (split_header a size (b.size - size - 32) x h))
    → Segments h.headers a (b ∷ bs)
    → Segments m a (
        record { size = size; is_free = false }
        ∷ record { size = b.size - size - 32; is_free = true }
        ∷ bs)
split-Segments m size a b bs h room is_free there v =
    let rest = b.size - size - 32 in
    let first =
      Agree-trans (m a) (split_header a size rest a h)
        (record (h.headers a) { length = size; next = a + size + 32; free = false }) (there a)
        (Agree-of _ _ (split_header-this a size rest h)) in
    let new =
      Agree-trans (m (a + size + 32)) (split_header a size rest (a + size + 32) h)
        (record (h.headers (a + size + 32)) {
          length = rest;
          next = (h.headers a).next;
          free = (h.headers a).free;
        })
        (there (a + size + 32)) (Agree-of _ _ (split_header-new a size rest h)) in
    let place : a + size + 32 ≡ a + 32 + size = omega arith in
    let back : behind a b ≡ a + 32 + size + 32 + rest = omega arith in
    let others =
      Segments-same h.headers m (behind a b) bs
        (λ x k. Agree-trans (m x) (split_header a size rest x h) (h.headers x) (there x) (
          Agree-of _ _ (
            split_header-other a size rest x h (λ e. omega (arith, e, k))
              (λ e. omega (arith, e, k, room)))))
        (v.3) in
    let behind_new = rw place at new in
    let link = rw back at v.2 in
    (
      first.0,
      first.1,
      first.2 ∙ place,
      (behind_new.0, behind_new.1 ∙ v.1 ∙ is_free, behind_new.2 ∙ link, rw back at others),
    )

-- A segment that is taken as it is.
pub put_free-other :
    (a x : ℕ) (h : Heap) → x ≢ a → Agree ((put_free a false h).headers x) (h.headers x)
put_free-other a x h ne = let e = ne→== x a ne in rw e (refl, refl, refl)

pub take-Segments :
    (a : ℕ) (b : Block) (bs : List Block) (h : Heap)
    → Segments h.headers a (b ∷ bs)
    → Segments (put_free a false h).headers a (record { size = b.size; is_free = false } ∷ bs)
take-Segments a b bs h v =
    let here = ==_refl a in
    let others =
      Segments-same h.headers (put_free a false h).headers (behind a b) bs
        (λ x k. put_free-other a x h (λ e. omega (arith, e, k))) (v.3) in
    (rw here (v.0), rw here refl, rw here (v.2), others)

-- What `search` does at a segment that fits: the blocks from there on are carved.
pub search-here :
    (size a : ℕ) (b : Block) (bs : List Block) (h : Heap)
    → 1 ≤ a
    → 16 ≤ size
    → size < b.size
    → b.is_free ≡ true
    → b.size < 2 ^ 31
    → behind a b < 2 ^ 64
    → Segments h.headers a (b ∷ bs)
    → Segments (put_free a false (split a size h)).headers a (carve size b ++ bs)
      × ((x : ℕ) → x < a → Agree ((put_free a false (split a size h)).headers x) (h.headers x))
search-here size a b bs h pos large less is_free small inside v =
    elim (Bool-cases (leb (size + 48) b.size)) [
      | inl e ↦
          let room : size + 48 ≤ b.size = ground arith in
          rw e (
            split-Segments (put_free a false (split a size h)).headers size a b bs h room is_free
                (λ x. split-room a size b.size x h (v.0) large room small inside) v,
            λ x k.
                Agree-trans ((put_free a false (split a size h)).headers x)
                  (split_header a size (b.size - size - 32) x h) (h.headers x)
                  (split-room a size b.size x h (v.0) large room small inside)
                  (Agree-of _ _ (
                    split_header-other a size (b.size - size - 32) x h (λ d. omega (arith, d, k))
                      (λ d. omega (arith, d, k)))),
          )
      | inr e ↦
          let whole = split-full a size b.size h (v.0) less (ground arith) small in
          rw e (
            subst
              (λ (g : Heap).
                Segments (put_free a false g).headers a
                  (record { size = b.size; is_free = false } ∷ bs)
                × ((x : ℕ) → x < a → Agree ((put_free a false g).headers x) (h.headers x)))
              (sym whole)
              (take-Segments a b bs h v, λ x k. put_free-other a x h (λ d. omega (arith, d, k))))
    ]

note_last-here :
    (this new : ℕ) (h : Heap)
    → h.last_hdr ≡ this
    → (((note_last this new h).headers this).last ≡ new) × ((note_last this new h).last_hdr ≡ this)
unfolding note_last
note_last-here this new h e =
    let here = ==_refl this in
    let last : (h.last_hdr == this) ≡ true = ground arith in rw (last, here) (refl, e)

link_split-last_hdr :
    (this new size rest : ℕ) (h : Heap) → (link_split this new size rest h).last_hdr ≡ h.last_hdr
unfolding link_split
link_split-last_hdr this new size rest h = refl

-- `Split` of the last segment gives it a link backwards to the part behind it, and `LastHdr` still
-- names it, not the new last segment: where the segment has room for the part, below 2 ^ 31 bytes.
pub split-last :
    (this size whole : ℕ) (h : Heap)
    → (h.headers this).length ≡ whole
    → 16 ≤ size
    → size + 48 ≤ whole
    → whole < 2 ^ 31
    → this + 32 + whole < 2 ^ 64
    → h.last_hdr ≡ this
    → (((split this size h).headers this).last ≡ this + size + 32)
      × ((split this size h).last_hdr ≡ this)
unfolding split split_seg_length
split-last this size whole h e large room small inside last =
    let seg : u32 (sub64 (sub64 whole size) 32) ≡ whole - size - 32 = omega arith in
    let new : u64 (this + size + 32) ≡ this + size + 32 = omega arith in
    let not_tiny : ltb size 16 ≡ false = ground arith in
    let fits : (ltb (whole - size - 32) 16 || leb (2 ^ 31) (whole - size - 32)) ≡ false =
      ground arith in
    rw (e, seg, new, not_tiny, fits)
      (note_last-here this (this + size + 32)
        (link_split this (this + size + 32) size (whole - size - 32) h)
        (link_split-last_hdr this (this + size + 32) size (whole - size - 32) h ∙ last))
