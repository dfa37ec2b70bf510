-- ===== src/Memory/Heap/Free.antt =====
-- `free` on the list of blocks.
use husky_os.Base.{
  ℕ, ◌+◌, ◌^◌, ◌≤◌, ◌<◌, ◌≡◌, ◌≢◌, Bool, true, false, List, [], ◌∷◌, ◌++◌, ◌==◌, ==_refl, ne→==,
  if◌then◌else◌, sub64, arith, refl, sym, ap, ◌∙◌, inl, inr, Bool-cases,
}
use mathlib.Core.Path.{subst}
use husky_os.Memory.Heap.{HeapSegHdr, Heap, put_free, combine_forward, combine_backward, free}
use husky_os.Memory.Heap.Segments.{
  Block, behind, end_of, end_of-le, follow, Segments, Agree, Agree-trans, Segments-same,
}
use husky_os.Memory.Heap.Release.{join, freed, Joined, combine_forward-Joined}

-- A freed block `b` behind `c`: joined with the next block and with `c`, where these are free.
abbrev pub coalesced : (c b : Block) → List Block → List Block
coalesced c b bs = let joined = join (freed b) bs in if c.is_free then join c joined else c ∷ joined

join-follow : (x : ℕ) (b : Block) (bs : List Block) → follow x (join b bs) ≡ x
join-follow x b [] = refl
join-follow x b (c ∷ cs) = elim (Bool-cases c.is_free) [ inl e ↦ rw e refl | inr e ↦ rw e refl ]

pub end_of-join : (x : ℕ) (b : Block) (bs : List Block) → end_of x (join b bs) ≡ end_of x (b ∷ bs)
end_of-join x b [] = refl
end_of-join x b (c ∷ cs) = elim (Bool-cases c.is_free) [
  | inl e ↦ rw e (ap (λ (r : ℕ). end_of r cs) (omega arith))
  | inr e ↦ rw e refl
]

-- `segment->free = true`
put_free-here :
    (a : ℕ) (h : Heap) → (put_free a true h).headers a ≡ record (h.headers a) { free = true }
put_free-here a h = let e = ==_refl a in rw e refl

put_free-away : (a x : ℕ) (h : Heap) → x ≢ a → (put_free a true h).headers x ≡ h.headers x
put_free-away a x h ne = let e = ne→== x a ne in rw e refl

same-Agree : (s t : HeapSegHdr) → s ≡ t → Agree s t
same-Agree s t e = subst (λ (u : HeapSegHdr). Agree s u) e (refl, refl, refl)

freed-Segments :
    (a : ℕ) (b : Block) (bs : List Block) (h : Heap)
    → Segments h.headers a (b ∷ bs)
    → Segments (put_free a true h).headers a (freed b ∷ bs)
freed-Segments a b bs h v =
    let here = put_free-here a h in
    (
      ap (λ (s : HeapSegHdr). s.length) here ∙ v.0,
      ap (λ (s : HeapSegHdr). s.free) here,
      ap (λ (s : HeapSegHdr). s.next) here ∙ v.2,
      Segments-same h.headers (put_free a true h).headers (behind a b) bs
          (λ x k. same-Agree _ _ (put_free-away a x h (λ e. omega (arith, e, k)))) (v.3),
    )

combine_backward-used :
    (this prev : ℕ) (h : Heap)
    → (h.headers this).last ≡ prev
    → (h.headers prev).free ≡ false
    → combine_backward this h ≡ h
unfolding combine_backward
combine_backward-used this prev h e f = elim (Bool-cases (prev == 0)) [
  | inl z ↦ rw (e, z) refl
  | inr z ↦ rw (e, z, f) refl
]

combine_backward-free :
    (this prev : ℕ) (h : Heap)
    → (h.headers this).last ≡ prev
    → 1 ≤ prev
    → (h.headers prev).free ≡ true
    → combine_backward this h ≡ combine_forward prev h
unfolding combine_backward
combine_backward-free this prev h e pos f =
    let some_last : (prev == 0) ≡ false = ground arith in rw (e, some_last, f) refl

-- The segments from `a` on, and the headers below it.
Leaves : (a : ℕ) → List Block → Heap → Heap → Type 0
Leaves a bs h g = Segments g.headers a bs × ((x : ℕ) → x < a → Agree (g.headers x) (h.headers x))

-- The segment is freed and joined with the next.
forward :
    (a : ℕ) (c b : Block) (bs : List Block) (h : Heap)
    → 1 ≤ a
    → end_of a (c ∷ b ∷ bs) < 2 ^ 64
    → Segments h.headers a (c ∷ b ∷ bs)
    → let g = combine_forward (behind a c) (put_free (behind a c) true h) in
      Leaves a (c ∷ join (freed b) bs) h g
      × ((g.headers (behind a c)).last ≡ (h.headers (behind a c)).last)
unfolding Leaves Joined
forward a c b bs h pos inside v =
    let this = behind a c in
    let marked = freed-Segments this b bs h v.3 in
    let (there, below, kept) =
      combine_forward-Joined this (freed b) bs (put_free this true h) (omega arith) inside marked in
    let low = λ (x : ℕ) (k : x < this).
      Agree-trans ((combine_forward this (put_free this true h)).headers x)
        ((put_free this true h).headers x) (h.headers x) (below x k)
        (same-Agree _ _ (put_free-away this x h (λ e. omega (arith, e, k)))) in
    let first = low a (omega arith) in
    (
      (
        (first.0 ∙ v.0, first.1 ∙ v.1, first.2 ∙ v.2 ∙ sym (join-follow this (freed b) bs), there),
        λ x k. low x (omega (arith, k)),
      ),
      kept ∙ ap (λ (s : HeapSegHdr). s.last) (put_free-here this h),
    )

Leaves-eq :
    (a : ℕ) (bs cs : List Block) (h g k : Heap)
    → bs ≡ cs
    → g ≡ k
    → Leaves a bs h g
    → Leaves a cs h k
Leaves-eq a bs cs h g k e d v =
    subst (λ (l : Heap). Leaves a cs h l) d (subst (λ (ds : List Block). Leaves a ds h g) e v)

free-pair :
    (a : ℕ) (c b : Block) (bs : List Block) (h : Heap)
    → 1 ≤ a
    → end_of a (c ∷ b ∷ bs) < 2 ^ 64
    → Segments h.headers a (c ∷ b ∷ bs)
    → (h.headers (behind a c)).last ≡ a
    → Leaves a (coalesced c b bs) h (free (behind a c + 32) h)
unfolding free Leaves Joined
free-pair a c b bs h pos inside v link =
    let this = behind a c in
    let g = combine_forward this (put_free this true h) in
    let ((there, below), kept) = forward a c b bs h pos inside v in
    let segment : sub64 (this + 32) 32 ≡ this =
      omega (arith, end_of-le (behind this b) bs, inside) in
    let back = kept ∙ link in
    let whole =
      ap (λ (r : ℕ). combine_backward r (combine_forward r (put_free r true h))) segment in
    elim (Bool-cases c.is_free) [
      | inl f ↦
          let bound : end_of a (c ∷ join (freed b) bs) < 2 ^ 64 =
            omega (arith, end_of-join this (freed b) bs, inside) in
          let (joined, low, last) =
            combine_forward-Joined a c (join (freed b) bs) g pos bound there in
          Leaves-eq a (join c (join (freed b) bs)) (coalesced c b bs) h (combine_forward a g)
            (free (this + 32) h)
            (ap (λ (t : Bool). if t then join c (join (freed b) bs) else c ∷ join (freed b) bs)
              (sym f))
            (sym (whole ∙ combine_backward-free this a g back pos (there.1 ∙ f)))
            (
              joined,
              λ x k.
                  Agree-trans ((combine_forward a g).headers x) (g.headers x) (h.headers x)
                    (low x k) (below x k),
            )
      | inr f ↦
          Leaves-eq a (c ∷ join (freed b) bs) (coalesced c b bs) h g (free (this + 32) h)
            (ap (λ (t : Bool). if t then join c (join (freed b) bs) else c ∷ join (freed b) bs)
              (sym f))
            (sym (whole ∙ combine_backward-used this a g back (there.1 ∙ f))) (there, below)
    ]

coalesced-follow : (a : ℕ) (c b : Block) (bs : List Block) → follow a (coalesced c b bs) ≡ a
coalesced-follow a c b bs =
    elim c.is_free
      as (λ (t : Bool).
        follow a (if t then join c (join (freed b) bs) else c ∷ join (freed b) bs) ≡ a) [
          | true ↦ join-follow a c (join (freed b) bs)
          | false ↦ refl
        ]

follow-append :
    (x : ℕ) (before bs cs : List Block)
    → follow (end_of x before) bs ≡ end_of x before
    → follow (end_of x before) cs ≡ end_of x before
    → follow x (before ++ bs) ≡ follow x (before ++ cs)
follow-append x [] bs cs hb hc = hb ∙ sym hc
follow-append x (b ∷ before) bs cs hb hc = refl

-- What happens from some address on does not matter to the blocks before it.
spliced :
    (n m : ℕ → HeapSegHdr) (a : ℕ) (before bs cs : List Block)
    → ((x : ℕ) → x < end_of a before → Agree (m x) (n x))
    → follow (end_of a before) bs ≡ end_of a before
    → follow (end_of a before) cs ≡ end_of a before
    → Segments n a (before ++ bs)
    → Segments m (end_of a before) cs
    → Segments m a (before ++ cs)
spliced n m a [] bs cs same hb hc v w = w
spliced n m a (b ∷ before) bs cs same hb hc v w =
    let here = same a (omega (arith, end_of-le (behind a b) before)) in
    (
      here.0 ∙ v.0,
      here.1 ∙ v.1,
      here.2 ∙ v.2 ∙ follow-append (behind a b) before bs cs hb hc,
      spliced n m (behind a b) before bs cs same hb hc v.3 w,
    )

end_of-append : (a : ℕ) (bs cs : List Block) → end_of a (bs ++ cs) ≡ end_of (end_of a bs) cs
end_of-append a [] cs = refl
end_of-append a (b ∷ bs) cs = end_of-append (behind a b) bs cs

Segments-behind :
    (n : ℕ → HeapSegHdr) (a : ℕ) (before bs : List Block)
    → Segments n a (before ++ bs)
    → Segments n (end_of a before) bs
Segments-behind n a [] bs v = v
Segments-behind n a (b ∷ before) bs v = Segments-behind n (behind a b) before bs v.3

-- `free` gives back the block `b` behind a block `c`: it is free then, and joined with the block
-- behind it and with `c`, where these are free; the other blocks stay as they are. This is where
-- the block's own link backwards leads to `c` and the heap does not reach the end of the address
-- space.
pub free_lem :
    (before bs : List Block) (c b : Block) (h : Heap)
    → 1 ≤ h.heap_start
    → end_of h.heap_start (before ++ c ∷ b ∷ bs) < 2 ^ 64
    → Segments h.headers h.heap_start (before ++ c ∷ b ∷ bs)
    → (h.headers (behind (end_of h.heap_start before) c)).last ≡ end_of h.heap_start before
    → Segments
        (free (behind (end_of h.heap_start before) c + 32) h).headers
        h.heap_start
        (before ++ coalesced c b bs)
unfolding Leaves
free_lem before bs c b h pos inside v link =
    let a = end_of h.heap_start before in
    let (there, below) =
      free-pair a c b bs h (omega (arith, end_of-le h.heap_start before))
        (omega (arith, end_of-append h.heap_start before (c ∷ b ∷ bs), inside))
        (Segments-behind h.headers h.heap_start before (c ∷ b ∷ bs) v) link in
    spliced h.headers (free (behind a c + 32) h).headers h.heap_start before (c ∷ b ∷ bs)
      (coalesced c b bs) below refl (coalesced-follow a c b bs) v there
