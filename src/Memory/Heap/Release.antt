-- ===== src/Memory/Heap/Release.antt =====
-- `free`: a segment is freed and joined with its free neighbours.
use husky_os.Base.{
  ℕ, ◌+◌, ◌^◌, ◌≤◌, ◌<◌, ◌≡◌, ◌≢◌, true, false, List, [], ◌∷◌, ◌==◌, ==_refl, ne→==, if◌then◌else◌,
  u64, arith, refl, sym, ap, ◌∙◌, inl, inr, Bool-cases,
}
use mathlib.Core.Path.{subst}
use husky_os.Memory.Heap.{HeapSegHdr, Heap, combine_forward}
use husky_os.Memory.Heap.Segments.{
  Block, behind, end_of, end_of-le, follow, Segments, Agree, Agree-trans, Segments-same,
}
use husky_os.Memory.Heap.Split.{put_last-Agree, Agree-of}

-- A block and the next, if that is free.
abbrev pub join : Block → List Block → List Block
join b [] = b ∷ []
join b (c ∷ cs) =
    if c.is_free
    then record { size = b.size + c.size + 32; is_free = b.is_free } ∷ cs
    else b ∷ c ∷ cs

abbrev pub freed : Block → Block
freed b = record b { is_free = true }

abbrev joined_header : (a length next x : ℕ) → Heap → HeapSegHdr
joined_header a length next x h =
    if x == a then record (h.headers x) { length = length; next = next } else h.headers x

-- `CombineForward` where the next segment is free.
combine_forward-joins :
    (a size next_size beyond x : ℕ) (h : Heap)
    → (h.headers a).length ≡ size
    → ((h.headers a).next == 0) ≡ false
    → (h.headers (h.headers a).next).free ≡ true
    → (h.headers (h.headers a).next).length ≡ next_size
    → (h.headers (h.headers a).next).next ≡ beyond
    → size + next_size + 32 < 2 ^ 64
    → Agree ((combine_forward a h).headers x) (joined_header a (size + next_size + 32) beyond x h)
unfolding combine_forward
combine_forward-joins a size next_size beyond x h e some_next f d n inside =
    let sum : u64 (size + next_size + 32) ≡ size + next_size + 32 = omega arith in
    elim (Bool-cases (beyond == 0)) [
      | inl z ↦ elim (Bool-cases (x == a)) [
        | inl y ↦ rw (some_next, f, n, z, e, d, sum, y) (refl, refl, refl)
        | inr y ↦ rw (some_next, f, n, z, e, d, sum, y) (refl, refl, refl)
      ]
      | inr z ↦ elim (Bool-cases (x == a)) [
        | inl y ↦
            rw (some_next, f, n, z, e, d, sum, y) (refl, (put_last-Agree beyond a x h).1, refl)
        | inr y ↦ rw (some_next, f, n, z, e, d, sum, y) (put_last-Agree beyond a x h)
      ]
    ]

-- `CombineForward` leaves a segment's own link backwards alone, unless the list is a ring.
combine_forward-last :
    (a : ℕ) (h : Heap)
    → (h.headers (h.headers a).next).next ≢ a
    → ((combine_forward a h).headers a).last ≡ (h.headers a).last
unfolding combine_forward
combine_forward-last a h apart =
    let here = ==_refl a in
    let other = ne→== a (h.headers (h.headers a).next).next (λ e. apart (sym e)) in
    elim (Bool-cases ((h.headers a).next == 0)) [
      | inl e ↦ rw e refl
      | inr e ↦ elim (Bool-cases (h.headers (h.headers a).next).free) [
        | inr f ↦ rw (e, f) refl
        | inl f ↦ elim (Bool-cases ((h.headers (h.headers a).next).next == 0)) [
          | inl z ↦ rw (e, f, z, here) refl
          | inr z ↦ rw (e, f, z, here, other) refl
        ]
      ]
    ]

combine_forward-end : (a : ℕ) (h : Heap) → (h.headers a).next ≡ 0 → combine_forward a h ≡ h
unfolding combine_forward
combine_forward-end a h e = rw e refl

combine_forward-used :
    (a : ℕ) (h : Heap) → (h.headers (h.headers a).next).free ≡ false → combine_forward a h ≡ h
unfolding combine_forward
combine_forward-used a h f = elim (Bool-cases ((h.headers a).next == 0)) [
  | inl e ↦ rw e refl
  | inr e ↦ rw (e, f) refl
]

-- The segments from `a` on, with the first of them joined with the next.
unfoldable pub Joined : (a : ℕ) (b : Block) (bs : List Block) → Heap → Heap → Type 0
Joined a b bs h g =
    Segments g.headers a (join b bs)
    × ((x : ℕ) → x < a → Agree (g.headers x) (h.headers x))
    × ((g.headers a).last ≡ (h.headers a).last)

unchanged :
    (a : ℕ) (b : Block) (bs : List Block) (h g : Heap)
    → g ≡ h
    → join b bs ≡ b ∷ bs
    → Segments h.headers a (b ∷ bs)
    → Joined a b bs h g
unfolding Joined
unchanged a b bs h g e j v =
    subst (λ (f : Heap). Joined a b bs h f) (sym e)
      (
        subst (λ (t : List Block). Segments h.headers a t) (sym j) v,
        λ x k. (refl, refl, refl),
        refl,
      )

follow-ne : (a x : ℕ) (bs : List Block) → a < x → 1 ≤ a → follow x bs ≢ a
follow-ne a x [] h pos e = omega (arith, e, pos)
follow-ne a x (b ∷ bs) h pos e = omega (arith, e, h)

joined_header-at :
    (a length next : ℕ) (h : Heap)
    → joined_header a length next a h ≡ record (h.headers a) { length = length; next = next }
joined_header-at a length next h = let e = ==_refl a in rw e refl

joined_header-other :
    (a length next x : ℕ) (h : Heap) → x ≢ a → joined_header a length next x h ≡ h.headers x
joined_header-other a length next x h ne = let e = ne→== x a ne in rw e refl

-- The headers that a join leaves are those of the joined block and of the blocks behind it.
joined-Segments :
    (m : ℕ → HeapSegHdr) (a : ℕ) (b c : Block) (cs : List Block) (h : Heap)
    → ((x : ℕ)
        → Agree
            (m x)
            (joined_header a (b.size + c.size + 32) (follow (behind (behind a b) c) cs) x h))
    → Segments h.headers a (b ∷ c ∷ cs)
    → Segments m a (record { size = b.size + c.size + 32; is_free = b.is_free } ∷ cs)
joined-Segments m a b c cs h there v =
    let beyond = behind (behind a b) c in
    let first =
      Agree-trans (m a) (joined_header a (b.size + c.size + 32) (follow beyond cs) a h)
        (record (h.headers a) { length = b.size + c.size + 32; next = follow beyond cs }) (there a)
        (Agree-of _ _ (joined_header-at a (b.size + c.size + 32) (follow beyond cs) h)) in
    let place : beyond ≡ a + 32 + (b.size + c.size + 32) = omega arith in
    let others =
      Segments-same h.headers m beyond cs
        (λ x k.
          Agree-trans (m x) (joined_header a (b.size + c.size + 32) (follow beyond cs) x h)
            (h.headers x) (there x)
            (Agree-of _ _ (
              joined_header-other a (b.size + c.size + 32) (follow beyond cs) x h
                (λ e. omega (arith, e, k)))))
        (v.3.3) in
    (
      first.0,
      first.1 ∙ v.1,
      first.2 ∙ ap (λ (r : ℕ). follow r cs) place,
      subst (λ (r : ℕ). Segments m r cs) place others,
    )

pub combine_forward-Joined :
    (a : ℕ) (b : Block) (bs : List Block) (h : Heap)
    → 1 ≤ a
    → end_of a (b ∷ bs) < 2 ^ 64
    → Segments h.headers a (b ∷ bs)
    → Joined a b bs h (combine_forward a h)
unfolding Joined
combine_forward-Joined a b [] h pos inside v =
    unchanged a b [] h (combine_forward a h) (combine_forward-end a h (v.2)) refl v
combine_forward-Joined a b (c ∷ cs) h pos inside v = elim (Bool-cases c.is_free) [
  | inr f ↦
      unchanged a b (c ∷ cs) h (combine_forward a h)
        (combine_forward-used a h (ap (λ (n : ℕ). (h.headers n).free) v.2 ∙ v.3.1 ∙ f)) (rw f refl)
        v
  | inl f ↦
      let beyond = behind (behind a b) c in
      let next_length = ap (λ (n : ℕ). (h.headers n).length) v.2 ∙ v.3.0 in
      let next_free = ap (λ (n : ℕ). (h.headers n).free) v.2 ∙ v.3.1 ∙ f in
      let next_next = ap (λ (n : ℕ). (h.headers n).next) v.2 ∙ v.3.2 in
      let some_next : ((h.headers a).next == 0) ≡ false = ground (arith, v.2) in
      let bound = end_of-le beyond cs in
      let apart : (h.headers (h.headers a).next).next ≢ a =
        λ e. follow-ne a beyond cs (omega arith) pos (sym next_next ∙ e) in
      rw f (
        joined-Segments (combine_forward a h).headers a b c cs h
            (λ x.
              combine_forward-joins a b.size c.size (follow beyond cs) x h (v.0) some_next next_free
                next_length next_next (omega (arith, bound, inside)))
            v,
        λ x k.
            Agree-trans ((combine_forward a h).headers x)
              (joined_header a (b.size + c.size + 32) (follow beyond cs) x h) (h.headers x)
              (combine_forward-joins a b.size c.size (follow beyond cs) x h (v.0) some_next
                next_free next_length next_next (omega (arith, bound, inside)))
              (Agree-of _ _ (
                joined_header-other a (b.size + c.size + 32) (follow beyond cs) x h
                  (λ e. omega (arith, e, k)))),
        combine_forward-last a h apart,
      )
]
