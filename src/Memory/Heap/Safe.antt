-- ===== src/Memory/Heap/Safe.antt =====
-- What first fit means for the memory in use.
use husky_os.Base.{
  ℕ, suc, ◌+◌, ◌-◌, ◌^◌, ◌≤◌, ◌<◌, ◌≡◌, ◌⊎◌, inl, inr, true, false, ◌&&◌, some, List, [], ◌∷◌, ◌++◌,
  leb, length, arith, refl, sym, ◌∙◌, Bool-cases,
}
use mathlib.Core.Option.{none-ne-some, some-injective}
use mathlib.Core.Path.{subst}
use mathlib.Core.Bool.{true≢false}
use husky_os.Memory.Heap.{Heap, rounded, malloc}
use husky_os.Memory.Heap.Segments.{
  Block, behind, end_of, end_of-le, Segments, carve, first_fit, behind_block-inv, and_true,
}
use husky_os.Memory.Heap.Fit.{IsSmall, malloc_lem}

-- `n` bytes at `q` are in use: those of a block that is not free, in a heap that starts at `a`.
pub data Used : ℕ → List Block → (q n : ℕ) → Type 0 where
  here :
      {a n : ℕ} {b : Block} {bs : List Block}
      → b.is_free ≡ false
      → b.size ≡ n
      → Used a (b ∷ bs) (a + 32) n
  there : {a q n : ℕ} {b : Block} {bs : List Block} → Used (behind a b) bs q n → Used a (b ∷ bs) q n

Used-inside :
    (a : ℕ) (bs : List Block) (q n : ℕ) → Used a bs q n → (a + 32 ≤ q) × (q + n ≤ end_of a bs)
Used-inside a [] q n u = elim u [ ]
Used-inside a (b ∷ bs) q n (here f e) = (omega arith, omega (arith, e, end_of-le (behind a b) bs))
Used-inside a (b ∷ bs) q n (there u) =
    let r = Used-inside (behind a b) bs q n u in (omega (arith, r.0), r.1)

-- What may be said of a place that is handed out.
IsApart : (a : ℕ) (bs cs : List Block) (p size : ℕ) → Type 0
IsApart a bs cs p size =
    (n : ℕ) × (size ≤ n)
    × Used a cs p n
    × ((q m : ℕ) → Used a bs q m → Used a cs q m × ((q + m ≤ p) ⊎ (p + n ≤ q)))

later-IsApart :
    (a p n q m : ℕ) (b : Block) (bs ds : List Block)
    → Used (behind a b) ds p n
    → ((r k : ℕ)
        → Used (behind a b) bs r k
        → Used (behind a b) ds r k × ((r + k ≤ p) ⊎ (p + n ≤ r)))
    → Used a (b ∷ bs) q m
    → Used a (b ∷ ds) q m × ((q + m ≤ p) ⊎ (p + n ≤ q))
later-IsApart a p n q m b bs ds used apart (here f e) =
    let inside = Used-inside (behind a b) ds p n used in
    (here f e, inl (omega (arith, inside.0, e)))
later-IsApart a p n q m b bs ds used apart (there u) = let r = apart q m u in (there r.0, r.1)

carved-Used :
    (a size q m : ℕ) (b : Block) (bs : List Block)
    → size ≤ b.size
    → Used (behind a b) bs q m
    → Used a (carve size b ++ bs) q m
carved-Used a size q m b bs h u = elim (Bool-cases (leb (size + 48) b.size)) [
  | inl e ↦
      let place : behind a b ≡ a + 32 + size + 32 + (b.size - size - 32) = ground arith in
      rw e (there (there (subst (λ (r : ℕ). Used r bs q m) place u)))
  | inr e ↦ rw e (there u)
]

head-Used :
    (a size q m : ℕ) (b : Block) (bs : List Block)
    → b.is_free ≡ true
    → size ≤ b.size
    → Used a (b ∷ bs) q m
    → Used a (carve size b ++ bs) q m × (behind a b + 32 ≤ q)
head-Used a size q m b bs f h (here g e) = absurd (true≢false (sym f ∙ g))
head-Used a size q m b bs f h (there u) =
    (carved-Used a size q m b bs h u, (Used-inside (behind a b) bs q m u).0)

carve-IsApart :
    (a size : ℕ) (b : Block) (bs : List Block)
    → b.is_free ≡ true
    → size ≤ b.size
    → IsApart a (b ∷ bs) (carve size b ++ bs) (a + 32) size
unfolding IsApart
carve-IsApart a size b bs f h = elim (Bool-cases (leb (size + 48) b.size)) [
  | inl e ↦ (
    size,
    omega arith,
    rw e (here refl refl),
    λ q m u. (let r = head-Used a size q m b bs f h u in (r.0, inr (omega (arith, r.1, h)))),
  )
  | inr e ↦ (
    b.size,
    h,
    rw e (here refl refl),
    λ q m u. (let r = head-Used a size q m b bs f h u in (r.0, inr (omega (arith, r.1)))),
  )
]

first_fit-IsApart :
    (a size p : ℕ) (bs cs : List Block)
    → first_fit a size bs ≡ some (p, cs)
    → IsApart a bs cs p size
unfolding IsApart
first_fit-IsApart a size p [] cs e = absurd (none-ne-some (p, cs) e)
first_fit-IsApart a size p (b ∷ bs) cs e = elim (Bool-cases (b.is_free && leb size b.size)) [
  | inl d ↦
      let whole = some-injective (a + 32, carve size b ++ bs) (p, cs) (rw d at e) in
      let both = and_true b.is_free (leb size b.size) d in
      subst (λ (t : ℕ × List Block). IsApart a (b ∷ bs) (t.1) (t.0) size) whole
        (carve-IsApart a size b bs (both.0) (ground (arith, both.1)))
  | inr d ↦
      let (ds, inside, shape) =
        behind_block-inv b (first_fit (behind a b) size bs) p cs (rw d at e) in
      let (n, large, used, apart) = first_fit-IsApart (behind a b) size p bs ds inside in
      subst (λ (t : List Block). IsApart a (b ∷ bs) t p size) (sym shape)
        (n, large, there used, λ q m u. later-IsApart a p n q m b bs ds used apart u)
]

-- Memory that `malloc` hands out is in use afterwards, at least as much as was asked for; what was
-- in use before stays in use, and does not overlap it. This is where first fit finds a free segment
-- for the size rounded up to a multiple of 16, with fuel of a round for each segment, for sizes
-- from 1 on and below 2 ^ 31 - 16, segments below 2 ^ 31 bytes and a heap that starts above 0 and
-- does not reach the end of the address space.
pub malloc_safe :
    (rounds fuel size p : ℕ) (bs cs : List Block) (h : Heap)
    → length bs ≤ fuel
    → 1 ≤ size
    → size < 2 ^ 31 - 16
    → 1 ≤ h.heap_start
    → IsSmall h.heap_start bs
    → Segments h.headers h.heap_start bs
    → first_fit h.heap_start (rounded size) bs ≡ some (p, cs)
    → (g : Heap) × (malloc (suc rounds) fuel size h ≡ some (p, g))
      × Segments g.headers h.heap_start cs
      × ((n : ℕ) × (size ≤ n)
          × Used h.heap_start cs p n
          × ((q m : ℕ)
              → Used h.heap_start bs q m
              → Used h.heap_start cs q m × ((q + m ≤ p) ⊎ (p + n ≤ q))))
unfolding IsApart
malloc_safe rounds fuel size p bs cs h enough some_bytes small pos fits v found =
    let (g, done, w) =
      malloc_lem rounds fuel size p bs cs h enough some_bytes small pos fits v found in
    let (n, large, used, apart) = first_fit-IsApart h.heap_start (rounded size) p bs cs found in
    let whole : size ≤ rounded size = unfold rounded in ground arith in
    (g, done, w, (n, omega (arith, whole, large), used, apart))
