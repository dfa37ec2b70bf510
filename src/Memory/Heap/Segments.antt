-- ===== src/Memory/Heap/Segments.antt =====
-- The segments of the heap as a list of blocks that lie one behind the other.
use husky_os.Base.{
  ℕ, ◌+◌, ◌-◌, ◌≤◌, ◌≡◌, Bool, true, false, Option, some, none, List, [], ◌∷◌, ◌++◌, if◌then◌else◌,
  leb, ◌&&◌, ◌-◌, arith, refl, sym, ap, ◌∙◌,
}
use mathlib.Core.Option.{none-ne-some, some-injective}
use husky_os.Memory.Heap.{HeapSegHdr}

pub record Block : Type 0 where
  pub size : ℕ
  pub is_free : Bool

-- The address behind a block at `a`.
abbrev pub behind : ℕ → Block → ℕ
behind a b = a + 32 + b.size

abbrev pub end_of : ℕ → List Block → ℕ
end_of a [] = a
end_of a (b ∷ bs) = end_of (behind a b) bs

-- The link to what follows at `a`.
abbrev pub follow : ℕ → List Block → ℕ
follow a [] = 0
follow a (b ∷ bs) = a

-- The headers from `a` on are those of the blocks, each linked to the next.
abbrev pub Segments : (ℕ → HeapSegHdr) → ℕ → List Block → Type 0
Segments n a [] = Unit
Segments n a (b ∷ bs) =
    ((n a).length ≡ b.size)
    × ((n a).free ≡ b.is_free)
    × ((n a).next ≡ follow (behind a b) bs)
    × Segments n (behind a b) bs

-- Two headers agree but for the links backwards.
abbrev pub Agree : HeapSegHdr → HeapSegHdr → Type 0
Agree s t = (s.length ≡ t.length) × (s.free ≡ t.free) × (s.next ≡ t.next)

pub Agree-trans : (s t u : HeapSegHdr) → Agree s t → Agree t u → Agree s u
Agree-trans s t u d e = (d.0 ∙ e.0, d.1 ∙ e.1, d.2 ∙ e.2)

-- Segments depend on the headers from their start on.
pub Segments-same :
    (n m : ℕ → HeapSegHdr) (a : ℕ) (bs : List Block)
    → ((x : ℕ) → a ≤ x → Agree (m x) (n x))
    → Segments n a bs
    → Segments m a bs
Segments-same n m a [] same v = tt
Segments-same n m a (b ∷ bs) same v =
    let here = same a (omega arith) in
    (
      here.0 ∙ v.0,
      here.1 ∙ v.1,
      here.2 ∙ v.2,
      Segments-same n m (behind a b) bs (λ x h. same x (omega arith)) v.3,
    )

pub end_of-le : (a : ℕ) (bs : List Block) → a ≤ end_of a bs
end_of-le a [] = omega arith
end_of-le a (b ∷ bs) = omega (arith, end_of-le (behind a b) bs)

-- A block from which `size` bytes are taken: what is left is a block of its own where it has room
-- for a header and 16 bytes.
abbrev pub carve : (size : ℕ) → Block → List Block
carve size b =
    if leb (size + 48) b.size
    then record { size = size; is_free = false }
      ∷ record { size = b.size - size - 32; is_free = true }
      ∷ []
    else record { size = b.size; is_free = false } ∷ []

abbrev pub behind_block : Block → Option (ℕ × List Block) → Option (ℕ × List Block)
behind_block b none = none
behind_block b (some (p, bs)) = some (p, b ∷ bs)

-- First fit: the address handed out, and the blocks then.
abbrev pub first_fit : (a size : ℕ) → List Block → Option (ℕ × List Block)
first_fit a size [] = none
first_fit a size (b ∷ bs) =
    let on = behind_block b (first_fit (behind a b) size bs) in
    if b.is_free && leb size b.size then some (a + 32, carve size b ++ bs) else on

pub and_true : (a b : Bool) → a && b ≡ true → (a ≡ true) × (b ≡ true)
and_true true b e = (refl, e)
and_true false b e = ground arith

pub behind_block-inv :
    (b : Block) (o : Option (ℕ × List Block)) (p : ℕ) (cs : List Block)
    → behind_block b o ≡ some (p, cs)
    → (ds : List Block) × (o ≡ some (p, ds)) × (cs ≡ b ∷ ds)
behind_block-inv b none p cs e = absurd (none-ne-some (p, cs) e)
behind_block-inv b (some (q, ds)) p cs e =
    let whole = some-injective (q, b ∷ ds) (p, cs) e in
    (
      ds,
      ap (λ (r : ℕ). some (r, ds)) (ap (λ (t : ℕ × List Block). t.0) whole),
      sym (ap (λ (t : ℕ × List Block). t.1) whole),
    )
