-- ===== src/Klib/Linked/Chain.antt =====
-- Chains of nodes that point at one another in both directions, and changes to them.
use husky_os.Base.{
  ℕ, ◌≡◌, ◌≢◌, List, [], ◌∷◌, ◌++◌, ◌==◌, if◌then◌else◌, All, arith, sym, ◌∙◌, All-append,
}
use husky_os.Klib.Linked.{Node, set_next, set_prev}

abbrev pub first_or : ℕ → List ℕ → ℕ
first_or d [] = d
first_or d (a ∷ as') = a

abbrev pub last_or : ℕ → List ℕ → ℕ
last_or d [] = d
last_or d (a ∷ as') = last_or a as'

-- The nodes `as'`, behind `prev`, are linked in this order, and are all different.
abbrev pub Chain : (ℕ → Node) → (prev : ℕ) → List ℕ → Type 0
Chain nodes prev [] = Unit
Chain nodes prev (a ∷ as') =
    (a ≢ 0)
    × ((nodes a).prev ≡ prev)
    × ((nodes a).next ≡ first_or 0 as')
    × All (λ b. a ≢ b) as'
    × Chain nodes a as'

pub last_or-ne : (a d : ℕ) (as' : List ℕ) → a ≢ d → All (λ b. a ≢ b) as' → a ≢ last_or d as'
last_or-ne a d [] h ne = h
last_or-ne a d (b ∷ as') h ne = last_or-ne a b as' ne.0 ne.1

first_or-ne : (a d : ℕ) (as' : List ℕ) → a ≢ d → All (λ b. a ≢ b) as' → a ≢ first_or d as'
first_or-ne a d [] h ne = h
first_or-ne a d (b ∷ as') h ne = ne.0

-- The nodes of a chain are all that it depends on.
pub Chain-same :
    (n m : ℕ → Node) (p : ℕ) (as' : List ℕ)
    → All (λ a. m a ≡ n a) as'
    → Chain n p as'
    → Chain m p as'
Chain-same n m p [] same c = tt
Chain-same n m p (a ∷ as') same c = rw same.0 (c.0, c.1, c.2, c.3, Chain-same n m a as' same.1 c.4)

-- `x` is taken out between its neighbours.
abbrev pub unlinked : (ℕ → Node) → (prev next : ℕ) → ℕ → Node
unlinked n q r k =
    let m = if q == 0 then n else set_next n q r in (if r == 0 then m else set_prev m r q) k

unlinked_other : (n : ℕ → Node) (q r k : ℕ) → k ≢ q → k ≢ r → unlinked n q r k ≡ n k
unlinked_other n q r k h h' = ground arith

unlinked-All :
    (n : ℕ → Node) (q r : ℕ) (as' : List ℕ)
    → All (λ b. q ≢ b) as'
    → All (λ b. r ≢ b) as'
    → All (λ a. unlinked n q r a ≡ n a) as'
unlinked-All n q r [] h h' = tt
unlinked-All n q r (a ∷ as') h h' =
    (unlinked_other n q r a (λ e. h.0 (sym e)) (λ e. h'.0 (sym e)), unlinked-All n q r as' h.1 h'.1)

-- The chain from the removed node's successor on.
Chain-tail :
    (n : ℕ → Node) (p x : ℕ) (bs : List ℕ)
    → All (λ b. p ≢ b) bs
    → Chain n p (x ∷ bs)
    → Chain (unlinked n p (first_or 0 bs)) p bs
Chain-tail n p x [] h c = tt
Chain-tail n p x (b ∷ bs) h c =
    let d = c.4 in
    (
      d.0,
      ground (arith, d.0),
      ground (arith, d.0, h.0, d.2),
      d.3,
      Chain-same n (unlinked n p b) b bs (unlinked-All n p b bs h.1 d.3) d.4,
    )

All-left {ℓ κ} : {A : Type ℓ} (P : A → Type κ) (xs ys : List A) → All P (xs ++ ys) → All P xs
All-left P [] ys h = tt
All-left P (x ∷ xs) ys h = (h.0, All-left P xs ys h.1)

All-right {ℓ κ} : {A : Type ℓ} (P : A → Type κ) (xs ys : List A) → All P (xs ++ ys) → All P ys
All-right P [] ys h = h
All-right P (x ∷ xs) ys h = All-right P xs ys h.1

All-without {ℓ κ} :
    {A : Type ℓ} (P : A → Type κ) (xs : List A) (x : A) (ys : List A)
    → All P (xs ++ (x ∷ ys))
    → All P (xs ++ ys)
All-without P xs x ys h =
    All-append P xs ys (All-left P xs (x ∷ ys) h) (All-right P xs (x ∷ ys) h).1

-- What `unlinked` does to the node before the one that is taken out.
unlinked-prev :
    (n : ℕ → Node) (a r : ℕ)
    → a ≢ 0
    → a ≢ r
    → ((unlinked n a r a).prev ≡ (n a).prev) × ((unlinked n a r a).next ≡ r)
unlinked-prev n a r h ne = ground arith

-- Taking a node out of a chain leaves the chain of the others.
pub Chain-unlinked :
    (n : ℕ → Node) (p : ℕ) (as' : List ℕ) (x : ℕ) (bs : List ℕ)
    → All (λ b. p ≢ b) (as' ++ (x ∷ bs))
    → Chain n p (as' ++ (x ∷ bs))
    → Chain (unlinked n (last_or p as') (first_or 0 bs)) p (as' ++ bs)
Chain-unlinked n p [] x bs h c = Chain-tail n p x bs h.1 c
Chain-unlinked n p (a ∷ []) x bs h c =
    let away = c.3.1 in
    let u = unlinked-prev n a (first_or 0 bs) c.0 (first_or-ne a 0 bs c.0 away) in
    (c.0, u.0 ∙ c.1, u.1, away, Chain-tail n a x bs away c.4)
Chain-unlinked n p (a ∷ b ∷ as') x bs h c =
    let away : All (λ k. a ≢ k) (b ∷ (as' ++ bs)) = All-without (λ k. a ≢ k) (b ∷ as') x bs c.3 in
    let same : unlinked n (last_or b as') (first_or 0 bs) a ≡ n a =
      unlinked_other n (last_or b as') (first_or 0 bs) a
        (last_or-ne a b as' away.0 (All-left (λ k. a ≢ k) as' bs away.1))
        (first_or-ne a 0 bs c.0 (All-right (λ k. a ≢ k) as' bs away.1)) in
    rw same (c.0, c.1, c.2, away, Chain-unlinked n a (b ∷ as') x bs c.3 c.4)

-- A node's neighbours.
pub Chain-at :
    (n : ℕ → Node) (p : ℕ) (as' : List ℕ) (x : ℕ) (bs : List ℕ)
    → Chain n p (as' ++ (x ∷ bs))
    → ((n x).prev ≡ last_or p as')
      × ((n x).next ≡ first_or 0 bs)
      × All (λ b. b ≢ x) as'
      × All (λ b. x ≢ b) bs
Chain-at n p [] x bs c = (c.1, c.2, tt, c.3)
Chain-at n p (a ∷ as') x bs c =
    let r = Chain-at n a as' x bs c.4 in
    (r.0, r.1, ((All-right (λ k. a ≢ k) as' (x ∷ bs) c.3).0, r.2), r.3)

-- `x` is put behind the node `t`.
abbrev pub linked_behind : (ℕ → Node) → (t x : ℕ) → ℕ → Node
linked_behind n t x = set_prev (set_next (set_next n x 0) t x) x t

pub Chain-linked_behind :
    (n : ℕ → Node) (p a : ℕ) (as' : List ℕ) (x : ℕ)
    → x ≢ 0
    → All (λ b. b ≢ x) (a ∷ as')
    → Chain n p (a ∷ as')
    → Chain (linked_behind n (last_or a as') x) p (a ∷ (as' ++ (x ∷ [])))
Chain-linked_behind n p a [] x h new c = (
  c.0,
  ground (arith, new.0, c.1),
  ground (arith, new.0),
  (new.0, tt),
  (h, ground arith, ground (arith, new.0), tt, tt),
)
Chain-linked_behind n p a (b ∷ as') x h new c =
    let away = last_or-ne a b as' c.3.0 c.3.1 in
    (
      c.0,
      ground (arith, new.0, away, c.1),
      ground (arith, new.0, away, c.2),
      All-append (λ k. a ≢ k) (b ∷ as') (x ∷ []) c.3 (new.0, tt),
      Chain-linked_behind n a b as' x h new.1 c.4,
    )
