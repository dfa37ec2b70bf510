-- ===== src/Klib/Linked/Ends.antt =====
-- A list as the sequence of its nodes, and what the operations do to the sequence.
use husky_os.Base.{
  ℕ, suc, ◌+◌, ◌^◌, ◌<◌, ◌≡◌, ◌≢◌, false, some, List, [], ◌∷◌, ◌++◌, ◌==◌, if◌then◌else◌, All,
  arith, refl, length, length-append, sym, ◌∙◌, ap,
}
use mathlib.Core.Path.{subst}
use husky_os.Klib.Linked.{
  Node, Linked, list_append, list_insert, list_delete, list_pop, list_dequeue,
}
use husky_os.Klib.Linked.Chain.{
  first_or, last_or, last_or-ne, Chain, Chain-same, unlinked, Chain-unlinked, Chain-at,
  Chain-linked_behind,
}

-- The list holds the nodes `as'`, in this order.
pub record IsList (s : Linked) (as' : List ℕ) : Type 0 where
  pub head : s.head ≡ first_or 0 as'
  pub tail : s.tail ≡ last_or 0 as'
  pub length_word : s.length ≡ length as'
  pub small : length as' + 1 < 2 ^ 64
  pub chain : Chain s.nodes 0 as'

nonzero : (n : ℕ → Node) (p : ℕ) (as' : List ℕ) → Chain n p as' → All (λ b. 0 ≢ b) as'
nonzero n p [] c = tt
nonzero n p (a ∷ as') c = ((λ e. c.0 (sym e)), nonzero n a as' c.4)

last_or-append : (d x : ℕ) (as' bs : List ℕ) → last_or d (as' ++ (x ∷ bs)) ≡ last_or x bs
last_or-append d x [] bs = refl
last_or-append d x (a ∷ as') bs = last_or-append a x as' bs

new_tail :
    (d x : ℕ) (as' bs : List ℕ)
    → All (λ b. x ≢ b) bs
    → (if x == last_or x bs then last_or d as' else last_or x bs) ≡ last_or d (as' ++ bs)
new_tail d x [] [] h = ground arith
new_tail d x (a ∷ as') bs h = new_tail a x as' bs h
new_tail d x [] (b ∷ bs) h = ground (arith, last_or-ne x b bs h.0 h.1)

new_head :
    (x : ℕ) (as' bs : List ℕ)
    → All (λ b. b ≢ x) as'
    → (if x == first_or 0 (as' ++ (x ∷ bs)) then first_or 0 bs else first_or 0 (as' ++ (x ∷ bs)))
      ≡ first_or 0 (as' ++ bs)
new_head x [] bs h = ground arith
new_head x (a ∷ as') bs h = ground (arith, h.0)

All-end : (P : ℕ → Type 0) (as' : List ℕ) (x : ℕ) → All P (as' ++ (x ∷ [])) → P x
All-end P [] x h = h.0
All-end P (a ∷ as') x h = All-end P as' x h.1

length-middle : (x : ℕ) (as' bs : List ℕ) → length (as' ++ (x ∷ bs)) ≡ suc (length (as' ++ bs))
length-middle x [] bs = refl
length-middle x (a ∷ as') bs = ap suc (length-middle x as' bs)

nodes-list_delete :
    (s : Linked) (x : ℕ)
    → (list_delete s x).nodes ≡ unlinked s.nodes (s.nodes x).prev (s.nodes x).next
unfolding list_delete
nodes-list_delete s x = refl

-- `list_delete` takes a node of the list out of it and keeps the others in their order, linked in
-- both directions.
pub list_delete_lem :
    (s : Linked) (x : ℕ) (as' bs : List ℕ)
    → IsList s (as' ++ (x ∷ bs))
    → IsList (list_delete s x) (as' ++ bs)
list_delete_lem s x as' bs l =
    let at = Chain-at s.nodes 0 as' x bs l.chain in
    let more = length-middle x as' bs in
    record {
      head = unfold list_delete in rw (l.head, at.1) (new_head x as' bs at.2);
      tail =
          unfold list_delete in
          rw (l.tail, last_or-append 0 x as' bs, at.0) (new_tail 0 x as' bs at.3);
      length_word = unfold list_delete in omega (arith, l.length_word, l.small, more);
      small = omega (arith, l.small, more);
      chain =
          rw (nodes-list_delete s x, at.0, at.1)
            (Chain-unlinked s.nodes 0 as' x bs (nonzero s.nodes 0 _ l.chain) l.chain);
    }

-- `list_append` puts a node that is not in the list, and has no predecessor, at the end.
pub list_append_lem :
    (s : Linked) (x : ℕ) (as' : List ℕ)
    → IsList s as'
    → x ≢ 0
    → (s.nodes x).prev ≡ 0
    → All (λ b. b ≢ x) as'
    → length as' + 2 < 2 ^ 64
    → IsList (list_append s x) (as' ++ (x ∷ []))
unfolding list_append
list_append_lem s x [] l h p new w =
    let e : s.tail ≡ 0 = l.tail in
    rw e (record {
      head = refl;
      tail = refl;
      length_word = omega (arith, l.length_word);
      small = omega arith;
      chain = (h, ground arith, ground arith, tt, tt);
    })
list_append_lem s x (a ∷ as') l h p new w =
    let z = nonzero s.nodes 0 (a ∷ as') l.chain in
    let ne : (s.tail == 0) ≡ false = ground (arith, last_or-ne 0 a as' z.0 z.1) in
    rw (ne, l.tail)
      (record {
        head = l.head;
        tail = sym (last_or-append a x as' []);
        length_word = omega (arith, l.length_word, length-append as' (x ∷ []));
        small = omega (arith, length-append as' (x ∷ []));
        chain = Chain-linked_behind s.nodes 0 a as' x h new l.chain;
      })

append_nil : (as' : List ℕ) → as' ++ [] ≡ as'
append_nil [] = refl
append_nil (a ∷ as') = ap (λ (t : List ℕ). a ∷ t) (append_nil as')

list_pop-eq : (s : Linked) (x : ℕ) → s.tail ≡ x → x ≢ 0 → list_pop s ≡ (some x, list_delete s x)
unfolding list_pop
list_pop-eq s x e z =
    let ne : (s.tail == 0) ≡ false = ground arith in
    let taken : list_pop s ≡ (some s.tail, list_delete s s.tail) = rw ne refl in
    taken ∙ ap (λ (t : ℕ). (some t, list_delete s t)) e

list_dequeue-eq :
    (s : Linked) (x : ℕ) → s.head ≡ x → x ≢ 0 → list_dequeue s ≡ (some x, list_delete s x)
unfolding list_dequeue
list_dequeue-eq s x e z =
    let ne : (s.head == 0) ≡ false = ground arith in
    let taken : list_dequeue s ≡ (some s.head, list_delete s s.head) = rw ne refl in
    taken ∙ ap (λ (t : ℕ). (some t, list_delete s t)) e

list_pop_lem :
    (s : Linked) (x : ℕ) (as' : List ℕ)
    → IsList s (as' ++ (x ∷ []))
    → ((list_pop s).0 ≡ some x) × IsList (list_pop s).1 as'
list_pop_lem s x as' l =
    let e : s.tail ≡ x = l.tail ∙ last_or-append 0 x as' [] in
    let z : x ≢ 0 = λ q. All-end (λ b. 0 ≢ b) as' x (nonzero s.nodes 0 _ l.chain) (sym q) in
    rw (list_pop-eq s x e z) (
      refl,
      subst (λ (t : List ℕ). IsList (list_delete s x) t) (append_nil as')
          (list_delete_lem s x as' [] l),
    )

-- `list_dequeue` takes the first node and leaves the others in their order.
pub list_dequeue_lem :
    (s : Linked) (x : ℕ) (as' : List ℕ)
    → IsList s (x ∷ as')
    → ((list_dequeue s).0 ≡ some x) × IsList (list_dequeue s).1 as'
list_dequeue_lem s x as' l =
    rw (list_dequeue-eq s x l.head l.chain.0) (refl, list_delete_lem s x [] as' l)

fresh : Linked → (node item : ℕ) → Linked
fresh s node item = record s {
  nodes = λ k. if k == node then record { next = 0; prev = 0; value = item } else s.nodes k;
}

fresh-same :
    (s : Linked) (node item : ℕ) (as' : List ℕ)
    → All (λ b. b ≢ node) as'
    → All (λ a. (fresh s node item).nodes a ≡ s.nodes a) as'
unfolding fresh
fresh-same s node item [] h = tt
fresh-same s node item (a ∷ as') h = (ground (arith, h.0), fresh-same s node item as' h.1)

fresh-IsList :
    (s : Linked) (node item : ℕ) (as' : List ℕ)
    → IsList s as'
    → All (λ b. b ≢ node) as'
    → IsList (fresh s node item) as'
fresh-IsList s node item as' l h = record {
  head = unfold fresh in l.head;
  tail = unfold fresh in l.tail;
  length_word = unfold fresh in l.length_word;
  small = l.small;
  chain = Chain-same s.nodes (fresh s node item).nodes 0 as' (fresh-same s node item as' h) l.chain;
}

value-list_append : (s : Linked) (x k : ℕ) → ((list_append s x).nodes k).value ≡ (s.nodes k).value
unfolding list_append
value-list_append s x k = ground arith

-- `list_insert` with a new node, which `malloc` returned, puts it with the item at the end;
-- `list_pop` takes it off again and leaves the nodes that were there.
pub list_pop-list_insert :
    (s : Linked) (node item : ℕ) (as' : List ℕ)
    → IsList s as'
    → node ≢ 0
    → All (λ b. b ≢ node) as'
    → length as' + 2 < 2 ^ 64
    → let t = list_insert s node item in
      IsList t (as' ++ (node ∷ []))
      × ((t.nodes node).value ≡ item)
      × ((list_pop t).0 ≡ some node)
      × IsList (list_pop t).1 as'
list_pop-list_insert s node item as' l z new w =
    let t = fresh s node item in
    let e : list_insert s node item ≡ list_append t node = unfold list_insert fresh in refl in
    let at_end =
      list_append_lem t node as' (fresh-IsList s node item as' l new) z
        (unfold fresh in ground arith) new w in
    let popped = list_pop_lem (list_append t node) node as' at_end in
    rw e (at_end, value-list_append t node node ∙ unfold fresh in ground arith, popped.0, popped.1)
