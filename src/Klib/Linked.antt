-- ===== src/Klib/Linked.antt =====
-- Kernel/src/klib/list.cpp and Kernel/include/list.h: doubly linked lists. A node is known by its
-- address, and address 0 is `nullptr`; `malloc` returns an address that no node has.
pub mod Chain
pub mod Ends
mod Copy
mod Examples
use husky_os.Base.{
  ℕ, zero, suc, ◌+◌, ◌^◌, Bool, true, false, not, ◌&&◌, Option, some, none, ltb, ◌==◌,
  if◌then◌else◌, u64, sub64,
}

pub record Node : Type 0 where
  pub next : ℕ
  pub prev : ℕ
  pub value : ℕ

-- The nodes in memory and a `list_t`.
pub record Linked : Type 0 where
  pub nodes : ℕ → Node
  pub head : ℕ
  pub tail : ℕ
  pub length : ℕ

abbrev pub set_next : (ℕ → Node) → (a next : ℕ) → ℕ → Node
set_next nodes a next k = if k == a then record (nodes k) { next = next } else nodes k

abbrev pub set_prev : (ℕ → Node) → (a prev : ℕ) → ℕ → Node
set_prev nodes a prev k = if k == a then record (nodes k) { prev = prev } else nodes k

unfoldable pub list_append : Linked → (node : ℕ) → Linked
list_append list node =
    let nodes = set_next list.nodes node 0 in
    if list.tail == 0
    then record list { nodes = nodes; head = node; tail = node; length = u64 (list.length + 1) }
    else record list {
      nodes = set_prev (set_next nodes list.tail node) node list.tail;
      tail = node;
      length = u64 (list.length + 1);
    }

-- `list_insert`, for the address that `malloc` returned.
unfoldable pub list_insert : Linked → (node item : ℕ) → Linked
unfolding list_append
list_insert list node item =
    list_append
      (record list {
        nodes =
            λ k. if k == node then record { next = 0; prev = 0; value = item } else list.nodes k;
      })
      node

unfoldable pub list_create : (ℕ → Node) → Linked
list_create nodes = record { nodes = nodes; head = 0; tail = 0; length = 0 }

unfoldable pub list_delete : Linked → (node : ℕ) → Linked
list_delete list node =
    let n = list.nodes node in
    let nodes = if n.prev == 0 then list.nodes else set_next list.nodes n.prev n.next in
    let nodes' = if n.next == 0 then nodes else set_prev nodes n.next n.prev in
    record {
      nodes = nodes';
      head = if node == list.head then n.next else list.head;
      tail = if node == list.tail then n.prev else list.tail;
      length = sub64 list.length 1;
    }

-- `list_pop` and `list_dequeue`; `none` for `nullptr`.
unfoldable pub list_pop : Linked → Option ℕ × Linked
list_pop list =
    if list.tail == 0 then (none, list) else (some list.tail, list_delete list list.tail)

unfoldable pub list_dequeue : Linked → Option ℕ × Linked
list_dequeue list =
    if list.head == 0 then (none, list) else (some list.head, list_delete list list.head)

-- `list_find`: the first node with the value, `fuel` nodes being looked at.
unfoldable pub find_from : (ℕ → Node) → (value fuel item : ℕ) → Option ℕ
find_from nodes value zero item = none
find_from nodes value (suc fuel) item =
    let on = find_from nodes value fuel (nodes item).next in
    if item == 0 then none else if (nodes item).value == value then some item else on

unfoldable pub list_find : Linked → (value : ℕ) → Option ℕ
list_find list value = find_from list.nodes value (list.length + 1) list.head

-- `list_remove`: its guard lets `index` be the length.
unfoldable pub walk_to : (ℕ → Node) → (index n : ℕ) → ℕ
walk_to nodes zero n = n
walk_to nodes (suc index) n = walk_to nodes index (nodes n).next

unfoldable pub list_remove : Linked → (index : ℕ) → Linked
list_remove list index =
    if ltb list.length index then list else list_delete list (walk_to list.nodes index list.head)

-- `list_merge`, of two lists whose nodes are those of the first.
unfoldable pub list_merge : (target source : Linked) → Linked
list_merge target source =
    let on =
      if target.tail == 0
      then record target { head = source.head }
      else record target { nodes = set_next target.nodes target.tail source.head } in
    record on {
      tail = if source.tail == 0 then on.tail else source.tail;
      length = u64 (target.length + source.length);
    }

-- The loop of `list_copy`, which never moves on; `fresh fuel` is what `malloc` returns in a round.
unfoldable pub copy_while : (fresh : ℕ → ℕ) → (fuel node value : ℕ) → Linked → Option Linked
copy_while fresh zero node value out = none
copy_while fresh (suc fuel) node value out =
    let on = copy_while fresh fuel node value (list_insert out (fresh fuel) value) in
    if node == 0 then some out else on

unfoldable pub list_copy : (fresh : ℕ → ℕ) → (fuel : ℕ) → (original : Linked) → Option Linked
list_copy fresh fuel original =
    copy_while fresh fuel original.head (original.nodes original.head).value
      (list_create original.nodes)
