-- ===== src/Klib/Linked/Copy.antt =====
-- `list_copy` of a list with nodes does not end.
use husky_os.Base.{ℕ, zero, suc, ◌≡◌, ◌≢◌, none, refl, arith, false, ◌==◌}
use husky_os.Klib.Linked.{Linked, copy_while, list_copy}

copy_while-endless :
    (fresh : ℕ → ℕ) (fuel node value : ℕ) (out : Linked)
    → node ≢ 0
    → copy_while fresh fuel node value out ≡ none
unfolding copy_while
copy_while-endless fresh zero node value out there = refl
copy_while-endless fresh (suc fuel) node value out there =
    let e : (node == 0) ≡ false = ground (arith, there) in
    rw e (copy_while-endless fresh fuel node value _ there)

-- Whatever the fuel, the copy of a list whose head is a node is not done.
list_copy-endless :
    (fresh : ℕ → ℕ) (fuel : ℕ) (original : Linked)
    → original.head ≢ 0
    → list_copy fresh fuel original ≡ none
unfolding list_copy
list_copy-endless fresh fuel original there =
    copy_while-endless fresh fuel original.head (original.nodes original.head).value _ there
