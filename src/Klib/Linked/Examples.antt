-- ===== src/Klib/Linked/Examples.antt =====
-- A list of three nodes, and its laws at it.
use husky_os.Base.{ℕ, ◌+◌, ◌-◌, ◌*◌, ◌%◌, refl, List, [], ◌∷◌, arith}
use husky_os.Klib.Linked.{Linked, list_delete}
use husky_os.Klib.Linked.Ends.{IsList, list_delete_lem}

-- The nodes 1, 2 and 3.
abbrev three : Linked
three = record {
  nodes = λ k. record { next = (k + 1) % 4; prev = k - 1; value = k * 10 };
  head = 1;
  tail = 3;
  length = 3;
}

abbrev its_nodes : List ℕ
its_nodes = 1 ∷ 2 ∷ 3 ∷ []

three-IsList : IsList three its_nodes
three-IsList = record {
  head = refl;
  tail = refl;
  length_word = refl;
  small = omega arith;
  chain = ground arith;
}

list_delete_lem_example : IsList (list_delete three 2) (1 ∷ 3 ∷ [])
list_delete_lem_example = list_delete_lem three 2 (1 ∷ []) (3 ∷ []) three-IsList
