-- ===== src/Tree/Defs.antt =====
-- The operations of include/txl/tree.h. A `node_ptr` is a tree, and a loop that walks down by
-- pointers is a recursion that puts the walked path back together.
use libtxl.Prelude.{Option, none, some, if◌then◌else◌}
use libtxl.Prelude.Order.{Less}

pub data Tree (K V : Type 0) : Type 0 where
  leaf : Tree K V
  node : Tree K V → K → V → Tree K V → Tree K V

module _ {K V : Type 0} where
  -- The smallest entry and the tree without it: `min_value` on the right child of a node, whose
  -- right child replaces it.
  unfoldable pub min_value : Tree K V → Option ((K × V) × Tree K V)
  min_value leaf = none
  min_value (node leaf k v r) = some ((k, v), r)
  min_value (node (node a i w b) k v r) = elim (min_value (node a i w b)) [
    | none ↦ none
    | some (m, l) ↦ some (m, node l k v r)
  ]

  -- A node taken out, by the children that it has.
  unfoldable pub remove_node : Tree K V → K → V → Tree K V → Tree K V
  remove_node leaf k v r = r
  remove_node (node a i w b) k v leaf = node a i w b
  remove_node (node a i w b) k v (node c j x d) = elim (min_value (node c j x d)) [
    | none ↦ node (node a i w b) k v (node c j x d)
    | some ((m, y), r) ↦ node (node a i w b) m y r
  ]

  module _ (o : Less K) where
    open o use {less}

    unfoldable pub find : Tree K V → K → Option (K × V)
    find leaf key = none
    find (node l k v r) key =
        let in_left = find l key in
        let in_right = find r key in
        if less key k then in_left else if less k key then in_right else some (k, v)

    unfoldable pub emplace : Tree K V → K → V → Tree K V
    emplace leaf key value = node leaf key value leaf
    emplace (node l k v r) key value =
        let to_left = node (emplace l key value) k v r in
        let to_right = node l k v (emplace r key value) in if less key k then to_left else to_right

    unfoldable pub remove : Tree K V → K → Tree K V
    remove leaf key = leaf
    remove (node l k v r) key =
        let from_left = node (remove l key) k v r in
        let from_right = node l k v (remove r key) in
        if less key k then from_left else if less k key then from_right else remove_node l k v r
