-- ===== src/BTree/Entries.antt =====
-- What the nodes of include/txl/btree.h stand for, and how they are formed.
use libtxl.Prelude.{ℕ, zero, suc, ◌+◌, ◌≤◌, List, [], ◌∷◌, ◌++◌, length}
use libtxl.BTree.Defs.{Node, node, Children, nil, null, child, num_children, values}

module _ {K V : Type 0} where
  -- The entries in order: those of a child stand before the value of its index.
  unfoldable mutual
    pub entries : Node K V → List (K × V)
    entries (node cs vs) = weave cs vs

    pub weave : Children K V → List (K × V) → List (K × V)
    weave nil vs = vs
    weave (null cs) [] = weave cs []
    weave (null cs) (v ∷ vs) = v ∷ weave cs vs
    weave (child n cs) [] = entries n ++ weave cs []
    weave (child n cs) (v ∷ vs) = entries n ++ (v ∷ weave cs vs)

  abbrev pub AllNull : Children K V → Type 0
  AllNull nil = Unit
  AllNull (null cs) = AllNull cs
  AllNull (child n cs) = ⊥

  -- All leaves have the same height. A leaf has a null child for each value, and one more unless it
  -- is the last leaf; any other node has one child more than it has values, and each of its children
  -- has a value. `margin` is 0 for a node with the last leaf, and 1 for others.
  mutual
    pub data IsFormed : ℕ → ℕ → Node K V → Type 0 where
      leaf :
          (margin : ℕ) (cs : Children K V) (vs : List (K × V))
          → AllNull cs
          → length vs + margin ≤ num_children cs
          → IsFormed zero margin (node cs vs)
      inner :
          (h margin : ℕ) (n : Node K V) (cs : Children K V) (vs : List (K × V))
          → AreFormed h margin (child n cs) vs
          → IsFormed (suc h) margin (node (child n cs) vs)

    pub data AreFormed : ℕ → ℕ → Children K V → List (K × V) → Type 0 where
      last :
          (h margin : ℕ) (n : Node K V)
          → IsFormed h margin n
          → 1 ≤ length (values n)
          → AreFormed h margin (child n nil) []
      more :
          (h margin : ℕ) (n : Node K V) (cs : Children K V) (v : K × V) (vs : List (K × V))
          → IsFormed h 1 n
          → 1 ≤ length (values n)
          → AreFormed h margin cs vs
          → AreFormed h margin (child n cs) (v ∷ vs)
