-- ===== src/BTree/Remove.antt =====
-- `remove` of include/txl/btree.h. As in `Defs`, a result `none` is an exception or an access that
-- is not defined.
use libtxl.Prelude.{
  ℕ, zero, suc, ◌-◌, Bool, true, false, Option, none, some, List, length, set, ltb, ◌==◌,
  if◌then◌else◌,
}
use libtxl.BTree.Key.{Key}
use libtxl.BTree.Defs.{
  Node, node, Children, nil, null, child, children, values, num_children, take_children,
  drop_children, set_child, is_leaf, index_of, found_at, ◌>>=◌,
}
use libtxl.BTree.Rebalance.{child_at, erase_at, pop_back, front_child, ◌+++◌, rebalance}

pub record RemoveResult : Type 0 where
  pub found : Bool
  pub rebalance_after : Bool

abbrev pub not_found : RemoveResult
not_found = record { found = false; rebalance_after = false }

abbrev pub removed : RemoveResult
removed = record { found = true; rebalance_after = true }

-- `size() - 1`, which wraps at 0, where `at` throws
abbrev pub last_index : ℕ → Option ℕ
last_index zero = none
last_index (suc n) = some n

module _ {K V : Type 0} (o : Key K) (degree : ℕ) where
  -- `steal_max`, behind the call for the last child
  unfoldable pub stolen_below :
      Children K V → List (K × V) → Node K V × (K × V) → Option (Node K V × (K × V))
  unfolding rebalance
  stolen_below cs vs (n, e) = do
    ds ← set_child (num_children cs - 1) n cs
    i ← last_index (length vs)
    p ← rebalance o degree (node ds vs) i
    some (p, e)

  unfoldable mutual
    unfolding stolen_below

    pub steal_max : Node K V → Option (Node K V × (K × V))
    steal_max (node cs vs) =
        let here = pop_back vs >>= λ p. some (node cs p.0, p.1) in
        let below = steal_last cs >>= stolen_below cs vs in if is_leaf cs then here else below

    pub steal_last : Children K V → Option (Node K V × (K × V))
    steal_last nil = none
    steal_last (null nil) = none
    steal_last (child n nil) = steal_max n
    steal_last (null (null cs)) = steal_last (null cs)
    steal_last (null (child m cs)) = steal_last (child m cs)
    steal_last (child n (null cs)) = steal_last (null cs)
    steal_last (child n (child m cs)) = steal_last (child m cs)

  -- A child without values is replaced by its own first child.
  abbrev pub pull_up : ℕ → Node K V → Children K V → Option (Children K V)
  pull_up i n cs =
      front_child (children n) >>= λ p. some (take_children i cs +++ p +++ drop_children (suc i) cs)

  -- `remove_from`, behind the call for the child at `i`
  unfoldable pub removed_below :
      Children K V → List (K × V) → ℕ → Node K V × RemoveResult → Option (Node K V × RemoveResult)
  unfolding rebalance
  removed_below cs vs i (n, res) = do
    ds ← set_child i n cs
    p ←
        if res.rebalance_after
        then if ltb 0 (length vs)
          then rebalance o degree (node ds vs) i
          else if length (values n) == 0
          then (pull_up i n ds >>= λ es. some (node es vs))
          else some (node ds vs)
        else some (node ds vs)
    some (p, res)

  -- `remove_from` where the node has the key at `i`, and is no leaf
  unfoldable pub replace_by_max : Children K V → List (K × V) → ℕ → Option (Node K V × RemoveResult)
  unfolding rebalance steal_max
  replace_by_max cs vs i = do
    m ← child_at i cs
    (n, e) ← steal_max m
    ds ← set_child i n cs
    p ← rebalance o degree (node ds (set vs i e)) i
    some (p, removed)

  abbrev pub or_found :
      Option V
      → Option (Node K V × RemoveResult)
      → Option (Node K V × RemoveResult)
      → Option (Node K V × RemoveResult)
  or_found (some v) here below = here
  or_found none here below = below

  unfoldable mutual
    unfolding removed_below replace_by_max

    pub remove_from : Node K V → K → Option (Node K V × RemoveResult)
    remove_from (node cs vs) k =
        let i = index_of o vs k in
        let erased = erase_at i vs >>= λ ws. some (node cs ws, removed) in
        let here = if is_leaf cs then erased else replace_by_max cs vs i in
        let deeper = remove_from_child cs i k >>= removed_below cs vs i in
        let below = if is_leaf cs then some (node cs vs, not_found) else deeper in
        or_found (found_at o vs i k) here below

    pub remove_from_child : Children K V → ℕ → K → Option (Node K V × RemoveResult)
    remove_from_child nil i k = none
    remove_from_child (null cs) zero k = none
    remove_from_child (child n cs) zero k = remove_from n k
    remove_from_child (null cs) (suc i) k = remove_from_child cs i k
    remove_from_child (child n cs) (suc i) k = remove_from_child cs i k

  -- A root with one child, or one null pointer, is replaced by it.
  abbrev pub settled : Node K V → Option (Node K V)
  settled (node (null nil) vs) = none
  settled (node (child m nil) vs) = some m
  settled n = some n

  unfoldable pub remove : Option (Node K V) → K → Option (Option (Node K V))
  unfolding remove_from
  remove none k = some none
  remove (some n) k = remove_from n k >>= λ r. some (settled r.0)
