-- ===== src/BTree/Deeper.antt =====
-- `remove_from` of include/txl/btree.h behind its call for a child.
use libtxl.Prelude.{
  ℕ, suc, ◌≤◌, ◌≡◌, true, Bool-cases, inl, inr, refl, sym, ap, ◌∙◌, Option, none, some, List,
  length, ltb, arith,
}
use libtxl.BTree.Key.{Key}
use libtxl.BTree.Sorted.{delete}
use libtxl.BTree.Defs.{Node, node, Children, child, set_child, index_of, found_at}
use libtxl.BTree.Rebalance.{rebalance}
use libtxl.BTree.Remove.{
  RemoveResult, replace_by_max, remove_from, remove_from_child, removed_below,
}
use libtxl.BTree.Entries.{entries, weave, AreFormed, last, more}
use libtxl.BTree.Split.{AreFormed-IsFormed}
use libtxl.BTree.Balanced.{Lone, IsRebalanced}
use libtxl.BTree.Focus.{Removed}

AreFormed-Lone :
    {K V : Type 0} {h margin : ℕ} {cs : Children K V} {vs : List (K × V)}
    → AreFormed h margin cs vs
    → 1 ≤ length vs
    → Lone cs
AreFormed-Lone (last h margin n f big) b = absurd (omega (arith, b))
AreFormed-Lone (more h margin n _ v _ f big (last _ _ m g c)) b = tt
AreFormed-Lone (more h margin n _ v _ f big (more _ _ m cs w vs g c fs)) b = tt

module _ {K V : Type 0} (o : Key K) (degree : ℕ) (k : K) (m : Node K V) (cs : Children K V)
    (vs : List (K × V)) where
  -- `remove_from` in a child
  remove_from-deeper :
      (i : ℕ) (p : Node K V × RemoveResult)
      → index_of o vs k ≡ i
      → found_at o vs i k ≡ none
      → remove_from_child o degree (child m cs) i k ≡ some p
      → remove_from o degree (node (child m cs) vs) k ≡ removed_below o degree (child m cs) vs i p
  unfolding remove_from
  remove_from-deeper i p e f r = rw (remove_from, e, f, r) refl

  pub remove_from-found :
      (i : ℕ) (x : V)
      → index_of o vs k ≡ i
      → found_at o vs i k ≡ some x
      → remove_from o degree (node (child m cs) vs) k ≡ replace_by_max o degree (child m cs) vs i
  unfolding remove_from
  remove_from-found i x e f = rw (remove_from, e, f) refl

  -- The node behind the call for a child at `i`, rebalanced or kept
  pub deeper-Removed :
      (h margin below_margin i : ℕ) (n : Node K V) (c : Removed o degree k h below_margin n)
      (ds : Children K V)
      → AreFormed h margin (child m cs) vs
      → 1 ≤ length vs
      → index_of o vs k ≡ i
      → found_at o vs i k ≡ none
      → remove_from_child o degree (child m cs) i k ≡ some (c.to, c.res)
      → set_child i c.to (child m cs) ≡ some ds
      → set_child i n (child m cs) ≡ some (child m cs)
      → IsRebalanced h margin
          (rebalance o degree (node ds vs) i)
          (delete o k (weave (child m cs) vs))
      → (delete o k (entries n) ≡ entries n
          → delete o k (weave (child m cs) vs) ≡ weave (child m cs) vs)
      → Removed o degree k (suc h) margin (node (child m cs) vs)
  unfolding removed_below entries
  deeper-Removed h margin below_margin i n c ds f big e none_eq child_eq put_eq put_same b keep =
      let go = remove_from-deeper i (c.to, c.res) e none_eq child_eq in
      elim (Bool-cases c.res.rebalance_after) [
        | inl after ↦
            let some_values : ltb 0 (length vs) ≡ true = ground (arith, big) in
            record {
              to = node b.to_children b.to_values;
              res = c.res;
              result = go ∙ rw (removed_below, put_eq, after, some_values, b.result_eq) refl;
              formed = AreFormed-IsFormed b.formed;
              same = b.same;
              unchanged = λ q. absurd (cc (q, after));
              lone = b.lone;
            }
        | inr after ↦
            let same_node = c.unchanged after in
            let kept : set_child i c.to (child m cs) ≡ some (child m cs) =
              ap (λ x. set_child i x (child m cs)) same_node ∙ put_same in
            record {
              to = node (child m cs) vs;
              res = c.res;
              result = go ∙ rw (removed_below, kept, after) refl;
              formed = AreFormed-IsFormed f;
              same = sym (keep (sym c.same ∙ ap entries same_node));
              unchanged = λ q. refl;
              lone = AreFormed-Lone f big;
            }
      ]

module _ {K V : Type 0} where
  pub IsRebalanced-along :
      {h margin : ℕ} {x y : Option (Node K V)} {es fs : List (K × V)}
      → y ≡ x
      → es ≡ fs
      → IsRebalanced h margin x es
      → IsRebalanced h margin y fs
  IsRebalanced-along e f b = record {
    to_children = b.to_children;
    to_values = b.to_values;
    result_eq = e ∙ b.result_eq;
    formed = b.formed;
    same = b.same ∙ f;
    lone = b.lone;
  }
