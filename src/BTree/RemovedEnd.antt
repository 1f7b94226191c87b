-- ===== src/BTree/RemovedEnd.antt =====
-- `remove_from` of include/txl/btree.h at the last child.
use libtxl.Prelude.{
  ℕ, suc, ◌≤◌, ◌<◌, ◌≡◌, true, refl, sym, ap, ◌∙◌, none, some, List, [], ◌∷◌, ◌++◌, append-nil,
  append_assoc, length, arith, size_mod,
}
use libtxl.BTree.Key.{Key}
use libtxl.BTree.Sorted.{
  Below-Absent, IsSorted, IsSorted_left, IsSorted_right, IsSorted-Parts, delete, delete-left,
}
use libtxl.BTree.Defs.{Node, node, Children, nil, child, set_child, index_of, found_at}
use libtxl.BTree.Rebalance.{rebalance}
use libtxl.BTree.Remove.{remove_from, remove_from_child}
use libtxl.BTree.Entries.{entries, weave, IsFormed, AreFormed, last}
use libtxl.BTree.Zipper.{
  at, before, flat, rest_entries, weave-before, length-behind, set_child-before,
}
use libtxl.BTree.Parent.{parent_of}
use libtxl.BTree.Balanced.{IsRebalanced, rebalance_pair-IsRebalanced}
use libtxl.BTree.Snoc.{at-eq-add, All-values, IsSnoc, snoc, rebalance-right}
use libtxl.BTree.Focus.{
  index_of-behind, found_at-behind, remove_from_child-before, Removed, FocusEnd,
}
use libtxl.BTree.Deeper.{deeper-Removed, IsRebalanced-along}

module _ {K V : Type 0} (o : Key K) (degree : ℕ) (wide : 3 ≤ degree) (narrow : degree < size_mod)
    (k : K) where
  open o use {less, equal}

  module _ (h margin : ℕ) (m : Node K V) (cs : Children K V) (vs : List (K × V))
      (x : FocusEnd o degree k h margin (child m cs) vs) (f : AreFormed h margin (child m cs) vs)
      (s : IsSorted o (weave (child m cs) vs)) where
    end_woven : weave (child m cs) vs ≡ flat x.ps ++ entries x.n
    unfolding entries
    end_woven =
        ap (λ ds. weave ds vs) x.children_eq
        ∙ ap (λ us. weave (before x.ps (child x.n nil)) us) x.values_eq
        ∙ weave-before x.ps (child x.n nil) []
        ∙ ap (λ es. flat x.ps ++ es) (append-nil (entries x.n))

    end_index : index_of o vs k ≡ at x.ps 0
    end_index = ap (λ us. index_of o us k) x.values_eq ∙ index_of-behind o k x.ps [] x.low

    end_found : found_at o vs (at x.ps 0) k ≡ none
    end_found = ap (λ us. found_at o us (at x.ps 0) k) x.values_eq ∙ found_at-behind o k x.ps [] 0

    end_put :
        (n : Node K V) → set_child (at x.ps 0) n (child m cs) ≡ some (before x.ps (child n nil))
    end_put n =
        ap (λ ds. set_child (at x.ps 0) n ds) x.children_eq
        ∙ set_child-before x.ps (child x.n nil) (child n nil) 0 n refl

    end-IsRebalanced :
        (n : Node K V) (q : IsSnoc h x.ps)
        → IsFormed h margin n
        → IsRebalanced h margin
            (rebalance o degree (node (before x.ps (child n nil)) vs) (at x.ps 0))
            (flat q.front ++ (entries q.back ++ (q.sep ∷ (entries n ++ []))))
    unfolding rest_entries entries
    end-IsRebalanced n q fn =
        let sorted : IsSorted o (flat x.ps) =
          IsSorted_left o (flat x.ps) (entries x.n) (rw (sym end_woven) s) in
        let sorted_front : IsSorted o (flat q.front ++ (entries q.back ++ (q.sep ∷ []))) =
          rw (sym q.flat_eq) sorted in
        let p =
          IsSorted-Parts o (entries q.back) q.sep []
            (IsSorted_right o (flat q.front) _ sorted_front) in
        let parent : node (before x.ps (child n nil)) vs ≡ parent_of q.front q.back n nil q.sep [] =
          ap (λ ds. node ds vs) (q.before_eq (child n nil))
          ∙ ap (λ us. node (before q.front (child q.back (child n nil))) us)
              (x.values_eq ∙ q.behind_eq []) in
        IsRebalanced-along
          (ap (λ r. rebalance o degree r (at x.ps 0)) parent
            ∙ ap (λ i. rebalance o degree (parent_of q.front q.back n nil q.sep []) i) (q.at_eq 0)
            ∙ rebalance-right o degree q.front q.back n nil q.sep [] refl)
          refl
          (rebalance_pair-IsRebalanced o degree wide narrow h margin margin q.front nil [] q.back n
            q.sep q.pre (last h margin) q.formed fn
            (All-values (λ e. less e.0 q.sep.0 ≡ true) h 1 q.back q.formed p.below)
            (omega (arith, q.big)))

    end_joined :
        (q : IsSnoc h x.ps) (es : List (K × V))
        → flat q.front ++ (entries q.back ++ (q.sep ∷ es)) ≡ flat x.ps ++ es
    end_joined q es =
        ap (λ ys. flat q.front ++ ys) (sym (append_assoc (entries q.back) (q.sep ∷ []) es))
        ∙ sym (append_assoc (flat q.front) (entries q.back ++ (q.sep ∷ [])) es)
        ∙ ap (λ ys. ys ++ es) (sym q.flat_eq)

    end_snoc-Removed :
        1 ≤ length vs → IsSnoc h x.ps → Removed o degree k (suc h) margin (node (child m cs) vs)
    unfolding remove_from
    end_snoc-Removed big q =
        let c = x.inside in
        let gone = delete-left o k (flat x.ps) (entries x.n) (Below-Absent o k (flat x.ps) x.low) in
        let child_eq =
          ap (λ ds. remove_from_child o degree ds (at x.ps 0) k) x.children_eq
          ∙ remove_from_child-before o degree k x.ps (child x.n nil) 0 in
        deeper-Removed o degree k m cs vs h margin margin (at x.ps 0) x.n c
          (before x.ps (child c.to nil)) f big end_index end_found (child_eq ∙ c.result)
          (end_put c.to) (end_put x.n ∙ ap some (sym x.children_eq))
          (IsRebalanced-along refl
            (end_joined q (entries c.to ++ [])
              ∙ ap (λ es. flat x.ps ++ es) (append-nil (entries c.to) ∙ c.same)
              ∙ sym gone
              ∙ ap (λ es. delete o k es) (sym end_woven))
            (end-IsRebalanced c.to q c.formed))
          (λ e.
            ap (λ es. delete o k es) end_woven
            ∙ gone
            ∙ ap (λ es. flat x.ps ++ es) e
            ∙ sym end_woven)

    pub end-Removed : 1 ≤ length vs → Removed o degree k (suc h) margin (node (child m cs) vs)
    end-Removed big =
        let counted : length vs ≡ at x.ps 0 = ap length x.values_eq ∙ length-behind x.ps [] in
        end_snoc-Removed big (snoc h x.ps x.pre (omega (arith, big, counted, at-eq-add x.ps 0)))
