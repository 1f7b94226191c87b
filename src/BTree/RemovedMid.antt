-- ===== src/BTree/RemovedMid.antt =====
-- `remove_from` of include/txl/btree.h at a child that is not the last.
use libtxl.Prelude.{
  ℕ, suc, ◌≤◌, ◌<◌, ◌≡◌, true, false, Bool-cases, inl, inr, refl, sym, ap, ◌∙◌, some, List, [], ◌∷◌,
  ◌++◌, append_assoc, length, set, size_mod, arith,
}
use libtxl.BTree.Key.{Key}
use libtxl.BTree.Sorted.{Below, IsSorted, IsSorted_right, IsSorted-Parts, delete, All-delete}
use libtxl.BTree.Defs.{Node, node, Children, child, values, set_child, index_of, found_at}
use libtxl.BTree.Rebalance.{child_at, rebalance}
use libtxl.BTree.Remove.{removed, replace_by_max, remove_from, remove_from_child}
use libtxl.BTree.Entries.{entries, weave, IsFormed, AreFormed}
use libtxl.BTree.Split.{AreFormed-IsFormed}
use libtxl.BTree.Zipper.{
  at, before, behind, flat, rest_entries, weave-child, weave-before, set-behind, child_at-before,
  set_child-before,
}
use libtxl.BTree.Parent.{parent_of}
use libtxl.BTree.Balanced.{IsRebalanced, rebalance_pair-IsRebalanced}
use libtxl.BTree.Snoc.{All-values, rebalance-left}
use libtxl.BTree.Stolen.{steal_max-IsStolen, IsStolen-Below}
use libtxl.BTree.Focus.{
  index_of-behind, found_at-behind, delete-mid, delete-found, remove_from_child-before, Removed,
  FocusMid,
}
use libtxl.BTree.Deeper.{remove_from-found, deeper-Removed, IsRebalanced-along}

module _ {K V : Type 0} (o : Key K) (degree : ℕ) (wide : 3 ≤ degree) (narrow : degree < size_mod)
    (k : K) where
  open o use {less, equal}

  module _ (h margin : ℕ) (m : Node K V) (cs : Children K V) (vs : List (K × V))
      (x : FocusMid o degree k h margin (child m cs) vs) (f : AreFormed h margin (child m cs) vs)
      (s : IsSorted o (weave (child m cs) vs)) where
    mid_woven :
        weave (child m cs) vs
        ≡ flat x.ps ++ (entries x.n ++ (x.v ∷ (entries x.next ++ rest_entries x.rest x.ws)))
    unfolding entries
    mid_woven =
        ap (λ ds. weave ds vs) x.children_eq
        ∙ ap (λ us. weave (before x.ps (child x.n (child x.next x.rest))) us) x.values_eq
        ∙ weave-before x.ps (child x.n (child x.next x.rest)) (x.v ∷ x.ws)
        ∙ ap (λ es. flat x.ps ++ (entries x.n ++ (x.v ∷ es))) (weave-child x.next x.rest x.ws)

    mid_index : index_of o vs k ≡ at x.ps 0
    mid_index =
        let first : index_of o (x.v ∷ x.ws) k ≡ 0 = rw (x.stop) refl in
        ap (λ us. index_of o us k) x.values_eq
        ∙ index_of-behind o k x.ps (x.v ∷ x.ws) x.low
        ∙ ap (λ j. at x.ps j) first

    mid_found : found_at o vs (at x.ps 0) k ≡ found_at o (x.v ∷ x.ws) 0 k
    mid_found =
        ap (λ us. found_at o us (at x.ps 0) k) x.values_eq ∙ found_at-behind o k x.ps (x.v ∷ x.ws) 0

    mid_put :
        (n : Node K V)
        → set_child (at x.ps 0) n (child m cs) ≡ some (before x.ps (child n (child x.next x.rest)))
    mid_put n =
        ap (λ ds. set_child (at x.ps 0) n ds) x.children_eq
        ∙ set_child-before x.ps (child x.n (child x.next x.rest)) (child n (child x.next x.rest)) 0
            n refl

    mid-IsRebalanced :
        (n : Node K V) (e : K × V)
        → IsFormed h 1 n
        → Below o e.0 (values n)
        → IsRebalanced h margin
            (rebalance o degree (parent_of x.ps n x.next x.rest e x.ws) (at x.ps 0))
            (flat x.ps ++ (entries n ++ (e ∷ (entries x.next ++ rest_entries x.rest x.ws))))
    mid-IsRebalanced n e fn below =
        IsRebalanced-along (rebalance-left o degree x.ps n x.next x.rest e x.ws) refl (
          rebalance_pair-IsRebalanced o degree wide narrow h margin x.last_margin x.ps x.rest x.ws n
            x.next e x.pre x.tail fn x.formed_next below (omega (arith, x.big_next)))

    mid_sorted :
        IsSorted o
          (flat x.ps ++ (entries x.n ++ (x.v ∷ (entries x.next ++ rest_entries x.rest x.ws))))
    mid_sorted = rw (sym mid_woven) s

    mid_other :
        1 ≤ length vs
        → equal x.v.0 k ≡ false
        → Removed o degree k (suc h) margin (node (child m cs) vs)
    unfolding remove_from
    mid_other big other =
        let c = x.inside in
        let rest = entries x.next ++ rest_entries x.rest x.ws in
        let gone =
          delete-mid o k (flat x.ps) (entries x.n) x.v rest x.low x.stop other mid_sorted in
        let p =
          IsSorted-Parts o (entries x.n) x.v rest (IsSorted_right o (flat x.ps) _ mid_sorted) in
        let low : Below o x.v.0 (entries c.to) =
          rw (c.same) (All-delete o (λ e. less e.0 x.v.0 ≡ true) k (entries x.n) p.below) in
        let child_eq =
          ap (λ ds. remove_from_child o degree ds (at x.ps 0) k) x.children_eq
          ∙ remove_from_child-before o degree k x.ps (child x.n (child x.next x.rest)) 0 in
        deeper-Removed o degree k m cs vs h margin 1 (at x.ps 0) x.n c
          (before x.ps (child c.to (child x.next x.rest))) f big mid_index
          (mid_found ∙ rw (other) refl) (child_eq ∙ c.result) (mid_put c.to)
          (mid_put x.n ∙ ap some (sym x.children_eq))
          (IsRebalanced-along
            (ap
              (λ us.
                rebalance o degree (node (before x.ps (child c.to (child x.next x.rest))) us)
                  (at x.ps 0))
              x.values_eq)
            (ap (λ es. flat x.ps ++ (es ++ (x.v ∷ rest))) c.same
              ∙ sym gone
              ∙ ap (λ es. delete o k es) (sym mid_woven))
            (mid-IsRebalanced c.to x.v c.formed
              (All-values (λ e. less e.0 x.v.0 ≡ true) h 1 c.to c.formed low)))
          (λ q.
            ap (λ es. delete o k es) mid_woven
            ∙ gone
            ∙ ap (λ es. flat x.ps ++ (es ++ (x.v ∷ rest))) q
            ∙ sym mid_woven)

    mid_same : equal x.v.0 k ≡ true → Removed o degree k (suc h) margin (node (child m cs) vs)
    unfolding replace_by_max entries
    mid_same same =
        let rest = entries x.next ++ rest_entries x.rest x.ws in
        let p =
          IsSorted-Parts o (entries x.n) x.v rest (IsSorted_right o (flat x.ps) _ mid_sorted) in
        let t = steal_max-IsStolen o degree wide narrow h 1 x.n x.formed x.big p.left in
        let b =
          mid-IsRebalanced t.to t.entry t.formed
            (IsStolen-Below o degree wide narrow h 1 x.n t p.left) in
        let regrouped : entries t.to ++ (t.entry ∷ rest) ≡ entries x.n ++ rest =
          sym (append_assoc (entries t.to) (t.entry ∷ []) rest) ∙ ap (λ es. es ++ rest) t.same in
        let at_child : child_at (at x.ps 0) (child m cs) ≡ some x.n =
          ap (λ ds. child_at (at x.ps 0) ds) x.children_eq
          ∙ child_at-before x.ps (child x.n (child x.next x.rest)) 0 in
        let put_value : set vs (at x.ps 0) t.entry ≡ behind x.ps (t.entry ∷ x.ws) =
          ap (λ us. set us (at x.ps 0) t.entry) x.values_eq
          ∙ set-behind x.ps (x.v ∷ x.ws) 0 t.entry in
        record {
          to = node b.to_children b.to_values;
          res = removed;
          result =
              remove_from-found o degree k m cs vs (at x.ps 0) x.v.1 mid_index
                (mid_found ∙ rw (same) refl)
              ∙ rw (replace_by_max, at_child, t.result, mid_put t.to, put_value, b.result_eq) refl;
          formed = AreFormed-IsFormed b.formed;
          same =
              b.same
              ∙ ap (λ es. flat x.ps ++ es) regrouped
              ∙ sym (delete-found o k (flat x.ps) (entries x.n) x.v rest x.low same mid_sorted)
              ∙ ap (λ es. delete o k es) (sym mid_woven);
          unchanged = λ q. absurd (cc q);
          lone = b.lone;
        }

    pub mid-Removed : 1 ≤ length vs → Removed o degree k (suc h) margin (node (child m cs) vs)
    mid-Removed big = elim (Bool-cases (equal x.v.0 k)) [
      | inl e ↦ mid_same e
      | inr e ↦ mid_other big e
    ]
