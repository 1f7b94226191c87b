-- ===== src/BTree/Stolen.antt =====
-- `steal_max` of include/txl/btree.h takes the last entry out of a node.
use libtxl.Prelude.{
  ℕ, suc, ◌-◌, ◌≤◌, ◌<◌, ◌≡◌, true, refl, sym, ap, ◌∙◌, some, List, [], ◌∷◌, ◌++◌, append-nil,
  append_assoc, length, arith, size_mod,
}
use libtxl.BTree.Key.{Key}
use libtxl.BTree.Sorted.{Below, IsSorted, IsSorted_right, IsSorted-Parts}
use libtxl.BTree.Defs.{Node, node, Children, nil, child, values, num_children, ◌>>=◌}
use libtxl.BTree.Rebalance.{rebalance_pair}
use libtxl.BTree.Remove.{stolen_below, steal_max, steal_last}
use libtxl.BTree.Entries.{entries, weave, IsFormed, leaf, inner, AreFormed, last, more}
use libtxl.BTree.Find.{weave-AllNull, AllNull-leaf}
use libtxl.BTree.Split.{AreFormed-IsFormed}
use libtxl.BTree.Zipper.{
  at, at-suc, before, behind, flat, PreFormed, rest_entries, weave-before, num_children-before,
  length-behind, set_child-before,
}
use libtxl.BTree.RotateRight.{pop_back-IsPopped}
use libtxl.BTree.Parent.{parent_of}
use libtxl.BTree.Balanced.{rebalance_pair-IsRebalanced}
use libtxl.BTree.Snoc.{at-eq-add, All-values, IsSnoc, snoc, rebalance-left}

grouped :
    {A : Type 0} (a b c d : List A) (s : A)
    → (a ++ (b ++ (s ∷ (c ++ [])))) ++ d ≡ a ++ (b ++ (s ∷ (c ++ d)))
grouped a b c d s =
    append_assoc a (b ++ (s ∷ (c ++ []))) d
    ∙ ap (λ es. a ++ es) (append_assoc b (s ∷ (c ++ [])) d)
    ∙ ap (λ es. a ++ (b ++ (s ∷ es))) (append_assoc c [] d)

module _ {K V : Type 0} (o : Key K) (degree : ℕ) (wide : 3 ≤ degree)
    (narrow : degree < size_mod) where
  -- A node without its last entry
  pub record IsStolen (h margin : ℕ) (n : Node K V) : Type 0 where
    pub to : Node K V
    pub entry : K × V
    pub result : steal_max o degree n ≡ some (to, entry)
    pub formed : IsFormed h margin to
    pub same : entries to ++ (entry ∷ []) ≡ entries n

  -- The last child without its last entry
  record LastStolen (h margin : ℕ) (cs : Children K V) (vs : List (K × V)) : Type 0 where
    ps : List (Node K V × (K × V))
    n : Node K V
    to : Node K V
    entry : K × V
    result : steal_last o degree cs ≡ some (to, entry)
    children_eq : cs ≡ before ps (child n nil)
    values_eq : vs ≡ behind ps []
    pre : PreFormed h ps
    formed : IsFormed h margin to
    same : entries to ++ (entry ∷ []) ≡ entries n

  -- `stolen_below` after the last child
  stolen_below-before :
      (front : List (Node K V × (K × V))) (back n to : Node K V) (sep entry : K × V)
      (cs : Children K V) (vs : List (K × V))
      → cs ≡ before front (child back (child n nil))
      → vs ≡ behind front (sep ∷ [])
      → stolen_below o degree cs vs (to, entry) ≡ (
          rebalance_pair o degree (parent_of front back to nil sep []) (at front 0) back to >>= λ p.
          some (p, entry))
  unfolding stolen_below
  stolen_below-before front back n to sep entry cs vs ec ev =
      let counted : num_children (before front (child back (child n nil))) - 1 ≡ at front 1 =
        omega (
          arith,
          num_children-before front (child back (child n nil)),
          at-eq-add front 2,
          at-eq-add front 1,
        ) in
      rw
        (
          ec,
          ev,
          counted,
          set_child-before front (child back (child n nil)) (child back (child to nil)) 1 to refl,
          length-behind front (sep ∷ []),
          sym (at-suc front 0),
          rebalance-left o degree front back to nil sep [],
        )
        refl

  snoc-IsStolen :
      (h margin : ℕ) (m : Node K V) (cs : Children K V) (vs : List (K × V))
      (r : LastStolen h margin (child m cs) vs)
      → IsSnoc h r.ps
      → IsSorted o (weave (child m cs) vs)
      → IsStolen (suc h) margin (node (child m cs) vs)
  unfolding steal_max entries flat rest_entries
  snoc-IsStolen h margin m cs vs r q s =
      let front = q.front in
      let ec : child m cs ≡ before front (child q.back (child r.n nil)) =
        r.children_eq ∙ q.before_eq (child r.n nil) in
      let ev : vs ≡ behind front (q.sep ∷ []) = r.values_eq ∙ q.behind_eq [] in
      let woven : weave (child m cs) vs
          ≡ flat front ++ (entries q.back ++ (q.sep ∷ (entries r.n ++ []))) =
        ap (λ ds. weave ds vs) ec
        ∙ ap (λ ws. weave (before front (child q.back (child r.n nil))) ws) ev
        ∙ weave-before front (child q.back (child r.n nil)) (q.sep ∷ []) in
      let parts : weave (child m cs) vs ≡ flat front ++ (entries q.back ++ (q.sep ∷ entries r.n)) =
        woven
        ∙ ap (λ es. flat front ++ (entries q.back ++ (q.sep ∷ es))) (append-nil (entries r.n)) in
      let sorted : IsSorted o (flat front ++ (entries q.back ++ (q.sep ∷ entries r.n))) =
        rw (sym parts) s in
      let p =
        IsSorted-Parts o (entries q.back) q.sep (entries r.n)
          (IsSorted_right o (flat front) _ sorted) in
      let below = All-values (λ e. o.less e.0 q.sep.0 ≡ true) h 1 q.back q.formed p.below in
      let b =
        rebalance_pair-IsRebalanced o degree wide narrow h margin margin front nil [] q.back r.to
          q.sep q.pre (last h margin) q.formed r.formed below (omega (arith, q.big)) in
      record {
        to = node b.to_children b.to_values;
        entry = r.entry;
        result =
            rw
              (
                steal_max,
                r.result,
                stolen_below-before front q.back r.n r.to q.sep r.entry (child m cs) vs ec ev,
                b.result_eq,
              )
              refl;
        formed = AreFormed-IsFormed b.formed;
        same =
            ap (λ es. es ++ (r.entry ∷ [])) b.same
            ∙ grouped (flat front) (entries q.back) (entries r.to) (r.entry ∷ []) q.sep
            ∙ ap (λ es. flat front ++ (entries q.back ++ (q.sep ∷ es))) r.same
            ∙ sym parts;
      }

  inner-IsStolen :
      (h margin : ℕ) (m : Node K V) (cs : Children K V) (vs : List (K × V))
      → 1 ≤ length vs
      → IsSorted o (weave (child m cs) vs)
      → LastStolen h margin (child m cs) vs
      → IsStolen (suc h) margin (node (child m cs) vs)
  inner-IsStolen h margin m cs vs big s r =
      let counted : length vs ≡ at r.ps 0 = ap length r.values_eq ∙ length-behind r.ps [] in
      snoc-IsStolen h margin m cs vs r
        (snoc h r.ps r.pre (omega (arith, big, counted, at-eq-add r.ps 0))) s

  steal_last-child :
      (h margin : ℕ) (n : Node K V) (cs : Children K V) (vs : List (K × V))
      → AreFormed h margin cs vs
      → steal_last o degree (child n cs) ≡ steal_last o degree cs
  unfolding steal_max
  steal_last-child h margin n cs vs (last _ _ m f big) = refl
  steal_last-child h margin n cs vs (more _ _ m ds v ws f big fs) = refl

  mutual
    unfolding steal_max entries

    node-IsStolen :
        (h margin : ℕ) (n : Node K V)
        → IsFormed h margin n
        → 1 ≤ length (values n)
        → IsSorted o (entries n)
        → IsStolen h margin n
    node-IsStolen h margin n (leaf _ cs vs g room) big s =
        let p = pop_back-IsPopped vs big in
        record {
          to = node cs p.front;
          entry = p.back;
          result = rw (steal_max, AllNull-leaf cs g, p.result) refl;
          formed = leaf margin cs p.front g (omega (arith, room, p.counted));
          same =
              ap (λ es. es ++ (p.back ∷ [])) (weave-AllNull cs p.front g)
              ∙ p.joined
              ∙ sym (weave-AllNull cs vs g);
        }
    node-IsStolen h margin n (inner g _ m cs vs f) big s =
        inner-IsStolen g margin m cs vs big s (last_stolen g margin (child m cs) vs f s)

    last_stolen :
        (h margin : ℕ) (cs : Children K V) (vs : List (K × V))
        → AreFormed h margin cs vs
        → IsSorted o (weave cs vs)
        → LastStolen h margin cs vs
    last_stolen h margin cs vs (last _ _ n f big) s =
        let r = node-IsStolen h margin n f big (rw (sym (append-nil (entries n))) s) in
        record {
          ps = [];
          n = n;
          to = r.to;
          entry = r.entry;
          result = r.result;
          children_eq = refl;
          values_eq = refl;
          pre = tt;
          formed = r.formed;
          same = r.same;
        }
    last_stolen h margin cs vs (more _ _ n ds v ws f big fs) s =
        let r =
          last_stolen h margin ds ws fs (IsSorted_right o (entries n) (v ∷ weave ds ws) s).1 in
        record {
          ps = (n, v) ∷ r.ps;
          n = r.n;
          to = r.to;
          entry = r.entry;
          result = steal_last-child h margin n ds ws fs ∙ r.result;
          children_eq = ap (λ es. child n es) r.children_eq;
          values_eq = ap (λ es. v ∷ es) r.values_eq;
          pre = (f, big, r.pre);
          formed = r.formed;
          same = r.same;
        }

  pub steal_max-IsStolen :
      (h margin : ℕ) (n : Node K V)
      → IsFormed h margin n
      → 1 ≤ length (values n)
      → IsSorted o (entries n)
      → IsStolen h margin n
  steal_max-IsStolen h margin n f big s = node-IsStolen h margin n f big s

  pub IsStolen-Below :
      (h margin : ℕ) (n : Node K V) (t : IsStolen h margin n)
      → IsSorted o (entries n)
      → Below o t.entry.0 (values t.to)
  IsStolen-Below h margin n t s =
      let sorted : IsSorted o (entries t.to ++ (t.entry ∷ [])) = rw (t.same) s in
      All-values (λ e. o.less e.0 t.entry.0 ≡ true) h margin t.to t.formed
        (IsSorted-Parts o (entries t.to) t.entry [] sorted).below
