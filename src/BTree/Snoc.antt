-- ===== src/BTree/Snoc.antt =====
-- The last two children of a node of include/txl/btree.h, and the calls of `rebalance` in a node.
use libtxl.Prelude.{
  ℕ, suc, ◌+◌, ◌-◌, ◌≤◌, ◌≡◌, true, false, refl, sym, ap, ◌∙◌, List, [], ◌∷◌, ◌++◌, append_assoc,
  length, ◌==◌, arith,
}
use libtxl.BTree.Key.{Key}
use libtxl.BTree.Sorted.{All, All_right}
use libtxl.BTree.Defs.{Node, Children, nil, child, values, num_children}
use libtxl.BTree.Rebalance.{rebalance_pair, rebalance}
use libtxl.BTree.Entries.{entries, weave, IsFormed, leaf, inner, AreFormed, last, more}
use libtxl.BTree.Find.{weave-AllNull}
use libtxl.BTree.Zipper.{
  at, at-suc, before, behind, flat, PreFormed, num_children-before, child_at-before,
}
use libtxl.BTree.Parent.{parent_of}

pub at-eq-add : {A : Type 0} (ps : List A) (j : ℕ) → at ps j ≡ length ps + j
at-eq-add [] j = omega arith
at-eq-add (p ∷ ps) j = omega (arith, at-eq-add ps j)

module _ {K V : Type 0} where
  -- The values of a node are among its entries.
  mutual
    unfolding entries

    values_of :
        (P : K × V → Type 0) (h margin : ℕ) (n : Node K V)
        → IsFormed h margin n
        → All P (entries n)
        → All P (values n)
    values_of P h margin n (leaf _ cs vs g room) a = rw (sym (weave-AllNull cs vs g)) a
    values_of P h margin n (inner g _ m cs vs f) a = values_among P g margin (child m cs) vs f a

    values_among :
        (P : K × V → Type 0) (h margin : ℕ) (cs : Children K V) (vs : List (K × V))
        → AreFormed h margin cs vs
        → All P (weave cs vs)
        → All P vs
    values_among P h margin cs vs (last _ _ n f big) a = tt
    values_among P h margin cs vs (more _ _ n ds v ws f big fs) a =
        let b : P v × All P (weave ds ws) = All_right P (entries n) (v ∷ weave ds ws) a in
        (b.0, values_among P h margin ds ws fs b.1)

  pub All-values :
      (P : K × V → Type 0) (h margin : ℕ) (n : Node K V)
      → IsFormed h margin n
      → All P (entries n)
      → All P (values n)
  All-values P h margin n f a = values_of P h margin n f a

  -- The last of some children with the values behind them
  pub record IsSnoc (h : ℕ) (ps : List (Node K V × (K × V))) : Type 0 where
    pub front : List (Node K V × (K × V))
    pub back : Node K V
    pub sep : K × V
    pub before_eq : (cs : Children K V) → before ps cs ≡ before front (child back cs)
    pub behind_eq : (vs : List (K × V)) → behind ps vs ≡ behind front (sep ∷ vs)
    pub flat_eq : flat ps ≡ flat front ++ (entries back ++ (sep ∷ []))
    pub at_eq : (j : ℕ) → at ps j ≡ at front (suc j)
    pub pre : PreFormed h front
    pub formed : IsFormed h 1 back
    pub big : 1 ≤ length (values back)

  pub snoc : (h : ℕ) (ps : List (Node K V × (K × V))) → PreFormed h ps → 1 ≤ length ps → IsSnoc h ps
  unfolding flat
  snoc h [] p l = absurd (omega (arith, l))
  snoc h ((n, v) ∷ []) (f, big, p) l = record {
    front = [];
    back = n;
    sep = v;
    before_eq = λ cs. refl;
    behind_eq = λ vs. refl;
    flat_eq = refl;
    at_eq = λ j. refl;
    pre = tt;
    formed = f;
    big = big;
  }
  snoc h ((n, v) ∷ p ∷ ps) (f, big, pre) l =
      let r = snoc h (p ∷ ps) pre (omega arith) in
      record {
        front = (n, v) ∷ r.front;
        back = r.back;
        sep = r.sep;
        before_eq = λ cs. ap (λ ds. child n ds) (r.before_eq cs);
        behind_eq = λ vs. ap (λ ws. v ∷ ws) (r.behind_eq vs);
        flat_eq =
            ap (λ es. entries n ++ (v ∷ es)) r.flat_eq
            ∙ sym (append_assoc (entries n) (v ∷ flat r.front) (entries r.back ++ (r.sep ∷ [])));
        at_eq = λ j. ap suc (r.at_eq j);
        pre = (f, big, r.pre);
        formed = r.formed;
        big = r.big;
      }

module _ {K V : Type 0} (o : Key K) (degree : ℕ) (ps : List (Node K V × (K × V))) (l r : Node K V)
    (rest : Children K V) (v : K × V) (ws : List (K × V)) where
  -- `rebalance` at a child with one behind it
  pub rebalance-left :
      rebalance o degree (parent_of ps l r rest v ws) (at ps 0)
      ≡ rebalance_pair o degree (parent_of ps l r rest v ws) (at ps 0) l r
  unfolding rebalance
  rebalance-left =
      let count = num_children-before ps (child l (child r rest)) in
      let more_behind : (suc (at ps 0) == at ps (suc (suc (num_children rest)))) ≡ false =
        ground (arith, at-eq-add ps 0, at-eq-add ps (suc (suc (num_children rest)))) in
      rw
        (
          count,
          more_behind,
          child_at-before ps (child l (child r rest)) 0,
          at-suc ps 0,
          child_at-before ps (child l (child r rest)) 1,
        )
        refl

  -- `rebalance` at the last child
  pub rebalance-right :
      rest ≡ nil
      → rebalance o degree (parent_of ps l r rest v ws) (at ps 1)
        ≡ rebalance_pair o degree (parent_of ps l r rest v ws) (at ps 0) l r
  unfolding rebalance
  rebalance-right e =
      let count : num_children (before ps (child l (child r rest))) ≡ at ps 2 =
        num_children-before ps (child l (child r rest))
        ∙ ap (λ cs. at ps (suc (suc (num_children cs)))) e in
      let at_end : (suc (at ps 1) == at ps 2) ≡ true =
        ground (arith, at-eq-add ps 1, at-eq-add ps 2) in
      let not_first : (at ps 1 == 0) ≡ false = ground (arith, at-eq-add ps 1) in
      let one_less : at ps 1 - 1 ≡ at ps 0 = omega (arith, at-eq-add ps 1, at-eq-add ps 0) in
      rw
        (
          count,
          at_end,
          not_first,
          one_less,
          child_at-before ps (child l (child r rest)) 0,
          at-suc ps 0,
          child_at-before ps (child l (child r rest)) 1,
        )
        refl
