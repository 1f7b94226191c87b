-- ===== src/BTree/Balanced.antt =====
-- `rebalance` of include/txl/btree.h keeps the entries, and leaves no child without a value.
use libtxl.Prelude.{
  ℕ, ◌≤◌, ◌<◌, ◌≡◌, Bool, true, false, ◌&&◌, ◌||◌, Bool-cases, refl, sym, ap, ◌∙◌, inl, inr, Option,
  some, List, [], ◌∷◌, ◌++◌, append_assoc, length, length-append, ltb, arith, size_mod, ◌+◌,
}
use libtxl.BTree.Key.{Key}
use libtxl.BTree.Sorted.{Below}
use libtxl.BTree.Defs.{Node, node, Children, child, children, values, num_children, nil, null}
use libtxl.BTree.Rebalance.{underflows, rebalance_pair}
use libtxl.BTree.Entries.{entries, weave, IsFormed, leaf, inner, AreFormed, more}
use libtxl.BTree.Split.{AreFormed-num_children}
use libtxl.BTree.Zipper.{
  at, before, behind, flat, PreFormed, rest_entries, weave-child, weave-before, AreFormed-before,
}
use libtxl.BTree.Rotate.{left-LeftRotated}
use libtxl.BTree.RotateRight.{right-RightRotated}
use libtxl.BTree.Join.{join-Joined}
use libtxl.BTree.Parent.{parent_of, rotate_left-parent, rotate_right-parent, merge-parent}

module _ {K V : Type 0} where
  -- A child without siblings has two values or more.
  abbrev pub Lone : Children K V → Type 0
  Lone (child m nil) = 2 ≤ length (values m)
  Lone nil = Unit
  Lone (null cs) = Unit
  Lone (child m (null cs)) = Unit
  Lone (child m (child n cs)) = Unit

  pair-Lone :
      (ps : List (Node K V × (K × V))) (l r : Node K V) (rest : Children K V)
      → Lone (before ps (child l (child r rest)))
  pair-Lone [] l r rest = tt
  pair-Lone ((n, v) ∷ []) l r rest = tt
  pair-Lone ((n, v) ∷ (m, w) ∷ ps) l r rest = tt

  merged-Lone :
      (ps : List (Node K V × (K × V))) (n : Node K V) (rest : Children K V)
      → 2 ≤ length (values n)
      → Lone (before ps (child n rest))
  merged-Lone [] n nil h = h
  merged-Lone [] n (null cs) h = tt
  merged-Lone [] n (child m cs) h = tt
  merged-Lone ((m, v) ∷ []) n rest h = tt
  merged-Lone ((m, v) ∷ (l, w) ∷ ps) n rest h = tt

  -- What `rebalance` returns: formed children and their values, with the entries `es`
  pub record IsRebalanced (h margin : ℕ) (result : Option (Node K V)) (es : List (K × V))
      : Type 0 where
    pub to_children : Children K V
    pub to_values : List (K × V)
    pub result_eq : result ≡ some (node to_children to_values)
    pub formed : AreFormed h margin to_children to_values
    pub same : weave to_children to_values ≡ es
    pub lone : Lone to_children

  pub IsFormed-room :
      (h : ℕ) (n : Node K V) → IsFormed h 1 n → length (values n) ≤ num_children (children n)
  IsFormed-room h n (leaf _ cs vs g room) = omega (arith, room)
  IsFormed-room h n (inner g _ m cs vs f) = omega (arith, AreFormed-num_children f)

  regroup :
      (a b c d t : List (K × V)) (u v : K × V)
      → a ++ (u ∷ b) ≡ c ++ (v ∷ d)
      → a ++ (u ∷ (b ++ t)) ≡ c ++ (v ∷ (d ++ t))
  regroup a b c d t u v e =
      sym (append_assoc a (u ∷ b) t) ∙ ap (λ es. es ++ t) e ∙ append_assoc c (v ∷ d) t

module _ {K V : Type 0} (h margin last_margin : ℕ) (ps : List (Node K V × (K × V)))
    (rest : Children K V) (ws : List (K × V)) (pre : PreFormed h ps)
    (tail : (n : Node K V)
      → IsFormed h last_margin n
      → 1 ≤ length (values n)
      → AreFormed h margin (child n rest) ws) where
  pair-IsRebalanced :
      (result : Option (Node K V)) (l r : Node K V) (u : K × V) (es : List (K × V))
      → result ≡ some (node (before ps (child l (child r rest))) (behind ps (u ∷ ws)))
      → IsFormed h 1 l
      → 1 ≤ length (values l)
      → IsFormed h last_margin r
      → 1 ≤ length (values r)
      → entries l ++ (u ∷ (entries r ++ rest_entries rest ws)) ≡ es
      → IsRebalanced h margin result (flat ps ++ es)
  unfolding entries
  pair-IsRebalanced result l r u es e fl bl fr br same = record {
    to_children = before ps (child l (child r rest));
    to_values = behind ps (u ∷ ws);
    result_eq = e;
    formed =
        AreFormed-before h margin ps (child l (child r rest)) (u ∷ ws) pre
          (more h margin l (child r rest) u ws fl bl (tail r fr br));
    same =
        weave-before ps (child l (child r rest)) (u ∷ ws)
        ∙ ap (λ xs. flat ps ++ (entries l ++ (u ∷ xs))) (weave-child r rest ws)
        ∙ ap (λ xs. flat ps ++ xs) same;
    lone = pair-Lone ps l r rest;
  }

  merged-IsRebalanced :
      (result : Option (Node K V)) (n : Node K V) (es : List (K × V))
      → result ≡ some (node (before ps (child n rest)) (behind ps ws))
      → IsFormed h last_margin n
      → 2 ≤ length (values n)
      → entries n ++ rest_entries rest ws ≡ es
      → IsRebalanced h margin result (flat ps ++ es)
  merged-IsRebalanced result n es e f b same = record {
    to_children = before ps (child n rest);
    to_values = behind ps ws;
    result_eq = e;
    formed = AreFormed-before h margin ps (child n rest) ws pre (tail n f (omega (arith, b)));
    same =
        weave-before ps (child n rest) ws ∙ ap (λ xs. flat ps ++ xs) (weave-child n rest ws ∙ same);
    lone = merged-Lone ps n rest b;
  }

and_right : (a b : Bool) → (a && b) ≡ true → b ≡ true
and_right true b e = e
and_right false b e = cc

or_left : (a b : Bool) → (a || b) ≡ false → a ≡ false
or_left true b e = cc
or_left false b e = refl

or_right : (a b : Bool) → (a || b) ≡ false → b ≡ false
or_right true b e = cc
or_right false b e = e

module _ {K V : Type 0} (o : Key K) (degree : ℕ) (wide : 3 ≤ degree)
    (narrow : degree < size_mod) where
  not_under : (n : Node K V) → underflows o degree n ≡ false → 1 ≤ length (values n)
  not_under n e = ground (arith, e, wide, narrow)

  pub rebalance_pair-IsRebalanced :
      (h margin last_margin : ℕ) (ps : List (Node K V × (K × V))) (rest : Children K V)
      (ws : List (K × V)) (l r : Node K V) (v : K × V)
      → PreFormed h ps
      → ((n : Node K V)
          → IsFormed h last_margin n
          → 1 ≤ length (values n)
          → AreFormed h margin (child n rest) ws)
      → IsFormed h 1 l
      → IsFormed h last_margin r
      → Below o v.0 (values l)
      → 1 ≤ length (values l) + length (values r)
      → IsRebalanced h margin
          (rebalance_pair o degree (parent_of ps l r rest v ws) (at ps 0) l r)
          (flat ps ++ (entries l ++ (v ∷ (entries r ++ rest_entries rest ws))))
  unfolding rebalance_pair
  rebalance_pair-IsRebalanced h margin last_margin ps rest ws l r v pre tail fl fr below
        some_value =
      let parent = parent_of ps l r rest v ws in
      elim (Bool-cases (underflows o degree l && ltb 1 (length (values r)))) [
        | inl c ↦
            let big : 2 ≤ length (values r) =
              ground (arith, and_right (underflows o degree l) (ltb 1 (length (values r))) c) in
            let x = left-LeftRotated h last_margin l r v fl fr big in
            pair-IsRebalanced h margin last_margin ps rest ws pre tail _ _ _ x.up _
              (rw (rebalance_pair, c) (rotate_left-parent ps l r rest v ws h last_margin x))
              x.left_formed (omega (arith, length-append (values l) (v ∷ []))) x.right_formed
              x.right_big (regroup _ _ (entries l) (entries r) (rest_entries rest ws) x.up v x.same)
        | inr c ↦ elim (Bool-cases (underflows o degree r && ltb 1 (length (values l)))) [
          | inl d ↦
              let big : 2 ≤ length (values l) =
                ground (arith, and_right (underflows o degree r) (ltb 1 (length (values l))) d) in
              let x = right-RightRotated h last_margin l r v fl fr big in
              pair-IsRebalanced h margin last_margin ps rest ws pre tail _ _ _ x.up _
                (rw (rebalance_pair, c, d) (rotate_right-parent ps l r rest v ws h last_margin x))
                x.left_formed x.left_big x.right_formed (omega arith)
                (regroup _ _ (entries l) (entries r) (rest_entries rest ws) x.up v x.same)
          | inr d ↦ elim (Bool-cases (underflows o degree l || underflows o degree r)) [
            | inl m ↦
                let x = join-Joined h last_margin l r v fl fr in
                merged-IsRebalanced h margin last_margin ps rest ws pre tail _ _ _
                  (rw (rebalance_pair, c, d, m)
                    (merge-parent o ps l r rest v ws below (IsFormed-room h l fl)))
                  x.formed (omega (arith, some_value, length-append (values l) (v ∷ values r)))
                  (ap (λ es. es ++ rest_entries rest ws) x.same
                    ∙ append_assoc (entries l) (v ∷ entries r) (rest_entries rest ws))
            | inr m ↦
                pair-IsRebalanced h margin last_margin ps rest ws pre tail _ l r v _
                  (rw (rebalance_pair, c, d, m) refl) fl
                  (not_under l (or_left (underflows o degree l) (underflows o degree r) m)) fr
                  (not_under r (or_right (underflows o degree l) (underflows o degree r) m)) refl
          ]
        ]
      ]
