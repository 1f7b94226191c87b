-- ===== src/BTree/Parent.antt =====
-- What a rotation or a merge of include/txl/btree.h makes of the parent.
use libtxl.Prelude.{
  ℕ, zero, suc, ◌≤◌, ◌≡◌, refl, ap, some, List, [], ◌∷◌, ◌++◌, append_assoc, length, arith,
}
use libtxl.BTree.Key.{Key}
use libtxl.BTree.Sorted.{Below}
use libtxl.BTree.Defs.{
  Node, node, Children, nil, null, child, children, values, num_children, emplace_null, emplace_at,
  index_of, insert_into,
}
use libtxl.BTree.Rebalance.{remove_child_at, ◌+++◌, put_pair, rotate_left, rotate_right, merge}
use libtxl.BTree.Zipper.{
  at, at-suc, before, behind, get_elem?-behind, emplace_at-behind, erase_at-behind,
  set_child-before, remove_child_at-before,
}
use libtxl.BTree.Rotate.{LeftRotated}
use libtxl.BTree.RotateRight.{RightRotated}

module _ {K V : Type 0} (ps : List (Node K V × (K × V))) where
  put_pair-before :
      (l r l' r' : Node K V) (rest : Children K V) (us vs : List (K × V))
      → put_pair (at ps 0) l' r' (node (before ps (child l (child r rest))) us) vs
        ≡ some (node (before ps (child l' (child r' rest))) vs)
  put_pair-before l r l' r' rest us vs =
      rw
        (
          set_child-before ps (child l (child r rest)) (child l' (child r rest)) 0 l' refl,
          at-suc ps 0,
          set_child-before ps (child l' (child r rest)) (child l' (child r' rest)) 1 r' refl,
        )
        refl

module _ {K V : Type 0} (ps : List (Node K V × (K × V))) (l r : Node K V) (rest : Children K V)
    (v : K × V) (ws : List (K × V)) where
  abbrev pub parent_of : Node K V
  parent_of = node (before ps (child l (child r rest))) (behind ps (v ∷ ws))

  pub rotate_left-parent :
      (h margin : ℕ) (x : LeftRotated h margin l r v)
      → rotate_left parent_of (at ps 0) l r
        ≡ some (
            node
              (before ps (
                child
                  (node (children l +++ x.moved) (values l ++ (v ∷ [])))
                  (child (node x.left_over x.kept) rest)))
              (behind ps (x.up ∷ ws)))
  unfolding rotate_left
  rotate_left-parent h margin x =
      rw
        (
          get_elem?-behind ps (v ∷ ws) 0,
          erase_at-behind ps (v ∷ ws) ws 0 refl,
          x.up_eq,
          x.moved_eq,
          x.kept_eq,
          x.left_over_eq,
          emplace_at-behind ps ws 0 x.up,
        )
        (put_pair-before ps l r _ _ rest (behind ps (v ∷ ws)) (behind ps (x.up ∷ ws)))

  pub rotate_right-parent :
      (h margin : ℕ) (x : RightRotated h margin l r v)
      → rotate_right parent_of (at ps 0) l r
        ≡ some (
            node
              (before ps (
                child
                  (node x.left_over x.kept)
                  (child (node (x.moved +++ children r) (v ∷ values r)) rest)))
              (behind ps (x.up ∷ ws)))
  unfolding rotate_right
  rotate_right-parent h margin x =
      rw
        (
          get_elem?-behind ps (v ∷ ws) 0,
          erase_at-behind ps (v ∷ ws) ws 0 refl,
          x.up_eq,
          x.moved_eq,
          x.left_over_eq,
          emplace_at-behind ps ws 0 x.up,
        )
        (put_pair-before ps l r _ _ rest (behind ps (v ∷ ws)) (behind ps (x.up ∷ ws)))

module _ {K V : Type 0} (o : Key K) where
  open o use {less}

  index_of_end : (vs : List (K × V)) (k : K) → Below o k vs → index_of o vs k ≡ length vs
  index_of_end [] k h = refl
  index_of_end (v ∷ vs) k (p, h) = rw (p) (ap suc (index_of_end vs k h))

  emplace_end : (vs : List (K × V)) (e : K × V) → emplace_at (length vs) e vs ≡ vs ++ (e ∷ [])
  emplace_end [] e = refl
  emplace_end (v ∷ vs) e = ap (λ ws. v ∷ ws) (emplace_end vs e)

  -- A null child that is taken out again
  nulled_and_back :
      (i : ℕ) (cs : Children K V)
      → i ≤ num_children cs
      → (ds : Children K V) × (emplace_null i cs ≡ some ds) × (remove_child_at i ds ≡ some cs)
  nulled_and_back zero cs h = (null cs, refl, refl)
  nulled_and_back (suc i) nil h = absurd (omega (arith, h))
  nulled_and_back (suc i) (null cs) h =
      let (ds, e, r) = nulled_and_back i cs (omega (arith, h)) in
      (null ds, rw (e) refl, rw (r) refl)
  nulled_and_back (suc i) (child n cs) h =
      let (ds, e, r) = nulled_and_back i cs (omega (arith, h)) in
      (child n ds, rw (e) refl, rw (r) refl)

  pub merge-parent :
      (ps : List (Node K V × (K × V))) (l r : Node K V) (rest : Children K V) (v : K × V)
      (ws : List (K × V))
      → Below o v.0 (values l)
      → length (values l) ≤ num_children (children l)
      → merge o (parent_of ps l r rest v ws) (at ps 0) l r
        ≡ some (
            node
              (before ps
                (child (node (children l +++ children r) (values l ++ (v ∷ values r))) rest))
              (behind ps ws))
  unfolding merge insert_into
  merge-parent ps (node cs vs) r rest v ws below room =
      let (ds, put_eq, back_eq) = nulled_and_back (length vs) cs room in
      let joined : Node K V = node (cs +++ children r) (vs ++ (v ∷ values r)) in
      rw
        (
          get_elem?-behind ps (v ∷ ws) 0,
          index_of_end vs v.0 below,
          put_eq,
          back_eq,
          erase_at-behind ps (v ∷ ws) ws 0 refl,
          emplace_end vs v,
          append_assoc vs (v ∷ []) (values r),
          set_child-before ps (child (node cs vs) (child r rest)) (child joined (child r rest)) 0
              joined refl,
          at-suc ps 0,
          remove_child_at-before ps (child joined (child r rest)) (child joined rest) 1 refl,
        )
        refl
