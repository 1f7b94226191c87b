-- ===== src/BTree/Join.antt =====
-- What `merge` of include/txl/btree.h makes of two neighbours.
use libtxl.Prelude.{ℕ, ◌≡◌, refl, ◌∷◌, ◌++◌, length-append, arith}
use libtxl.BTree.Defs.{Node, node, child, children, values}
use libtxl.BTree.Rebalance.{◌+++◌}
use libtxl.BTree.Entries.{entries, IsFormed, leaf, inner}
use libtxl.BTree.Find.{weave-AllNull}
use libtxl.BTree.Split.{AreFormed-IsFormed}
use libtxl.BTree.Rotate.{AllNull-append, num_children-append, AreFormed-append, weave-append}

module _ {K V : Type 0} where
  -- Two neighbours with the parent's value between them, as one node
  pub record Joined (h margin : ℕ) (l r : Node K V) (v : K × V) : Type 0 where
    pub formed : IsFormed h margin (node (children l +++ children r) (values l ++ (v ∷ values r)))
    pub same :
        entries (node (children l +++ children r) (values l ++ (v ∷ values r)))
        ≡ entries l ++ (v ∷ entries r)

  pub join-Joined :
      (h margin : ℕ) (l r : Node K V) (v : K × V)
      → IsFormed h 1 l
      → IsFormed h margin r
      → Joined h margin l r v
  unfolding entries
  join-Joined h margin l r v (leaf _ cs vs g room) (leaf _ ds ws gr room_r) =
      let all = AllNull-append cs ds g gr in
      record {
        formed =
            leaf margin (cs +++ ds) (vs ++ (v ∷ ws)) all
              (omega (arith, room, room_r, num_children-append cs ds, length-append vs (v ∷ ws)));
        same =
            rw
              (
                weave-AllNull (cs +++ ds) (vs ++ (v ∷ ws)) all,
                weave-AllNull cs vs g,
                weave-AllNull ds ws gr,
              )
              refl;
      }
  join-Joined h margin l r v (inner g _ m cs vs fl) (inner _ _ n ds ws fr) = record {
    formed = AreFormed-IsFormed (AreFormed-append g margin (child m cs) (child n ds) v vs ws fl fr);
    same = weave-append g (child m cs) (child n ds) v vs ws fl;
  }
