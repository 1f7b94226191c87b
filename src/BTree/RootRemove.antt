-- ===== src/BTree/RootRemove.antt =====
-- `remove` of the whole tree of include/txl/btree.h.
use libtxl.Prelude.{
  ℕ, zero, suc, ◌≤◌, ◌<◌, ◌≡◌, true, refl, sym, ap, ◌∙◌, Option, none, some, List, [], ◌∷◌,
  append-nil, ltb, arith, size_mod,
}
use libtxl.BTree.Key.{Key}
use libtxl.BTree.Sorted.{IsSorted, delete, delete-IsSorted}
use libtxl.BTree.Defs.{
  Node, node, Children, nil, null, child, insert_into, insert_into_leaf, grown, insert, ◌>>=◌,
  children, num_children,
}
use libtxl.BTree.Remove.{RemoveResult, settled, remove_from, remove}
use libtxl.BTree.Entries.{entries, weave, AllNull, IsFormed, inner, last, more}
use libtxl.BTree.Find.{weave-AllNull}
use libtxl.BTree.Split.{AreFormed-IsFormed}
use libtxl.BTree.Balanced.{Lone}
use libtxl.BTree.Focus.{leaf-LeafRemoved}
use libtxl.BTree.Removed.{remove_from-Removed}
use libtxl.BTree.Root.{
  no_root, leaf_root, inner_root, IsTree, tree_entries, keeps_root, IsFormed-IsTree, IsBTree, slots,
  slots-IsFormed,
}

module _ {K V : Type 0} (o : Key K) where
  -- A tree or no root with these entries, as a result
  pub record Leaves (root : Option (Node K V)) (result : Option (Option (Node K V)))
      (es : List (K × V)) : Type 0 where
    pub to : Option (Node K V)
    pub result_eq : result ≡ some to
    pub holds : IsBTree o to es
    pub roomy : 2 ≤ slots root → 2 ≤ slots to

  module _ (degree : ℕ) (k : K) where
    leaf_settled :
        (cs : Children K V) (vs ws : List (K × V))
        → AllNull cs
        → keeps_root (some (node cs vs)) ≡ true
        → settled o degree (node cs ws) ≡ some (node cs ws)
    leaf_settled nil vs ws g keeps = refl
    leaf_settled (null nil) vs ws g keeps = cc
    leaf_settled (null (null cs)) vs ws g keeps = refl
    leaf_settled (null (child m cs)) vs ws g keeps = elim g [ ]
    leaf_settled (child m cs) vs ws g keeps = elim g [ ]

    inner_settled :
        (h : ℕ) (n : Node K V) (es : List (K × V))
        → IsFormed (suc h) zero n
        → IsSorted o es
        → entries n ≡ es
        → IsBTree o (settled o degree n) es
    unfolding entries
    inner_settled h n es (inner _ _ m cs vs (last _ _ l f big)) s same = record {
      tree = IsFormed-IsTree h m f big;
      sorted = s;
      same = sym (append-nil (entries m)) ∙ same;
    }
    inner_settled h n es (inner _ _ m cs vs (more _ _ l ds v ws f big (last _ _ p g b))) s same =
        record {
          tree =
              inner_root h l (child p nil) (v ∷ [])
                (more h zero l (child p nil) v [] f big (last h zero p g b)) (omega arith);
          sorted = s;
          same = same;
        }
    inner_settled h n es (inner _ _ m cs vs (more _ _ l ds v ws f big (more _ _ p ps x xs g b fs)))
          s same =
        record {
          tree =
              inner_root h l (child p ps) (v ∷ x ∷ xs)
                (more h zero l (child p ps) v (x ∷ xs) f big (more h zero p ps x xs g b fs))
                (omega arith);
          sorted = s;
          same = same;
        }

    settled_roomy :
        (h : ℕ) (n : Node K V)
        → IsFormed (suc h) zero n
        → Lone (children n)
        → 2 ≤ slots (settled o degree n)
    settled_roomy h n (inner _ _ m cs vs (last _ _ l f big)) two =
        omega (arith, two, slots-IsFormed h m f)
    settled_roomy h n (inner _ _ m cs vs (more _ _ l ds v ws f big (last _ _ p g b))) two =
        omega arith
    settled_roomy h n (inner _ _ m cs vs (more _ _ l ds v ws f big (more _ _ p ps x xs g b fs)))
          two =
        omega arith

    removed-Leaves :
        (n to : Node K V) (res : RemoveResult) (es : List (K × V))
        → remove_from o degree n k ≡ some (to, res)
        → IsBTree o (settled o degree to) es
        → (2 ≤ num_children (children n) → 2 ≤ slots (settled o degree to))
        → Leaves (some n) (remove o degree (some n) k) es
    unfolding remove
    removed-Leaves n to res es e t room = record {
      roomy = room;
      to = settled o degree to;
      result_eq = rw (remove, e) refl;
      holds = t;
    }

    root_removed :
        (root : Option (Node K V)) (es : List (K × V))
        → 3 ≤ degree
        → degree < size_mod
        → IsTree root
        → keeps_root root ≡ true
        → IsSorted o es
        → tree_entries root ≡ es
        → Leaves root (remove o degree root k) (delete o k es)
    unfolding remove delete entries
    root_removed root es wide narrow no_root keeps s same = record {
      to = none;
      roomy = λ q. q;
      result_eq = refl;
      holds = record {
        tree = no_root;
        sorted = delete-IsSorted o k es s;
        same = ap (λ xs. delete o k xs) same;
      };
    }
    root_removed root es wide narrow (leaf_root cs vs g room) keeps s same =
        let own = weave-AllNull cs vs g in
        let r = leaf-LeafRemoved o degree k cs vs g (rw (sym own, same) s) in
        let left : weave cs (delete o k vs) ≡ delete o k es =
          weave-AllNull cs (delete o k vs) g ∙ ap (λ xs. delete o k xs) (sym own ∙ same) in
        let t : IsBTree o (some (node cs (delete o k vs))) (delete o k es) = record {
          tree = leaf_root cs (delete o k vs) g (omega (arith, room, r.smaller));
          sorted = delete-IsSorted o k es s;
          same = left;
        } in
        removed-Leaves (node cs vs) (node cs (delete o k vs)) r.res (delete o k es) r.result
          (rw (leaf_settled cs vs (delete o k vs) g keeps) t)
          (rw (leaf_settled cs vs (delete o k vs) g keeps) (λ q. q))
    root_removed root es wide narrow (inner_root h n cs vs f big) keeps s same =
        let r =
          remove_from-Removed o degree wide narrow k (suc h) zero (node (child n cs) vs)
            (AreFormed-IsFormed f) big (rw (same) s) in
        removed-Leaves (node (child n cs) vs) r.to r.res (delete o k es) r.result
          (inner_settled h r.to (delete o k es) r.formed (delete-IsSorted o k es s)
            (r.same ∙ ap (λ xs. delete o k xs) same))
          (λ q. settled_roomy h r.to r.formed r.lone)

    -- With a degree of 3 or more, `remove` returns, and takes out the entry with the key if there is
    -- one, unless the root is a leaf whose `children` are one null pointer.
    pub remove-IsBTree :
        {root : Option (Node K V)} {es : List (K × V)}
        → 3 ≤ degree
        → degree < size_mod
        → IsBTree o root es
        → keeps_root root ≡ true
        → Leaves root (remove o degree root k) (delete o k es)
    remove-IsBTree {root} {es} wide narrow t keeps =
        root_removed root es wide narrow t.tree keeps t.sorted t.same

    -- After one `insert` into a tree without a root, a `remove` of any key, also of one that is not in
    -- the tree, leaves a tree without a root: the entry is lost.
    pub remove-insert_lost :
        (e : K × V)
        → 1 < degree
        → (insert o degree none e >>= λ n. remove o degree (some n) k) ≡ some none
    unfolding insert insert_into_leaf insert_into grown remove
    remove-insert_lost e wide =
        let fit : ltb 1 degree ≡ true = ground (arith, wide) in
        let r = leaf-LeafRemoved o degree k (null nil) (e ∷ []) tt (tt, tt) in
        rw (fit, remove, r.result) refl
