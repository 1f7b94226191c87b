-- ===== src/BTree/Tests.antt =====
-- The tree of include/txl/btree.h at concrete inputs.
use libtxl.Prelude.{ℕ, ◌≤◌, ◌≡◌, Option, none, some, [], ◌∷◌, refl, arith, List}
use libtxl.BTree.Key.{nat_key}
use libtxl.BTree.Sorted.{Absent, put, lookup, delete}
use libtxl.BTree.Defs.{
  Node, node, nil, null, child, halves, insert_into, split_into, inserted_below, insert_into_leaf,
  grown, insert, ◌>>=◌,
}
use libtxl.BTree.Rebalance.{rebalance, rebalance_pair, rotate_left, rotate_right, merge}
use libtxl.BTree.Remove.{
  remove, remove_from, removed_below, replace_by_max, steal_max, stolen_below,
}
use libtxl.BTree.Entries.{entries, leaf, last, more}
use libtxl.BTree.Root.{inner_root, IsBTree, Becomes, insert-IsBTree}
use libtxl.BTree.Run.{
  Op, add, drop_key, seek, unrooted, run_model, NewKeys, Models, run, run_refines_list,
}
use libtxl.BTree.RootRemove.{Leaves, remove-IsBTree, remove-insert_lost}

-- The tree of degree 3 after `insert` of 1, 2 and 3
abbrev small_leaf : Node ℕ ℕ
small_leaf = node (null (null nil)) ((1, 10) ∷ [])

abbrev big_leaf : Node ℕ ℕ
big_leaf = node (null nil) ((3, 30) ∷ [])

abbrev three : Option (Node ℕ ℕ)
three = some (node (child small_leaf (child big_leaf nil)) ((2, 20) ∷ []))

insert-three :
    (insert nat_key 3 none (1, 10) >>= λ a.
    insert nat_key 3 (some a) (3, 30) >>= λ b. insert nat_key 3 (some b) (2, 20))
    ≡ three
unfolding insert insert_into_leaf insert_into inserted_below grown split_into halves nat_key
insert-three = refl

three-IsBTree : IsBTree nat_key three ((1, 10) ∷ (2, 20) ∷ (3, 30) ∷ [])
unfolding entries nat_key
three-IsBTree = record {
  tree =
      inner_root 0 small_leaf (child big_leaf nil) ((2, 20) ∷ [])
        (more 0 0 small_leaf (child big_leaf nil) (2, 20) []
          (leaf 1 (null (null nil)) ((1, 10) ∷ []) tt (omega arith)) (omega arith)
          (last 0 0 big_leaf (leaf 0 (null nil) ((3, 30) ∷ []) tt (omega arith)) (omega arith)))
        (omega arith);
  sorted = ((refl, (refl, tt)), ((refl, tt), (tt, tt)));
  same = refl;
}

three-Absent : (k : ℕ) → 4 ≤ k → Absent {V = ℕ} nat_key k ((1, 10) ∷ (2, 20) ∷ (3, 30) ∷ [])
three-Absent k h = (
  λ e. absurd (omega (arith, e, h)),
  (λ e. absurd (omega (arith, e, h)), (λ e. absurd (omega (arith, e, h)), tt)),
)

insert-IsBTree_example :
    Becomes nat_key three
      (insert nat_key 3 three (4, 40))
      (put nat_key (4, 40) ((1, 10) ∷ (2, 20) ∷ (3, 30) ∷ []))
insert-IsBTree_example =
    insert-IsBTree nat_key 3 (4, 40) (omega arith) three-IsBTree (three-Absent 4 (omega arith))

remove-IsBTree_example :
    Leaves nat_key three
      (remove nat_key 3 three 2)
      (delete nat_key 2 ((1, 10) ∷ (2, 20) ∷ (3, 30) ∷ []))
remove-IsBTree_example = remove-IsBTree nat_key 3 2 (omega arith) (omega arith) three-IsBTree refl

-- The two leaves and the largest key of the first become one leaf, which is the root.
remove-three :
    remove nat_key 3 three 2 ≡ some (some (node (null (null (null nil))) ((1, 10) ∷ (3, 30) ∷ [])))
unfolding remove remove_from removed_below replace_by_max steal_max stolen_below rebalance
    rebalance_pair rotate_left rotate_right merge insert_into nat_key
remove-three = refl

remove-insert_lost_example :
    (insert {V = ℕ} nat_key 3 none (1, 10) >>= λ n. remove nat_key 3 (some n) 7) ≡ some none
remove-insert_lost_example = remove-insert_lost nat_key 3 7 (1, 10) (omega arith)

-- 1 is lost, 2, 3 and 1 are kept, 2 is removed and not found.
abbrev script : List (Op ℕ ℕ)
script =
    add (1, 10)
    ∷ drop_key 7
    ∷ seek 1
    ∷ add (2, 20)
    ∷ add (3, 30)
    ∷ add (1, 11)
    ∷ drop_key 2
    ∷ seek 2
    ∷ seek 1
    ∷ []

script-NewKeys : NewKeys nat_key unrooted script
unfolding NewKeys put delete nat_key
script-NewKeys = (
  tt,
  (
    tt,
    (
      ((λ e. absurd (omega (arith, e))), tt),
      (((λ e. absurd (omega (arith, e))), ((λ e. absurd (omega (arith, e))), tt)), tt),
    ),
  ),
)

run_refines_list_example :
    (t : Option (Node ℕ ℕ)) × (run nat_key 3 none script
      ≡ some ((run_model nat_key unrooted script).0, t))
    × Models nat_key t (run_model nat_key unrooted script).1
run_refines_list_example =
    run_refines_list nat_key 3 script (omega arith) (omega arith) script-NewKeys

replies-script : (run_model nat_key unrooted script).0 ≡ none ∷ none ∷ some 11 ∷ []
unfolding run_model put delete lookup nat_key
replies-script = refl
