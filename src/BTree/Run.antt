-- ===== src/BTree/Run.antt =====
-- Runs of calls on the tree of include/txl/btree.h.
use libtxl.Prelude.{
  ℕ, ◌≤◌, ◌<◌, ◌≡◌, true, refl, Option, none, some, List, [], ◌∷◌, ltb, arith, size_mod,
}
use libtxl.BTree.Key.{Key}
use libtxl.BTree.Sorted.{Absent, put, lookup, delete}
use libtxl.BTree.Defs.{
  Node, node, nil, null, find_root, insert_into, insert_into_leaf, grown, insert, ◌>>=◌,
}
use libtxl.BTree.Remove.{remove}
use libtxl.BTree.Entries.{entries}
use libtxl.BTree.Focus.{leaf-LeafRemoved}
use libtxl.BTree.Root.{
  leaf_root, slots, slots-keeps_root, IsBTree, find_root-IsBTree, insert-IsBTree,
}
use libtxl.BTree.RootRemove.{remove-IsBTree}

pub data Op (K V : Type 0) : Type 0 where
  add : K × V → Op K V
  drop_key : K → Op K V
  seek : K → Op K V

-- What a tree stands for: no root, the one entry of a first `insert`, or entries in order
pub data Model (K V : Type 0) : Type 0 where
  unrooted : Model K V
  fresh : K × V → Model K V
  rooted : List (K × V) → Model K V

module _ {K V : Type 0} where
  abbrev pub model_entries : Model K V → List (K × V)
  model_entries unrooted = []
  model_entries (fresh e) = e ∷ []
  model_entries (rooted es) = es

module _ {K V : Type 0} (o : Key K) where
  abbrev pub model_add : K × V → Model K V → Model K V
  model_add e unrooted = fresh e
  model_add e (fresh x) = rooted (put o e (x ∷ []))
  model_add e (rooted es) = rooted (put o e es)

  -- The entry of a first `insert` is lost, whatever the key.
  abbrev pub model_drop : K → Model K V → Model K V
  model_drop k unrooted = unrooted
  model_drop k (fresh x) = unrooted
  model_drop k (rooted es) = rooted (delete o k es)

  unfoldable pub run_model : Model K V → List (Op K V) → List (Option V) × Model K V
  run_model m [] = ([], m)
  run_model m (add e ∷ ops) = run_model (model_add e m) ops
  run_model m (drop_key k ∷ ops) = run_model (model_drop k m) ops
  run_model m (seek k ∷ ops) = let r = run_model m ops in (lookup o k (model_entries m) ∷ r.0, r.1)

  -- Each key that is added is a new one.
  unfoldable pub NewKeys : Model K V → List (Op K V) → Type 0
  NewKeys m [] = Unit
  NewKeys m (add e ∷ ops) = Absent o e.0 (model_entries m) × NewKeys (model_add e m) ops
  NewKeys m (drop_key k ∷ ops) = NewKeys (model_drop k m) ops
  NewKeys m (seek k ∷ ops) = NewKeys m ops

  pub data Models : Option (Node K V) → Model K V → Type 0 where
    no_root_yet : Models none unrooted
    first_entry : (e : K × V) → Models (some (node (null nil) (e ∷ []))) (fresh e)
    many :
        (root : Option (Node K V)) (es : List (K × V))
        → IsBTree o root es
        → 2 ≤ slots root
        → Models root (rooted es)

  module _ (degree : ℕ) where
    -- The replies of `find`, and the tree at the end
    unfoldable pub run :
        Option (Node K V) → List (Op K V) → Option (List (Option V) × Option (Node K V))
    unfolding insert remove
    run root [] = some ([], root)
    run root (add e ∷ ops) = insert o degree root e >>= λ n. run (some n) ops
    run root (drop_key k ∷ ops) = remove o degree root k >>= λ t. run t ops
    run root (seek k ∷ ops) = find_root o root k >>= λ v. run root ops >>= λ r. some (v ∷ r.0, r.1)

    first-IsBTree : (e : K × V) → IsBTree o (some (node (null nil) (e ∷ []))) (e ∷ [])
    unfolding entries
    first-IsBTree e = record {
      tree = leaf_root (null nil) (e ∷ []) tt (omega arith);
      sorted = (tt, tt);
      same = refl;
    }

    add-Models :
        (root : Option (Node K V)) (m : Model K V) (e : K × V)
        → 3 ≤ degree
        → Models root m
        → Absent o e.0 (model_entries m)
        → (n : Node K V) × (insert o degree root e ≡ some n) × Models (some n) (model_add e m)
    unfolding insert insert_into_leaf insert_into grown
    add-Models root m e wide no_root_yet absent =
        let fit : ltb 1 degree ≡ true = ground (arith, wide) in
        (node (null nil) (e ∷ []), rw (fit) refl, first_entry e)
    add-Models root m e wide (first_entry x) absent =
        let b = insert-IsBTree o degree e wide (first-IsBTree x) absent in
        (b.to, b.result_eq, many (some b.to) _ b.holds (b.roomy (omega arith)))
    add-Models root m e wide (many _ es t room) absent =
        let b = insert-IsBTree o degree e wide t absent in
        (b.to, b.result_eq, many (some b.to) _ b.holds (b.roomy (omega (arith, room))))

    drop-Models :
        (root : Option (Node K V)) (m : Model K V) (k : K)
        → 3 ≤ degree
        → degree < size_mod
        → Models root m
        → (t : Option (Node K V)) × (remove o degree root k ≡ some t) × Models t (model_drop k m)
    unfolding remove
    drop-Models root m k wide narrow no_root_yet = (none, refl, no_root_yet)
    drop-Models root m k wide narrow (first_entry x) =
        let r = leaf-LeafRemoved o degree k (null nil) (x ∷ []) tt (tt, tt) in
        (none, rw (remove, r.result) refl, no_root_yet)
    drop-Models root m k wide narrow (many _ es t room) =
        let r = remove-IsBTree o degree k wide narrow t (slots-keeps_root root room) in
        (r.to, r.result_eq, many r.to _ r.holds (r.roomy room))

    find-Models :
        (root : Option (Node K V)) (m : Model K V) (k : K)
        → Models root m
        → find_root o root k ≡ some (lookup o k (model_entries m))
    unfolding lookup
    find-Models root m k no_root_yet = refl
    find-Models root m k (first_entry x) = find_root-IsBTree o k (first-IsBTree x)
    find-Models root m k (many _ es t room) = find_root-IsBTree o k t

    run-Models :
        (root : Option (Node K V)) (m : Model K V) (ops : List (Op K V))
        → 3 ≤ degree
        → degree < size_mod
        → Models root m
        → NewKeys m ops
        → (t : Option (Node K V)) × (run root ops ≡ some ((run_model m ops).0, t))
          × Models t (run_model m ops).1
    unfolding run run_model NewKeys
    run-Models root m [] wide narrow h new = (root, refl, h)
    run-Models root m (add e ∷ ops) wide narrow h new =
        let (n, e1, h1) = add-Models root m e wide h new.0 in
        let (t, e2, h2) = run-Models (some n) (model_add e m) ops wide narrow h1 new.1 in
        (t, rw (e1) e2, h2)
    run-Models root m (drop_key k ∷ ops) wide narrow h new =
        let (u, e1, h1) = drop-Models root m k wide narrow h in
        let (t, e2, h2) = run-Models u (model_drop k m) ops wide narrow h1 new in
        (t, rw (e1) e2, h2)
    run-Models root m (seek k ∷ ops) wide narrow h new =
        let (t, e2, h2) = run-Models root m ops wide narrow h new in
        (t, rw (find-Models root m k h, e2) refl, h2)

    -- No run of calls on a new tree of degree 3 or more, in which each inserted key is a new one,
    -- tells it from the ordered list of its entries, but for one case: a `remove` when a single
    -- `insert` was made since the tree had no root takes that entry out, whatever its key. Every
    -- call returns, and each `find` has the reply of a lookup in the list.
    pub run_refines_list :
        (ops : List (Op K V))
        → 3 ≤ degree
        → degree < size_mod
        → NewKeys unrooted ops
        → (t : Option (Node K V)) × (run none ops ≡ some ((run_model unrooted ops).0, t))
          × Models t (run_model unrooted ops).1
    run_refines_list ops wide narrow new = run-Models none unrooted ops wide narrow no_root_yet new
