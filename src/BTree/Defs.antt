-- ===== src/BTree/Defs.antt =====
-- `btree` of include/txl/btree.h: its nodes, find and insert. A result `none` is an exception, or an
-- access that is not defined. A key or value that is moved keeps its value.
use libtxl.Prelude.{
  ℕ, zero, suc, ◌/◌, Bool, true, false, Option, none, some, List, [], ◌∷◌, length, get_elem?, take,
  drop, ltb, if◌then◌else◌,
}
use libtxl.BTree.Key.{Key}

-- `values` with `children`, in which a `node_ptr` is a node or null
mutual
  pub data Node (K V : Type 0) : Type 0 where
    node : Children K V → List (K × V) → Node K V

  pub data Children (K V : Type 0) : Type 0 where
    nil : Children K V
    null : Children K V → Children K V
    child : Node K V → Children K V → Children K V

infixl 5 ◌>>=◌
abbrev pub ◌>>=◌ : {A B : Type 0} → Option A → (A → Option B) → Option B
none >>= f = none
some a >>= f = f a

-- `emplace` of a vector, at an index that is not behind its end
abbrev pub emplace_at : {A : Type 0} → ℕ → A → List A → List A
emplace_at zero x xs = x ∷ xs
emplace_at (suc i) x [] = x ∷ []
emplace_at (suc i) x (y ∷ ys) = y ∷ emplace_at i x ys

module _ {K V : Type 0} where
  abbrev pub values : Node K V → List (K × V)
  values (node cs vs) = vs

  abbrev pub children : Node K V → Children K V
  children (node cs vs) = cs

  abbrev pub num_children : Children K V → ℕ
  num_children nil = 0
  num_children (null cs) = suc (num_children cs)
  num_children (child n cs) = suc (num_children cs)

  abbrev pub take_children : ℕ → Children K V → Children K V
  take_children zero cs = nil
  take_children (suc i) nil = nil
  take_children (suc i) (null cs) = null (take_children i cs)
  take_children (suc i) (child n cs) = child n (take_children i cs)

  abbrev pub drop_children : ℕ → Children K V → Children K V
  drop_children zero cs = cs
  drop_children (suc i) nil = nil
  drop_children (suc i) (null cs) = drop_children i cs
  drop_children (suc i) (child n cs) = drop_children i cs

  -- `children.emplace_at(index, nullptr)`
  abbrev pub emplace_null : ℕ → Children K V → Option (Children K V)
  emplace_null zero cs = some (null cs)
  emplace_null (suc i) nil = none
  emplace_null (suc i) (null cs) = emplace_null i cs >>= λ ds. some (null ds)
  emplace_null (suc i) (child n cs) = emplace_null i cs >>= λ ds. some (child n ds)

  -- `set_child`, which appends at the end
  abbrev pub set_child : ℕ → Node K V → Children K V → Option (Children K V)
  set_child zero m nil = some (child m nil)
  set_child zero m (null cs) = some (child m cs)
  set_child zero m (child n cs) = some (child m cs)
  set_child (suc i) m nil = none
  set_child (suc i) m (null cs) = set_child i m cs >>= λ ds. some (null ds)
  set_child (suc i) m (child n cs) = set_child i m cs >>= λ ds. some (child n ds)

  abbrev pub is_leaf : Children K V → Bool
  is_leaf nil = true
  is_leaf (null cs) = true
  is_leaf (child n cs) = false

  -- The two nodes and the entry that `split_into` makes of a node
  unfoldable pub halves : Node K V → Option (Node K V × (K × V) × Node K V)
  halves (node cs vs) =
      let mid = length vs / 2 in
      let parts = get_elem? vs mid >>= λ m. some (
        node (take_children (suc mid) cs) (take mid vs),
        m,
        node (drop_children (suc mid) cs) (drop (suc mid) vs),
      ) in
      if ltb mid (num_children cs) then parts else none

  -- A node whose children were moved out
  abbrev pub nulls : Children K V → Children K V
  nulls nil = nil
  nulls (null cs) = null (nulls cs)
  nulls (child n cs) = null (nulls cs)

  abbrev pub hollow : Node K V → Node K V
  hollow (node cs vs) = node (nulls cs) vs

module _ {K V : Type 0} (o : Key K) where
  open o use {less, equal}

  -- The index of `index_of` and of `upper_index_of`: the comparison of the latter, `>=`, makes it the
  -- lower bound too.
  abbrev pub index_of : List (K × V) → K → ℕ
  index_of [] k = 0
  index_of (e ∷ es) k = let further = suc (index_of es k) in if less e.0 k then further else 0

  -- Whether `index_of` found the key, and its value
  abbrev pub found_at : List (K × V) → ℕ → K → Option V
  found_at vs i k = elim (get_elem? vs i) [
    | none ↦ none
    | some e ↦ if equal e.0 k then some e.1 else none
  ]

  abbrev pub or_below : Option V → Option (Option V) → Option (Option V)
  or_below (some v) below = some (some v)
  or_below none below = below

  -- `find`: the value or `nullptr`
  unfoldable mutual
    pub find : Node K V → K → Option (Option V)
    find (node cs vs) k =
        let deeper = find_child cs (index_of vs k) k in
        or_below (found_at vs (index_of vs k) k) (if is_leaf cs then some none else deeper)

    pub find_child : Children K V → ℕ → K → Option (Option V)
    find_child nil i k = none
    find_child (null cs) zero k = none
    find_child (child n cs) zero k = find n k
    find_child (null cs) (suc i) k = find_child cs i k
    find_child (child n cs) (suc i) k = find_child cs i k

  unfoldable pub insert_into : Node K V → K × V → Option (ℕ × Node K V)
  insert_into (node cs vs) e = do
    let i = index_of vs e.0
    ds ← emplace_null i cs
    some (i, node ds (emplace_at i e vs))

  -- `split_into`: the node, and its parent
  unfoldable pub split_into : Node K V → Node K V → Option (Node K V)
  unfolding insert_into halves
  split_into n parent = do
    (left, m, right) ← halves n
    (i, p) ← insert_into parent m
    ds ← set_child i left (children p)
    es ← set_child (suc i) right ds
    some (node es (values p))

  module _ (degree : ℕ) where
    abbrev pub fits : Node K V → Bool
    fits n = ltb (length (values n)) degree

    -- `insert_into_leaf`, behind the call for the child at `i`
    unfoldable pub inserted_below :
        Children K V → List (K × V) → ℕ → Node K V × Bool → Option (Node K V × Bool)
    unfolding split_into
    inserted_below cs vs i (n, true) = do ds ← set_child i n cs; some (node ds vs, true)
    inserted_below cs vs i (n, false) = do
      ds ← set_child i (hollow n) cs
      p ← split_into n (node ds vs)
      some (p, fits p)

    unfoldable mutual
      unfolding insert_into inserted_below

      pub insert_into_leaf : Node K V → K × V → Option (Node K V × Bool)
      insert_into_leaf (node cs vs) e =
          let here = insert_into (node cs vs) e >>= λ p. some (p.1, fits p.1) in
          let below =
            insert_into_child cs (index_of vs e.0) e >>= inserted_below cs vs (index_of vs e.0) in
          if is_leaf cs then here else below

      pub insert_into_child : Children K V → ℕ → K × V → Option (Node K V × Bool)
      insert_into_child nil i e = none
      insert_into_child (null cs) zero e = none
      insert_into_child (child n cs) zero e = insert_into_leaf n e
      insert_into_child (null cs) (suc i) e = insert_into_child cs i e
      insert_into_child (child n cs) (suc i) e = insert_into_child cs i e

    -- A tree is its `root_`. `insert` makes one where there is none, and splits it when it is full.
    abbrev pub root_of : Option (Node K V) → Node K V
    root_of none = node nil []
    root_of (some n) = n

    unfoldable pub grown : Node K V × Bool → Option (Node K V)
    unfolding split_into
    grown (n, true) = some n
    grown (n, false) = split_into n (node nil [])

    unfoldable pub insert : Option (Node K V) → K × V → Option (Node K V)
    unfolding insert_into_leaf grown
    insert root e = insert_into_leaf (root_of root) e >>= grown

  -- `find` of the tree
  abbrev pub find_root : Option (Node K V) → K → Option (Option V)
  find_root none k = some none
  find_root (some n) k = find n k
