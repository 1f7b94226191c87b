-- ===== src/BTree/Rebalance.antt =====
-- `rebalance` of include/txl/btree.h, with its rotations and merges. As in `Defs`, a result `none` is
-- an exception or an access that is not defined.
use libtxl.Prelude.{
  ℕ, zero, suc, ◌+◌, ◌-◌, ◌%◌, Bool, Option, none, some, List, [], ◌∷◌, ◌++◌, length, get_elem?,
  ◌&&◌, ◌||◌, ltb, ◌==◌, if◌then◌else◌, size_mod,
}
use libtxl.BTree.Key.{Key}
use libtxl.BTree.Defs.{
  Node, node, Children, nil, null, child, children, values, num_children, emplace_at, set_child,
  insert_into, ◌>>=◌,
}

-- `values.at(index)` with the erasure of `remove_at`
abbrev pub erase_at : {A : Type 0} → ℕ → List A → Option (List A)
erase_at i [] = none
erase_at zero (x ∷ xs) = some xs
erase_at (suc i) (x ∷ xs) = erase_at i xs >>= λ ys. some (x ∷ ys)

-- The last element with those before it
abbrev pub pop_back : {A : Type 0} → List A → Option (List A × A)
pop_back [] = none
pop_back (x ∷ []) = some ([], x)
pop_back (x ∷ y ∷ ys) = pop_back (y ∷ ys) >>= λ p. some (x ∷ p.0, p.1)

module _ {K V : Type 0} where
  -- `*children.at(index)`
  abbrev pub child_at : ℕ → Children K V → Option (Node K V)
  child_at i nil = none
  child_at zero (null cs) = none
  child_at zero (child n cs) = some n
  child_at (suc i) (null cs) = child_at i cs
  child_at (suc i) (child n cs) = child_at i cs

  abbrev pub remove_child_at : ℕ → Children K V → Option (Children K V)
  remove_child_at i nil = none
  remove_child_at zero (null cs) = some cs
  remove_child_at zero (child n cs) = some cs
  remove_child_at (suc i) (null cs) = remove_child_at i cs >>= λ ds. some (null ds)
  remove_child_at (suc i) (child n cs) = remove_child_at i cs >>= λ ds. some (child n ds)

  infixr 60 ◌+++◌
  abbrev pub ◌+++◌ : Children K V → Children K V → Children K V
  nil +++ ds = ds
  null cs +++ ds = null (cs +++ ds)
  child n cs +++ ds = child n (cs +++ ds)

  -- `children.front()` and `children.back()`: a pointer, as a list of one
  abbrev pub front_child : Children K V → Option (Children K V)
  front_child nil = none
  front_child (null cs) = some (null nil)
  front_child (child n cs) = some (child n nil)

  abbrev pub back_child : Children K V → Option (Children K V)
  back_child nil = none
  back_child (null nil) = some (null nil)
  back_child (child n nil) = some (child n nil)
  back_child (null (null cs)) = back_child (null cs)
  back_child (null (child m cs)) = back_child (child m cs)
  back_child (child n (null cs)) = back_child (null cs)
  back_child (child n (child m cs)) = back_child (child m cs)

  -- Two neighbours under a parent, and the parent's value between them
  abbrev pub put_pair : ℕ → Node K V → Node K V → Node K V → List (K × V) → Option (Node K V)
  put_pair i left right parent vs = do
    ds ← set_child i left (children parent)
    es ← set_child (suc i) right ds
    some (node es vs)

  unfoldable pub rotate_left : Node K V → ℕ → Node K V → Node K V → Option (Node K V)
  rotate_left parent i left right = do
    next_left_val ← get_elem? (values parent) i
    vs ← erase_at i (values parent)
    next_parent_val ← get_elem? (values right) 0
    next_left_child ← front_child (children right)
    right_values ← erase_at 0 (values right)
    right_children ← remove_child_at 0 (children right)
    put_pair i (node (children left +++ next_left_child) (values left ++ (next_left_val ∷ [])))
        (node right_children right_values) parent (emplace_at i next_parent_val vs)

  unfoldable pub rotate_right : Node K V → ℕ → Node K V → Node K V → Option (Node K V)
  rotate_right parent i left right = do
    next_right_val ← get_elem? (values parent) i
    vs ← erase_at i (values parent)
    (left_values, next_parent_val) ← pop_back (values left)
    next_right_child ← back_child (children left)
    left_children ← remove_child_at (length (values left)) (children left)
    put_pair i (node left_children left_values)
        (node (next_right_child +++ children right) (next_right_val ∷ values right)) parent
        (emplace_at i next_parent_val vs)

  unfoldable pub merge : Key K → Node K V → ℕ → Node K V → Node K V → Option (Node K V)
  unfolding insert_into
  merge o parent i left right = do
    m ← get_elem? (values parent) i
    (new_index, grown) ← insert_into o left m
    left_children ← remove_child_at new_index (children grown)
    vs ← erase_at i (values parent)
    ds ←
        set_child i (node (left_children +++ children right) (values grown ++ values right))
          (children parent)
    es ← remove_child_at (suc i) ds
    some (node es vs)

-- The index of the left child: `index`, or one less at the end. Below 0 it wraps, and `at` throws.
abbrev pub left_index : ℕ → ℕ → Option ℕ
left_index index count =
    if suc index == count then (if index == 0 then none else some (index - 1)) else some index

module _ {K V : Type 0} (o : Key K) (degree : ℕ) where
  abbrev pub underflows : Node K V → Bool
  underflows n = ltb (length (values n)) ((degree + size_mod - 1) % size_mod)

  -- `rebalance`, from the left one of the two children
  unfoldable pub rebalance_pair : Node K V → ℕ → Node K V → Node K V → Option (Node K V)
  unfolding rotate_left rotate_right merge
  rebalance_pair parent i left right =
      if underflows left && ltb 1 (length (values right))
      then rotate_left parent i left right
      else if underflows right && ltb 1 (length (values left))
      then rotate_right parent i left right
      else if underflows left || underflows right
      then merge o parent i left right
      else some parent

  unfoldable pub rebalance : Node K V → ℕ → Option (Node K V)
  unfolding rebalance_pair
  rebalance parent index = do
    i ← left_index index (num_children (children parent))
    left ← child_at i (children parent)
    right ← child_at (suc i) (children parent)
    rebalance_pair parent i left right
