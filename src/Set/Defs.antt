-- ===== src/Set/Defs.antt =====
-- The operations of include/txl/set.h on the `values_` of a set. An iterator is a position; the end
-- is the number of values.
use libtxl.Prelude.{
  ℕ, suc, Bool, true, false, Option, none, some, List, [], ◌∷◌, ◌++◌, if◌then◌else◌, ◌==◌, ltb, leb,
  length, get_elem?, take, drop, not, ◌&&◌,
}
use libtxl.Prelude.Order.{Less}

abbrev pub linear_search_limit : ℕ
linear_search_limit = 50

module _ {V : Type 0} (o : Less V) where
  open o use {less}

  -- `not cmp(e, v) and not cmp(v, e)`
  unfoldable pub matches : V → V → Bool
  matches e v = not (less e v) && not (less v e)

  -- `std::lower_bound`: the first value that is not less. The standard gives this result on a range
  -- that is partitioned by the comparison with `v`, as the sorted values of a set are; on others the
  -- call has no defined result, and this definition says nothing about the code.
  unfoldable pub lower_bound : List V → V → ℕ
  lower_bound [] v = 0
  lower_bound (x ∷ xs) v = let further = suc (lower_bound xs v) in if less x v then further else 0

  -- `std::find_if`
  unfoldable pub linear_search : List V → V → ℕ
  linear_search [] v = 0
  linear_search (x ∷ xs) v =
      let further = suc (linear_search xs v) in if matches x v then 0 else further

  -- `it != end() and not cmp(*it, v) and not cmp(v, *it)`
  unfoldable pub match_at : List V → ℕ → V → Bool
  match_at xs i v = elim (get_elem? xs i) [ none ↦ false | some e ↦ matches e v ]

  unfoldable pub bisect : List V → V → ℕ
  bisect xs v = if match_at xs (lower_bound xs v) v then lower_bound xs v else length xs

  unfoldable pub find : List V → V → ℕ
  find xs v = if leb (length xs) linear_search_limit then linear_search xs v else bisect xs v

  unfoldable pub contains : List V → V → Bool
  contains xs v = not (find xs v == length xs)

  -- `values_.emplace(it, v)`
  abbrev pub emplace : List V → ℕ → V → List V
  emplace xs i v = take i xs ++ (v ∷ drop i xs)

  unfoldable pub add : List V → V → List V
  add xs v = if match_at xs (lower_bound xs v) v then xs else emplace xs (lower_bound xs v) v

  -- `erase(it)`; `none` if the iterator is the end
  unfoldable pub erase_at : List V → ℕ → Option (List V)
  erase_at xs i = if ltb i (length xs) then some (take i xs ++ drop (suc i) xs) else none

  unfoldable pub erase : List V → V → Option (List V)
  erase xs v = if lower_bound xs v == length xs then some xs else erase_at xs (lower_bound xs v)

  unfoldable pub from_list : List V → List V → List V
  from_list acc [] = acc
  from_list acc (v ∷ vs) = from_list (add acc v) vs

  -- `merge_from`: the loop with its inner `while`, then the rest of `values`.
  unfoldable pub merge_from : List V → List V → List V
  merge_from [] ys = ys
  merge_from (x ∷ xs) [] = x ∷ xs
  merge_from (x ∷ xs) (y ∷ ys) = elim (less x y) [
    | true ↦ x ∷ merge_from xs (y ∷ ys)
    | false ↦ y ∷ merge_from (x ∷ xs) ys
  ]

  -- `std::set_union` and `std::set_intersection`: of two equivalent values the first range's is kept.
  unfoldable pub set_union : List V → List V → List V
  set_union [] ys = ys
  set_union (x ∷ xs) [] = x ∷ xs
  set_union (x ∷ xs) (y ∷ ys) = elim (less x y) [
    | true ↦ x ∷ set_union xs (y ∷ ys)
    | false ↦ elim (less y x) [ true ↦ y ∷ set_union (x ∷ xs) ys | false ↦ x ∷ set_union xs ys ]
  ]

  unfoldable pub set_intersection : List V → List V → List V
  set_intersection [] ys = []
  set_intersection (x ∷ xs) [] = []
  set_intersection (x ∷ xs) (y ∷ ys) = elim (less x y) [
    | true ↦ set_intersection xs (y ∷ ys)
    | false ↦ elim (less y x) [
      | true ↦ set_intersection (x ∷ xs) ys
      | false ↦ x ∷ set_intersection xs ys
    ]
  ]

  -- `merge` and `intersect` give the argument's range first.
  abbrev pub merge : List V → List V → List V
  merge xs values = set_union values xs

  abbrev pub intersect : List V → List V → List V
  intersect xs values = set_intersection values xs
