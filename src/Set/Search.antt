-- ===== src/Set/Search.antt =====
-- The two searches of include/txl/set.h.
use libtxl.Prelude.{
  suc, ◌<◌, true, false, List, [], ◌∷◌, if◌then◌else◌, ◌==◌, length, not, ◌≡◌, refl, ap, arith,
  Bool-cases, inl, inr,
}
use libtxl.Prelude.Order.{Less}
use libtxl.Set.Defs.{matches, lower_bound, linear_search, match_at, bisect, find, contains}
use libtxl.Set.Bounds.{IsSorted, has, matches_of_less, has_behind}

module _ {V : Type 0} (o : Less V) where
  open o use {less}

  linear_search-absent :
      (xs : List V) (v : V) → has o xs v ≡ false → linear_search o xs v ≡ length xs
  unfolding linear_search has
  linear_search-absent [] v h = refl
  linear_search-absent (x ∷ xs) v h = ground (arith, linear_search-absent xs v)

  linear_search-lt : (xs : List V) (v : V) → has o xs v ≡ true → linear_search o xs v < length xs
  unfolding linear_search has
  linear_search-lt [] v h = cc
  linear_search-lt (x ∷ xs) v h = ground (arith, linear_search-lt xs v)

  bisect_behind :
      (x v : V) (xs : List V) → less x v ≡ true → bisect o (x ∷ xs) v ≡ suc (bisect o xs v)
  unfolding bisect lower_bound match_at
  bisect_behind x v xs e = ground arith

  bisect_here :
      (x v : V) (xs : List V)
      → less x v ≡ false
      → bisect o (x ∷ xs) v ≡ (if matches o x v then 0 else suc (length xs))
  unfolding bisect lower_bound match_at
  bisect_here x v xs e = ground arith

  bisect-linear_search_lem :
      (xs : List V) (v : V) → IsSorted o xs → bisect o xs v ≡ linear_search o xs v
  unfolding linear_search
  bisect-linear_search_lem [] v s = unfold bisect lower_bound match_at in refl
  bisect-linear_search_lem (x ∷ xs) v s = elim (Bool-cases (less x v)) [
    | inl e ↦
        rw (bisect_behind x v xs e, matches_of_less o x v e)
          (ap suc (bisect-linear_search_lem xs v s.1))
    | inr e ↦ rw (bisect_here x v xs e, linear_search-absent xs v (has_behind o x v xs e s.0)) refl
  ]

  contains-has_linear : (xs : List V) (v : V) → not (linear_search o xs v == length xs) ≡ has o xs v
  contains-has_linear xs v = elim (Bool-cases (has o xs v)) [
    | inl h ↦ rw h (ground (arith, linear_search-lt xs v h))
    | inr h ↦ rw h (ground (arith, linear_search-absent xs v h))
  ]

  -- On increasing values the search by halves returns the same position as the search from the
  -- front, so `find` may choose by size; `contains` says whether the set has the value.
  pub find-linear_search :
      (xs : List V) (v : V)
      → IsSorted o xs
      → (bisect o xs v ≡ linear_search o xs v)
        × (find o xs v ≡ linear_search o xs v)
        × (contains o xs v ≡ has o xs v)
  unfolding find contains
  find-linear_search xs v s = (same, chosen, rw chosen (contains-has_linear xs v))
    where
      same : bisect o xs v ≡ linear_search o xs v
      same = bisect-linear_search_lem xs v s

      chosen : find o xs v ≡ linear_search o xs v
      chosen = ground (arith, same)
