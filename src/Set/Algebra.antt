-- ===== src/Set/Algebra.antt =====
-- `merge`, `intersect` and `merge_from` of include/txl/set.h.
use libtxl.Prelude.{
  ℕ, ◌+◌, ◌≤◌, Bool, true, false, List, [], ◌∷◌, if◌then◌else◌, ◌&&◌, ◌||◌, ◌≡◌, refl, ◌∙◌, arith,
  Bool-cases, inl, inr,
}
use libtxl.Prelude.Order.{Less, less-not_less, not_less-less}
use libtxl.Set.Defs.{matches, merge_from, set_union, set_intersection, merge, intersect}
use libtxl.Set.Bounds.{All, All-mono, IsSorted, has, matches_of_less, has_behind}

module _ {V : Type 0} (o : Less V) where
  open o use {less}

  -- How many values are equivalent to `v`.
  abbrev pub count : List V → V → ℕ
  count [] v = 0
  count (x ∷ xs) v = (if matches o x v then 1 else 0) + count xs v

  count-merge_from :
      (xs ys : List V) (v : V) → count (merge_from o xs ys) v ≡ count xs v + count ys v
  unfolding merge_from
  count-merge_from [] ys v = omega arith
  count-merge_from (x ∷ xs) [] v = omega arith
  count-merge_from (x ∷ xs) (y ∷ ys) v =
      ground (arith, count-merge_from xs (y ∷ ys) v, count-merge_from (x ∷ xs) ys v)

  has-count : (xs : List V) (v : V) → has o xs v ≡ true → 1 ≤ count xs v
  unfolding has
  has-count [] v h = cc
  has-count (x ∷ xs) v h = ground (arith, has-count xs v)

  count-absent : (xs : List V) (v : V) → has o xs v ≡ false → count xs v ≡ 0
  unfolding has
  count-absent [] v h = refl
  count-absent (x ∷ xs) v h = ground (arith, count-absent xs v)

  count-IsSorted : (xs : List V) (v : V) → IsSorted o xs → count xs v ≤ 1
  count-IsSorted [] v s = omega arith
  count-IsSorted (x ∷ xs) v s = elim (Bool-cases (matches o x v)) [
    | inl e ↦ rw e (omega (arith, count-absent xs v (has_behind o x v xs (not_less e) s.0)))
    | inr e ↦ rw e (omega (arith, count-IsSorted xs v s.1))
  ]
    where
      not_less : matches o x v ≡ true → less x v ≡ false
      not_less e = ground (arith, matches_of_less o x v)

  -- `merge_from` keeps every value of both sets. A value that both have then stands in the result
  -- twice, which is no set any more.
  merge_from_shared :
      (xs ys : List V) (v : V)
      → has o xs v ≡ true
      → has o ys v ≡ true
      → (count (merge_from o xs ys) v ≡ count xs v + count ys v)
        × (¬ IsSorted o (merge_from o xs ys))
  merge_from_shared xs ys v h k = (
    count-merge_from xs ys v,
    λ s. omega (
      arith,
      count-IsSorted (merge_from o xs ys) v s,
      count-merge_from xs ys v,
      has-count xs v h,
      has-count ys v k,
    ),
  )

  below :
      (x y : V) (ys : List V)
      → less x y ≡ true
      → IsSorted o (y ∷ ys)
      → All (λ z. less x z ≡ true) (y ∷ ys)
  below x y ys e s = (e, All-mono ys (λ z p. o.trans x y z e p) s.0)

  -- A value below all of `ys` is equivalent to nothing that is equivalent to one of them.
  misses :
      (x j : V) (ys : List V)
      → All (λ z. less x z ≡ true) ys
      → matches o x j ≡ true
      → has o ys j ≡ false
  misses x j ys a m = has_behind o x j ys (ground (arith, matches_of_less o x j)) a

  matches_alike : (x y j : V) → less x y ≡ false → less y x ≡ false → matches o x j ≡ matches o y j
  unfolding matches
  matches_alike x y j e f = ground (
    arith,
    less-not_less o x j y,
    not_less-less o y x j,
    not_less-less o x y j,
    less-not_less o j x y,
    less-not_less o j y x,
  )

  has-set_union_lem :
      (xs ys : List V) (j : V) → has o (set_union o xs ys) j ≡ (has o xs j || has o ys j)
  unfolding set_union has
  has-set_union_lem [] ys j = refl
  has-set_union_lem (x ∷ xs) [] j = ground arith
  has-set_union_lem (x ∷ xs) (y ∷ ys) j = ground (
    arith,
    has-set_union_lem xs (y ∷ ys) j,
    has-set_union_lem (x ∷ xs) ys j,
    has-set_union_lem xs ys j,
    matches_alike x y j,
  )

  has-set_intersection :
      (xs ys : List V) (j : V)
      → IsSorted o xs
      → IsSorted o ys
      → has o (set_intersection o xs ys) j ≡ (has o xs j && has o ys j)
  unfolding set_intersection has
  has-set_intersection [] ys j s t = refl
  has-set_intersection (x ∷ xs) [] j s t = ground arith
  has-set_intersection (x ∷ xs) (y ∷ ys) j s t = elim (Bool-cases (less x y)) [
    | inl e ↦
        ground
          (arith, has-set_intersection xs (y ∷ ys) j s.1 t, misses x j (y ∷ ys) (below x y ys e t))
    | inr e ↦ elim (Bool-cases (less y x)) [
      | inl f ↦
          ground (
            arith,
            has-set_intersection (x ∷ xs) ys j s t.1,
            misses y j (x ∷ xs) (below y x xs f s),
          )
      | inr f ↦ ground (
        arith,
        has-set_intersection xs ys j s.1 t.1,
        misses x j xs s.0,
        misses y j ys t.0,
        matches_alike x y j e f,
      )
    ]
  ]

  -- `intersect` of increasing values has what both have, and `merge` what either has.
  pub has-intersect :
      (xs values : List V) (j : V)
      → IsSorted o xs
      → IsSorted o values
      → (has o (intersect o xs values) j ≡ (has o xs j && has o values j))
        × (has o (merge o xs values) j ≡ (has o xs j || has o values j))
  has-intersect xs values j s t = (
    has-set_intersection values xs j t s ∙ swap_and (has o values j) (has o xs j),
    has-set_union_lem values xs j ∙ swap_or (has o values j) (has o xs j),
  )
    where
      swap_and : (a b : Bool) → (a && b) ≡ (b && a)
      swap_and a b = ground arith

      swap_or : (a b : Bool) → (a || b) ≡ (b || a)
      swap_or a b = ground arith
