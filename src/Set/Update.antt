-- ===== src/Set/Update.antt =====
-- `add` and `erase` of include/txl/set.h, against membership.
use libtxl.Prelude.{
  true, false, some, List, [], ◌∷◌, ◌++◌, if◌then◌else◌, not, ◌&&◌, ◌||◌, ◌≡◌, refl, arith,
  Bool-cases, inl, inr,
}
use libtxl.Prelude.Order.{Less, less_asym, less-not_less, not_less_trans}
use libtxl.Set.Defs.{matches, lower_bound, add, erase}
use libtxl.Set.Bounds.{
  All, All-mono, IsSorted, has, matches_of_less, has_behind, add_behind, add_here, add-nil,
  erase_behind, erase_here,
}

module _ {V : Type 0} (o : Less V) where
  open o use {less}

  All-add : (P : V → Type 0) (xs : List V) (v : V) → P v → All P xs → All P (add o xs v)
  All-add P [] v p a = rw (add-nil o v) (p, tt)
  All-add P (x ∷ xs) v p a = elim (Bool-cases (less x v)) [
    | inl e ↦ rw (add_behind o x v xs e) (a.0, All-add P xs v p a.1)
    | inr e ↦
        rw (add_here o x v xs e)
          (elim (Bool-cases (less v x)) [ inl f ↦ rw f (p, a) | inr f ↦ rw f a ])
  ]

  add-IsSorted_lem : (xs : List V) (v : V) → IsSorted o xs → IsSorted o (add o xs v)
  add-IsSorted_lem [] v s = rw (add-nil o v) (tt, tt)
  add-IsSorted_lem (x ∷ xs) v s = elim (Bool-cases (less x v)) [
    | inl e ↦
        rw (add_behind o x v xs e)
          (All-add (λ y. less x y ≡ true) xs v e s.0, add-IsSorted_lem xs v s.1)
    | inr e ↦ rw (add_here o x v xs e) (elim (Bool-cases (less v x)) [
      | inl f ↦ rw f ((f, All-mono xs (λ y p. o.trans v x y f p) s.0), s)
      | inr f ↦ rw f s
    ])
  ]

  -- Equivalence is passed on by equivalent values.
  matches_trans : (x v j : V) → less x v ≡ false → less v x ≡ false → matches o v j ≡ matches o x j
  unfolding matches
  matches_trans x v j e f = ground (
    arith,
    not_less_trans o v x j,
    not_less_trans o x v j,
    not_less_trans o j x v,
    not_less_trans o j v x,
  )

  has-add : (xs : List V) (v j : V) → has o (add o xs v) j ≡ (matches o v j || has o xs j)
  unfolding has
  has-add [] v j = rw (add-nil o v)
  has-add (x ∷ xs) v j = elim (Bool-cases (less x v)) [
    | inl e ↦ rw (add_behind o x v xs e, has, has-add xs v j) (ground arith)
    | inr e ↦ rw (add_here o x v xs e) (elim (Bool-cases (less v x)) [
      | inl f ↦ rw f
      | inr f ↦ rw f (ground (arith, matches_trans x v j e f))
    ])
  ]

  -- `add` keeps the values strictly increasing. Afterwards the set has the values equivalent to the
  -- new one and those that it had.
  pub add-IsSorted :
      (xs : List V) (v j : V)
      → IsSorted o xs
      → IsSorted o (add o xs v) × (has o (add o xs v) j ≡ (matches o v j || has o xs j))
  add-IsSorted xs v j s = (add-IsSorted_lem xs v s, has-add xs v j)

  -- The values without the first that is not less than `v`.
  erased : List V → V → List V
  erased [] v = []
  erased (x ∷ xs) v = let kept = x ∷ erased xs v in if less x v then kept else xs

  erase-erased : (xs : List V) (v : V) → erase o xs v ≡ some (erased xs v)
  unfolding erased
  erase-erased [] v = unfold erase lower_bound in refl
  erase-erased (x ∷ xs) v = elim (Bool-cases (less x v)) [
    | inl e ↦ rw (erase_behind o x v xs e, erase-erased xs v, e)
    | inr e ↦ rw (erase_here o x v xs e, e)
  ]

  All-erased : (P : V → Type 0) (xs : List V) (v : V) → All P xs → All P (erased xs v)
  unfolding erased
  All-erased P [] v a = tt
  All-erased P (x ∷ xs) v a = elim (Bool-cases (less x v)) [
    | inl e ↦ rw e (a.0, All-erased P xs v a.1)
    | inr e ↦ rw e a.1
  ]

  erased-IsSorted : (xs : List V) (v : V) → IsSorted o xs → IsSorted o (erased xs v)
  unfolding erased
  erased-IsSorted [] v s = tt
  erased-IsSorted (x ∷ xs) v s = elim (Bool-cases (less x v)) [
    | inl e ↦ rw e (All-erased (λ y. less x y ≡ true) xs v s.0, erased-IsSorted xs v s.1)
    | inr e ↦ rw e s.1
  ]

  -- A value that is less than `v` is not equivalent to what is equivalent to `v`.
  apart : (x v j : V) → less x v ≡ true → matches o x j ≡ true → matches o v j ≡ false
  unfolding matches
  apart x v j e m = ground (arith, less-not_less o x v j)

  has-erased_here :
      (x : V) (xs : List V) (v j : V)
      → IsSorted o (x ∷ xs)
      → has o (x ∷ xs) v ≡ true
      → less x v ≡ false
      → has o xs j ≡ (has o (x ∷ xs) j && not (matches o v j))
  unfolding has matches
  has-erased_here x xs v j s h e =
      ground (arith, has_behind o x v xs e s.0, matches_trans x v j e, has_behind o x j xs)

  has-erased :
      (xs : List V) (v j : V)
      → IsSorted o xs
      → has o xs v ≡ true
      → has o (erased xs v) j ≡ (has o xs j && not (matches o v j))
  unfolding erased has
  has-erased [] v j s h = cc
  has-erased (x ∷ xs) v j s h = elim (Bool-cases (less x v)) [
    | inl e ↦ rw e (ground (arith, matches_of_less o x v e, has-erased xs v j s.1, apart x v j e))
    | inr e ↦ rw e (has-erased_here x xs v j s h e)
  ]

  -- `erase` of a value that the set has takes that value out, and leaves the others increasing.
  pub erase-IsSorted :
      (xs : List V) (v j : V)
      → IsSorted o xs
      → has o xs v ≡ true
      → (ys : List V) × (erase o xs v ≡ some ys)
        × IsSorted o ys
        × (has o ys j ≡ (has o xs j && not (matches o v j)))
  erase-IsSorted xs v j s h =
      (erased xs v, erase-erased xs v, erased-IsSorted xs v s, has-erased xs v j s h)

  -- On strictly increasing values, `erase` of a value that the set has not takes out the next greater
  -- value: whatever stands before and behind it, the first value greater than `v` is lost.
  pub erase_greater :
      (lo hi : List V) (x v : V)
      → All (λ y. less y v ≡ true) lo
      → less v x ≡ true
      → IsSorted o (lo ++ (x ∷ hi))
      → erase o (lo ++ (x ∷ hi)) v ≡ some (lo ++ hi)
  erase_greater [] hi x v a e s = erase_here o x v hi (less_asym o v x e)
  erase_greater (y ∷ lo) hi x v a e s =
      rw (erase_behind o y v (lo ++ (x ∷ hi)) a.0, erase_greater lo hi x v a.1 e s.1)
