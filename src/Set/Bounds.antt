-- ===== src/Set/Bounds.antt =====
-- Sorted values, what it means that a set has a value, and the steps of `add` and `erase`
-- (include/txl/set.h) along the values.
use libtxl.Prelude.{
  Bool, true, false, Option, none, some, List, [], ◌∷◌, if◌then◌else◌, ◌||◌, ◌≡◌, refl, arith,
  Bool-cases, inl, inr,
}
use libtxl.Prelude.Order.{Less, less_asym, not_less-less}
use libtxl.Set.Defs.{matches, lower_bound, match_at, add, erase, erase_at}

module _ {V : Type 0} where
  abbrev pub All : (V → Type 0) → List V → Type 0
  All P [] = Unit
  All P (x ∷ xs) = P x × All P xs

  pub All-mono : {P Q : V → Type 0} (xs : List V) → ((x : V) → P x → Q x) → All P xs → All Q xs
  All-mono [] f a = tt
  All-mono (x ∷ xs) f a = (f x a.0, All-mono xs f a.1)

  module _ (o : Less V) where
    open o use {less}

    -- Strictly increasing.
    abbrev pub IsSorted : List V → Type 0
    IsSorted [] = Unit
    IsSorted (x ∷ xs) = All (λ y. less x y ≡ true) xs × IsSorted xs

    -- Some value is equivalent to `v`.
    unfoldable pub has : List V → V → Bool
    has [] v = false
    has (x ∷ xs) v = matches o x v || has xs v

    pub matches_of_less : (x v : V) → less x v ≡ true → matches o x v ≡ false
    unfolding matches
    matches_of_less x v e = rw (e, matches)

    pub matches_of_greater : (x v : V) → less v x ≡ true → matches o x v ≡ false
    unfolding matches
    matches_of_greater x v e = rw (less_asym o v x e, matches, e)

    pub matches_of_neither : (x v : V) → less x v ≡ false → less v x ≡ false → matches o x v ≡ true
    unfolding matches
    matches_of_neither x v e f = rw (e, matches, f)

    -- Behind a value that is not less, no other value is equivalent.
    pub has_behind :
        (x v : V) (xs : List V)
        → less x v ≡ false
        → All (λ y. less x y ≡ true) xs
        → has xs v ≡ false
    unfolding has
    has_behind x v [] e a = refl
    has_behind x v (y ∷ xs) e a =
        rw (matches_of_greater y v (not_less-less o v x y e a.0)) (has_behind x v xs e a.1)

    -- The place of a value is behind those that are less.
    pub add_behind : (x v : V) (xs : List V) → less x v ≡ true → add o (x ∷ xs) v ≡ x ∷ add o xs v
    unfolding add lower_bound match_at
    add_behind x v xs e =
        rw e
          (elim (Bool-cases (match_at o xs (lower_bound o xs v) v)) [ inl m ↦ rw m | inr m ↦ rw m ])

    pub add_here :
        (x v : V) (xs : List V)
        → less x v ≡ false
        → add o (x ∷ xs) v ≡ (if less v x then v ∷ x ∷ xs else x ∷ xs)
    unfolding add lower_bound match_at matches
    add_here x v xs e = ground arith

    pub add-nil : (v : V) → add o [] v ≡ v ∷ []
    unfolding add lower_bound match_at
    add-nil v = refl

    -- `erase` beside the values that are less, and at the first that is not.
    abbrev pub cons_some : V → Option (List V) → Option (List V)
    cons_some x none = none
    cons_some x (some xs) = some (x ∷ xs)

    pub erase_behind :
        (x v : V) (xs : List V) → less x v ≡ true → erase o (x ∷ xs) v ≡ cons_some x (erase o xs v)
    unfolding erase lower_bound erase_at
    erase_behind x v xs e = ground arith

    pub erase_here : (x v : V) (xs : List V) → less x v ≡ false → erase o (x ∷ xs) v ≡ some xs
    unfolding erase lower_bound erase_at
    erase_here x v xs e = ground arith
