-- ===== src/FixedVector/Slots.antt =====
-- What a vector of include/txl/fixed_vector.h holds, and lemmas on its slots.
use libtxl.Prelude.{
  ℕ, zero, suc, ◌+◌, ◌≡◌, refl, ap, ◌∙◌, Option, none, some, List, [], ◌∷◌, ◌++◌, map, length, drop,
  get_or, set, replicate, arith,
}
use libtxl.FixedVector.Defs.{FixedVector}

-- The values in order, and the slots behind them.
pub record Holds {A : Type 0} (v : FixedVector A) (xs : List A) (rest : List (Option A))
    : Type 0 where
  pub slots_eq : v.slots ≡ map some xs ++ rest
  pub count_eq : v.count ≡ length xs

module _ {A : Type 0} where
  pub length-map : {B : Type 0} (f : A → B) (xs : List A) → length (map f xs) ≡ length xs
  length-map f [] = refl
  length-map f (x ∷ xs) = ap suc (length-map f xs)

  pub map-append :
      {B : Type 0} (f : A → B) (xs ys : List A) → map f (xs ++ ys) ≡ map f xs ++ map f ys
  map-append f [] ys = refl
  map-append f (x ∷ xs) ys = ap (λ zs. f x ∷ zs) (map-append f xs ys)

  pub set-append :
      (pre : List A) (y z : A) (rest : List A)
      → set (pre ++ (y ∷ rest)) (length pre) z ≡ pre ++ (z ∷ rest)
  set-append [] y z rest = refl
  set-append (x ∷ pre) y z rest = ap (λ zs. x ∷ zs) (set-append pre y z rest)

  pub get_or-append :
      (pre : List A) (y d : A) (rest : List A) → get_or (pre ++ (y ∷ rest)) (length pre) d ≡ y
  get_or-append [] y d rest = refl
  get_or-append (x ∷ pre) y d rest = get_or-append pre y d rest

  -- A list that is not empty, by its last element
  pub record Snoc (xs : List A) (n : ℕ) : Type 0 where
    pub init : List A
    pub final : A
    pub xs_eq : xs ≡ init ++ (final ∷ [])
    pub init_length : length init ≡ n

  pub snoc : (xs : List A) (n : ℕ) → length xs ≡ suc n → Snoc xs n
  snoc [] n h = absurd (omega arith)
  snoc (x ∷ []) n h = record { init = []; final = x; xs_eq = refl; init_length = omega arith }
  snoc (x ∷ y ∷ ys) zero h = absurd (omega arith)
  snoc (x ∷ y ∷ ys) (suc n) h =
      let s = snoc (y ∷ ys) n (omega arith) in
      record {
        init = x ∷ s.init;
        final = s.final;
        xs_eq = ap (λ zs. x ∷ zs) s.xs_eq;
        init_length = ap suc s.init_length;
      }

abbrev pub none_of : (B : Type 0) → Option B
none_of B = none

-- `n` slots without a value
abbrev pub no_values : (B : Type 0) → ℕ → List (Option B)
no_values B n = replicate n none

-- The slots without a value among some
abbrev pub blanks : {A : Type 0} → List (Option A) → ℕ
blanks [] = 0
blanks (none ∷ s) = suc (blanks s)
blanks (some x ∷ s) = blanks s

pub blanks-map : {A : Type 0} (xs : List A) → blanks (map some xs) ≡ 0
blanks-map [] = refl
blanks-map (x ∷ xs) = blanks-map xs

pub blanks-no_values : (A : Type 0) (n : ℕ) → blanks (no_values A n) ≡ n
blanks-no_values A zero = refl
blanks-no_values A (suc n) = ap suc (blanks-no_values A n)

pub no_values_split : (A : Type 0) (a b : ℕ) → no_values A (a + b) ≡ no_values A a ++ no_values A b
no_values_split A zero b = ap (no_values A) (omega arith)
no_values_split A (suc a) b =
    let e : suc a + b ≡ suc (a + b) = omega arith in
    ap (no_values A) e ∙ ap (λ s. none ∷ s) (no_values_split A a b)

pub drop_nil : (A : Type 0) (n : ℕ) → ◌≡◌ {A = List A} (drop n []) []
drop_nil A zero = refl
drop_nil A (suc n) = refl

pub drop-append : {A : Type 0} (xs ys : List A) (n : ℕ) → n ≡ length xs → drop n (xs ++ ys) ≡ ys
drop-append [] ys n e = ap (λ k. drop k ys) e
drop-append (x ∷ xs) ys n e =
    ap (λ k. drop k (x ∷ (xs ++ ys))) e ∙ drop-append xs ys (length xs) refl
