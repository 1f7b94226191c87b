-- ===== src/Csv/Rows.antt =====
-- Rows of a `document` of include/txl/csv.h by their position.
use mathlib.Core.Logic.{◌↔◌}
use libtxl.Prelude.{
  ℕ, zero, suc, ◌+◌, ◌<◌, ◌≤◌, true, List, [], ◌∷◌, ◌++◌, none, some, ◌≡◌, refl, ap, arith,
  size_mod, length, get_elem?, take, drop, lt→ltb, take-append-drop,
}
use libtxl.Csv.Document.{Row, Document, at, size, insert, erase}

module _ {ℓ} {A : Type ℓ} where
  get_elem?-none : (xs : List A) (i : ℕ) → length xs ≤ i → get_elem? xs i ≡ none
  get_elem?-none [] i h = refl
  get_elem?-none (x ∷ xs) zero h = absurd (omega arith)
  get_elem?-none (x ∷ xs) (suc i) h = get_elem?-none xs i (omega arith)

  le_of_none : (xs : List A) (i : ℕ) → get_elem? xs i ≡ none → length xs ≤ i
  le_of_none [] i e = omega arith
  le_of_none (x ∷ xs) zero e = cc
  le_of_none (x ∷ xs) (suc i) e = omega (arith, le_of_none xs i e)

  take-insert :
      (xs : List A) (i : ℕ) (x : A)
      → i ≤ length xs
      → take i (take i xs ++ (x ∷ drop i xs)) ≡ take i xs
  take-insert xs zero x h = refl
  take-insert [] (suc i) x h = absurd (omega arith)
  take-insert (y ∷ xs) (suc i) x h = ap (◌∷◌ y) (take-insert xs i x (omega arith))

  drop-insert :
      (xs : List A) (i : ℕ) (x : A)
      → i ≤ length xs
      → drop (suc i) (take i xs ++ (x ∷ drop i xs)) ≡ drop i xs
  drop-insert xs zero x h = refl
  drop-insert [] (suc i) x h = absurd (omega arith)
  drop-insert (y ∷ xs) (suc i) x h = drop-insert xs i x (omega arith)

  get_elem?-insert :
      (xs : List A) (i : ℕ) (x : A)
      → i ≤ length xs
      → get_elem? (take i xs ++ (x ∷ drop i xs)) i ≡ some x
  get_elem?-insert xs zero x h = refl
  get_elem?-insert [] (suc i) x h = absurd (omega arith)
  get_elem?-insert (y ∷ xs) (suc i) x h = get_elem?-insert xs i x (omega arith)

  length-insert_lt :
      (xs : List A) (i : ℕ) (x : A) → i ≤ length xs → i < length (take i xs ++ (x ∷ drop i xs))
  length-insert_lt xs zero x h = omega arith
  length-insert_lt [] (suc i) x h = absurd (omega arith)
  length-insert_lt (y ∷ xs) (suc i) x h = omega (arith, length-insert_lt xs i x (omega arith))

-- The rows that `operator[]` gives are those below `size`, if a document with a header has its
-- header row and the rows are fewer than 2^64.
pub at-size :
    (d : Document) (i : ℕ)
    → length d.rows < size_mod
    → (d.use_header ≡ true → 0 < length d.rows)
    → (at d i ≡ none) ↔ (size d ≤ i)
unfolding at size
at-size d i small headed = (λ e. out e, λ l. into l)
  where
    out : at d i ≡ none → size d ≤ i
    out e =
        ground (arith, le_of_none d.rows i, le_of_none d.rows (i + 1), le_of_none d.rows 0, headed)

    into : size d ≤ i → at d i ≡ none
    into l = ground (arith, get_elem?-none d.rows i, get_elem?-none d.rows (i + 1), headed)

-- What `insert` puts at a position stands there, and `erase` at the position takes it out again.
pub erase-insert :
    (d : Document) (i : ℕ) (r : Row)
    → i ≤ length d.rows
    → (d' : Document) × (insert d i r ≡ some d')
      × (get_elem? d'.rows i ≡ some r)
      × (erase d' i ≡ some d)
unfolding insert erase
erase-insert d i r h = (
  record d { rows = take i d.rows ++ (r ∷ drop i d.rows) },
  ground arith,
  get_elem?-insert d.rows i r h,
  rw (
    lt→ltb i (length (take i d.rows ++ (r ∷ drop i d.rows))) (length-insert_lt d.rows i r h),
    take-insert d.rows i r h,
    drop-insert d.rows i r h,
    take-append-drop i d.rows,
  ),
)
