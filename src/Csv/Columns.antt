-- ===== src/Csv/Columns.antt =====
-- The lookup of a column by its name in the header, in include/txl/csv.h.
use mathlib.Core.List.{append-nil, append_assoc}
use libtxl.Prelude.{
  ℕ, ◌+◌, ◌≤◌, Bytes, List, [], ◌∷◌, ◌++◌, Option, none, some, if◌then◌else◌, length, length-append,
  get_elem?, equal, ◌≡◌, refl, arith, Bool-cases, inl, inr,
}
use libtxl.Csv.Document.{
  Row, RowView, Lookup, found, no_header, key_not_found, out_of_bounds, find_from, at_key,
  at_column,
}

-- Header and row side by side: the cell under the first header cell that is the key.
unfoldable pub cell_under : Row → Row → Bytes → Lookup
cell_under [] row key = key_not_found
cell_under (h ∷ hs) [] key =
    let rest = cell_under hs [] key in if equal h key then out_of_bounds else rest
cell_under (h ∷ hs) (c ∷ row) key =
    let rest = cell_under hs row key in if equal h key then found c else rest

get_elem?-behind {ℓ} :
    {A : Type ℓ} (pre row : List A) (c : A) → get_elem? (pre ++ (c ∷ row)) (length pre) ≡ some c
get_elem?-behind [] row c = refl
get_elem?-behind (x ∷ pre) row c = get_elem?-behind pre row c

find_from-le : (hs : Row) (key : Bytes) (k : ℕ) → k ≤ find_from hs key k
unfolding find_from
find_from-le [] key k = omega arith
find_from-le (h ∷ hs) key k = ground (arith, find_from-le hs key (k + 1))

at_column_short :
    (row hs : Row) (key : Bytes) (k n : ℕ)
    → length row ≤ k
    → n ≡ k + length hs
    → at_column row n (find_from hs key k) ≡ cell_under hs [] key
unfolding at_column find_from cell_under
at_column_short row [] key k n h e = ground arith
at_column_short row (x ∷ hs) key k n h e = ground (arith, at_column_short row hs key (k + 1) n)

at_column_behind :
    (pre row hs : Row) (key : Bytes) (k n : ℕ)
    → k ≡ length pre
    → n ≡ k + length hs
    → at_column (pre ++ row) n (find_from hs key k) ≡ cell_under hs row key
unfolding at_column find_from cell_under
at_column_behind pre row [] key k n h e = unfold cell_under in ground arith
at_column_behind pre [] (x ∷ hs) key k n h e =
    rw append-nil (at_column_short pre (x ∷ hs) key k n (omega arith) e)
at_column_behind pre (c ∷ row) (x ∷ hs) key k n h e = elim (Bool-cases (equal x key)) [
  | inl same ↦ rw same (ground (arith, length-append pre (c ∷ row), h, get_elem?-behind pre row c))
  | inr differ ↦
      rw (differ, ← append_assoc pre (c ∷ []) row)
        (at_column_behind (pre ++ (c ∷ [])) row hs key (k + 1) n
          (omega (arith, length-append pre (c ∷ []))) (omega arith))
]

abbrev pub lookup_of : RowView → Bytes → Lookup
lookup_of v key = elim v.header [ none ↦ no_header | some hs ↦ cell_under hs v.row key ]

-- The lookup of a key is the cell under the first header cell that is the key; without a header,
-- without such a cell, or in a row too short to have a cell under it, it throws. It never reads out
-- of the row.
pub at_key-lookup_of : (v : RowView) (key : Bytes) → at_key v key ≡ lookup_of v key
unfolding at_key
at_key-lookup_of v key = of_header v.header
  where
    of_header :
        (h : Option Row)
        → (elim h [ none ↦ no_header | some hs ↦ at_column v.row (length hs) (find_from hs key 0) ])
          ≡ (elim h [ none ↦ no_header | some hs ↦ cell_under hs v.row key ])
    of_header none = refl
    of_header (some hs) = at_column_behind [] v.row hs key 0 (length hs) refl (omega arith)
