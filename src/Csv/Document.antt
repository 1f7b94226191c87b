-- ===== src/Csv/Document.antt =====
-- `row_view`, `document` and `parse_document` of include/txl/csv.h.
use libtxl.Prelude.{
  ℕ, zero, suc, ◌+◌, ◌-◌, ◌%◌, Bool, Bytes, List, [], ◌∷◌, ◌++◌, Option, none, some, if◌then◌else◌,
  ◌==◌, leb, ltb, length, get_elem?, take, drop, equal, size_mod,
}
use libtxl.Io.{Result, ok, err, Reader}
use libtxl.Csv.Line.{parse_line}

abbrev pub Row : Type 0
Row = List Bytes

pub record RowView : Type 0 where
  pub row : Row
  pub header : Option Row

-- What `operator[](key)` returns or throws; `fault` is a read out of the row.
pub data Lookup : Type 0 where
  found : Bytes → Lookup
  no_header key_not_found out_of_bounds fault : Lookup

-- `std::find` from column `i` on; the length of the row if the key is not there
unfoldable pub find_from : Row → Bytes → ℕ → ℕ
find_from [] key i = i
find_from (h ∷ hs) key i = let rest = find_from hs key (i + 1) in if equal h key then i else rest

abbrev pub at_index : Row → ℕ → Lookup
at_index row i = elim (get_elem? row i) [ none ↦ fault | some v ↦ found v ]

unfoldable pub at_column : Row → ℕ → ℕ → Lookup
at_column row len idx =
    if idx == len
    then key_not_found
    else if leb (length row) idx
    then out_of_bounds
    else at_index row idx

unfoldable pub at_key : RowView → Bytes → Lookup
unfolding at_column find_from
at_key v key = elim v.header [
  | none ↦ no_header
  | some hs ↦ at_column v.row (length hs) (find_from hs key 0)
]

pub record Document : Type 0 where
  pub rows : List Row
  pub use_header : Bool

-- `operator[](index)`: `none` is a row out of range.
unfoldable pub at : Document → ℕ → Option RowView
at d index =
    if d.use_header
    then elim (get_elem? d.rows (index + 1)) [
      | none ↦ none
      | some r ↦ elim (get_elem? d.rows 0) [
        | none ↦ none
        | some h ↦ some (record { row = r; header = some h })
      ]
    ]
    else elim (get_elem? d.rows index) [
      | none ↦ none
      | some r ↦ some (record { row = r; header = none })
    ]

abbrev pub clear : Document → Document
clear d = record d { rows = [] }

-- `emplace` and `insert` at a position up to the end; behind it the iterator is out of range.
unfoldable pub insert : Document → ℕ → Row → Option Document
insert d index r =
    if ltb (length d.rows) index
    then none
    else some (record d { rows = take index d.rows ++ (r ∷ drop index d.rows) })

unfoldable pub erase : Document → ℕ → Option Document
erase d index =
    if ltb index (length d.rows)
    then some (record d { rows = take index d.rows ++ drop (suc index) d.rows })
    else none

abbrev pub add : Document → Row → Document
add d r = record d { rows = d.rows ++ (r ∷ []) }

-- `size() - 1` wraps in `size_t`.
unfoldable pub size : Document → ℕ
size d = if d.use_header then (length d.rows + size_mod - 1) % size_mod else length d.rows

module _ {S : Type 0} (rd : Reader S) where
  -- The loop of `parse_document`, with fuel for the rows and for the characters of each.
  unfoldable pub parse_document_loop : ℕ → ℕ → S → Document → ℕ → Option (Result ℕ × S × Document)
  parse_document_loop zero fuel s d bytes_read = none
  parse_document_loop (suc f) fuel s d bytes_read = elim (parse_line rd fuel s) [
    | none ↦ none
    | some (err e, s', row) ↦ some (err e, s', d)
    | some (ok n, s', row) ↦
        let rest = parse_document_loop f fuel s' (add d row) (bytes_read + n) in
        if n == 0 then some (ok bytes_read, s', d) else rest
  ]

  unfoldable pub parse_document : ℕ → ℕ → S → Document → Option (Result ℕ × S × Document)
  parse_document rows fuel s d = parse_document_loop rows fuel s d 0
