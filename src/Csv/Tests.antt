-- ===== src/Csv/Tests.antt =====
-- The CSV reader at concrete inputs.
use Prim.Native.Char.{code}
use Prim.Native.String.{String}
use libtxl.Prelude.{
  ◌+◌, ◌≡◌, true, Bytes, List, [], ◌∷◌, ◌++◌, some, refl, arith, length, size_mod, equal,
}
use libtxl.Io.{ok, buffer_reader, copy_until, copy_until_loop, read, write}
use libtxl.Csv.Splitter.{begin, ViewSplitter, next, next_loop, is_empty}
use libtxl.Csv.Line.{parse_line, on_data, put_char, initial, last_column}
use libtxl.Csv.Cells.{
  Cell, plain, quoted, IsRow, values_of, in_quotes, tail_text, cell_text, doubled,
}
use libtxl.Csv.RoundTrip.{columns}
use libtxl.Csv.Quoting.{columns-in_quotes}
use libtxl.Csv.View.{collect, without_empty_last, collect-eq-columns}
use libtxl.Csv.Document.{Document, size, parse_document, at_key, out_of_bounds}
use libtxl.Csv.Table.{Line, table_text, table_rows, AllLines, parse_document-table_text}
use libtxl.Csv.Columns.{cell_under, at_key-lookup_of}

abbrev codes : String → Bytes
codes String.[] = []
codes (String.◌∷◌ c s) = code c ∷ codes s

abbrev name : Bytes
name = codes "Bo"

abbrev cells : List Cell
cells = plain (codes "7") ∷ quoted (codes "a\"b,c") ∷ []

bo-IsRow : IsRow name cells
bo-IsRow = omega arith

parse_line_runs :
    parse_line buffer_reader 30 (codes "Bo,7,\"a\"\"b,c\"\nx")
    ≡ some (ok 14, codes "x", codes "Bo" ∷ codes "7" ∷ codes "a\"b,c" ∷ [])
unfolding parse_line copy_until copy_until_loop read write on_data put_char last_column
parse_line_runs = refl

columns-in_quotes_example :
    columns (on_data initial (in_quotes (codes "Bo") ++ tail_text cells))
    ≡ codes "\"Bo" ∷ values_of cells
columns-in_quotes_example = columns-in_quotes (codes "Bo") cells (omega arith) (omega arith)

abbrev semicolons : ViewSplitter
semicolons = record { sp = record { delim = b';'; state = begin }; str = codes "a;b" }

collect-eq-columns_example :
    columns (on_data (record { sp = semicolons.sp; buf = []; cols = [] }) (codes "a;b"))
    ≡ without_empty_last (collect 9 semicolons [])
collect-eq-columns_example = collect-eq-columns 9 semicolons [] (omega arith)

-- An empty last column: `next` gives it, and `parse_line` does not.
abbrev empty_quotes : ViewSplitter
empty_quotes = record { sp = record { delim = b';'; state = begin }; str = codes "a;\"\"" }

collect-empty_quotes : collect 9 empty_quotes [] ≡ (codes "a" ∷ [], some [])
unfolding collect next next_loop is_empty
collect-empty_quotes = refl

abbrev table : List Line
table =
    record { first = codes "id"; cells = plain (codes "n") ∷ [] }
    ∷ record { first = codes "1"; cells = quoted (codes "x,y") ∷ [] }
    ∷ []

table_fits : AllLines 20 table
unfolding tail_text cell_text doubled
table_fits = omega arith

abbrev no_rows : Document
no_rows = record { rows = []; use_header = true }

parse_document-table_text_example :
    parse_document buffer_reader 5 20 (table_text table) no_rows
    ≡ some (ok (length (table_text table)), [], record no_rows { rows = [] ++ table_rows table })
parse_document-table_text_example =
    parse_document-table_text table no_rows 5 20 table_fits (omega arith) (omega arith)

at_key-lookup_of_example :
    at_key
      (record { row = codes "1" ∷ []; header = some (codes "id" ∷ codes "n" ∷ []) })
      (codes "n")
    ≡ out_of_bounds
unfolding cell_under equal
at_key-lookup_of_example =
    at_key-lookup_of (record { row = codes "1" ∷ []; header = some (codes "id" ∷ codes "n" ∷ []) })
      (codes "n")

abbrev one_row : Document
one_row = record { rows = (codes "h" ∷ []) ∷ (codes "v" ∷ []) ∷ []; use_header = true }

-- An empty document with a header has 2^64 - 1 rows by its `size`.
size-no_rows : size no_rows + 1 ≡ size_mod
unfolding size
size-no_rows = refl
