-- ===== src/Csv/Table.antt =====
-- `parse_document` of include/txl/csv.h on the text of a whole table.
use mathlib.Core.List.{append-nil, append_assoc}
use libtxl.Prelude.{
  ℕ, zero, suc, ◌+◌, ◌<◌, false, Bytes, List, [], ◌∷◌, ◌++◌, some, ◌==◌, length, length-append, ◌≡◌,
  ap, ap₂, ◌∙◌, arith,
}
use libtxl.Io.{ok, buffer_reader, copy_until}
use libtxl.Io.Buffer.{Lacks, copy_until-end}
use libtxl.Csv.Line.{newline, parse_line, on_data, initial, last_column}
use libtxl.Csv.Cells.{Cell, values_of, IsRow, row_text}
use libtxl.Csv.RoundTrip.{parse_line-row}
use libtxl.Csv.Document.{Row, Document, add, parse_document, parse_document_loop}

-- A row of the table: a first cell without quotes, and the others.
pub record Line : Type 0 where
  pub first : Bytes
  pub cells : List Cell

abbrev pub line_text : Line → Bytes
line_text l = row_text l.first l.cells

abbrev pub line_row : Line → Row
line_row l = l.first ∷ values_of l.cells

pub record IsLine (fuel : ℕ) (l : Line) : Type 0 where
  pub is_row : IsRow l.first l.cells
  pub one_line : Lacks newline (line_text l)
  pub fits : length (line_text l) < fuel

-- The lines, each with a newline behind it.
unfoldable pub table_text : List Line → Bytes
table_text [] = []
table_text (l ∷ ls) = line_text l ++ (newline ∷ table_text ls)

unfoldable pub table_rows : List Line → List Row
table_rows [] = []
table_rows (l ∷ ls) = line_row l ∷ table_rows ls

abbrev pub AllLines : ℕ → List Line → Type 0
AllLines fuel [] = Unit
AllLines fuel (l ∷ ls) = IsLine fuel l × AllLines fuel ls

parse_line-nil : (fuel : ℕ) → 0 < fuel → parse_line buffer_reader fuel [] ≡ some (ok 0, [], [])
unfolding parse_line copy_until last_column
parse_line-nil fuel h = rw (copy_until-end on_data newline [] fuel initial 0 tt h, parse_line)

loop-table :
    (ls : List Line) (f fuel : ℕ) (d : Document) (n : ℕ)
    → AllLines fuel ls
    → length ls < f
    → 0 < fuel
    → parse_document_loop buffer_reader f fuel (table_text ls) d n
      ≡ some (ok (n + length (table_text ls)), [], record d { rows = d.rows ++ table_rows ls })
unfolding parse_document_loop table_text table_rows
loop-table [] zero fuel d n a h p = absurd (omega arith)
loop-table [] (suc f) fuel d n a h p =
    rw (parse_line-nil fuel p, parse_document_loop, append-nil)
      (ap (λ k. some (ok k, [], d)) (omega arith))
loop-table (l ∷ ls) zero fuel d n a h p = absurd (omega arith)
loop-table (l ∷ ls) (suc f) fuel d n a h p =
    rw
      (
        parse_line-row l.first l.cells (table_text ls) fuel a.0.is_row a.0.one_line a.0.fits,
        parse_document_loop,
        nonzero,
      )
      (loop-table ls f fuel (add d (line_row l)) (n + (length (line_text l) + 1)) a.1 (omega arith)
          p
        ∙ ap₂ (λ m rs. some (ok m, [], record d { rows = rs })) counted
            (append_assoc d.rows (line_row l ∷ []) (table_rows ls)))
  where
    nonzero : (length (line_text l) + 1 == 0) ≡ false
    nonzero = ground arith

    counted :
        n + (length (line_text l) + 1) + length (table_text ls)
        ≡ n + length (line_text l ++ (newline ∷ table_text ls))
    counted = omega (arith, length-append (line_text l) (newline ∷ table_text ls))

-- A table of lines whose first cell stands without quotes, whose last value is not empty, in which
-- no cell without quotes behind a comma is empty, and no cell holds a newline; cells without quotes
-- begin with no quote and have no comma. Written line by line, and read with fuel for its lines and
-- their characters, it is added to the document row by row; all characters are counted and none is
-- left.
pub parse_document-table_text :
    (ls : List Line) (d : Document) (f fuel : ℕ)
    → AllLines fuel ls
    → length ls < f
    → 0 < fuel
    → parse_document buffer_reader f fuel (table_text ls) d
      ≡ some (ok (length (table_text ls)), [], record d { rows = d.rows ++ table_rows ls })
unfolding parse_document
parse_document-table_text ls d f fuel a h p =
    loop-table ls f fuel d 0 a h p
    ∙ ap (λ k. some (ok k, [], record d { rows = d.rows ++ table_rows ls })) (omega arith)
