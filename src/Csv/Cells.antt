-- ===== src/Csv/Cells.antt =====
-- An independent description of the rows that the reader of include/txl/csv.h takes: cells with
-- and without quotes, and how they are written.
use libtxl.Prelude.{Bytes, List, [], ◌∷◌, ◌++◌, ◌≢◌, ◌<◌, length, if◌then◌else◌, ◌==◌}
use libtxl.Io.Buffer.{Lacks}

pub data Cell : Type 0 where
  plain : Bytes → Cell
  quoted : Bytes → Cell

-- The value that a cell stands for.
abbrev pub value_of : Cell → Bytes
value_of (plain s) = s
value_of (quoted s) = s

-- A quote inside a quoted cell is written twice.
unfoldable pub doubled : Bytes → Bytes
doubled [] = []
doubled (c ∷ cs) = if c == b'"' then b'"' ∷ b'"' ∷ doubled cs else c ∷ doubled cs

abbrev pub in_quotes : Bytes → Bytes
in_quotes s = b'"' ∷ (doubled s ++ (b'"' ∷ []))

unfoldable pub cell_text : Cell → Bytes
cell_text (plain s) = s
cell_text (quoted s) = in_quotes s

-- The cells behind the first, each with the comma in front of it.
unfoldable pub tail_text : List Cell → Bytes
tail_text [] = []
tail_text (c ∷ cs) = b',' ∷ (cell_text c ++ tail_text cs)

unfoldable pub values_of : List Cell → List Bytes
values_of [] = []
values_of (c ∷ cs) = value_of c ∷ values_of cs

-- A cell without quotes begins with no quote and holds no comma.
abbrev pub IsPlain : Bytes → Type 0
IsPlain [] = Unit
IsPlain (c ∷ cs) = (c ≢ b'"') × (c ≢ b',') × Lacks b',' cs

-- A cell behind the first: what stands without quotes is not empty.
abbrev pub IsCell : Cell → Type 0
IsCell (plain s) = (0 < length s) × IsPlain s
IsCell (quoted s) = Unit

abbrev pub AllCells : List Cell → Type 0
AllCells [] = Unit
AllCells (c ∷ cs) = IsCell c × AllCells cs

-- The value of the last cell, that of the first cell if there is no other.
abbrev pub last_value : Bytes → List Cell → Bytes
last_value first [] = first
last_value first (c ∷ cs) = last_value (value_of c) cs

-- A row: its first cell stands without quotes, and its last value is not empty.
pub record IsRow (first : Bytes) (cells : List Cell) : Type 0 where
  pub first_plain : IsPlain first
  pub cells_fit : AllCells cells
  pub last_nonempty : 0 < length (last_value first cells)

abbrev pub row_text : Bytes → List Cell → Bytes
row_text first cells = first ++ tail_text cells
