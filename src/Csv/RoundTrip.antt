-- ===== src/Csv/RoundTrip.antt =====
-- The lambda of `parse_line` run over the text of a row.
use mathlib.Core.List.{append-nil, append_assoc}
use libtxl.Prelude.{
  ℕ, ◌+◌, ◌<◌, Bytes, List, [], ◌∷◌, ◌++◌, ◌≡◌, ◌⊎◌, inl, inr, refl, ap, ◌∙◌, arith, some, length,
}
use libtxl.Io.{ok, buffer_reader, copy_until}
use libtxl.Io.Buffer.{Lacks, each, copy_until-hit, copy_until-end}
use libtxl.Csv.Splitter.{State, begin, in_data, begin_quote, quote_data, end_quote, after_delimiter}
use libtxl.Csv.Line.{LineState, put_char, on_data, last_column, initial, parse_line, newline}
use libtxl.Csv.Cells.{
  Cell, plain, quoted, value_of, doubled, cell_text, tail_text, values_of, IsPlain, IsCell,
  AllCells, last_value, IsRow, row_text,
}

-- A line state of the comma splitter.
abbrev pub at_state : State → Bytes → List Bytes → LineState
at_state st buf cols = record { sp = record { delim = b','; state = st }; buf = buf; cols = cols }

pub on_data-append : (l : LineState) (s t : Bytes) → on_data l (s ++ t) ≡ on_data (on_data l s) t
unfolding on_data
on_data-append l [] t = refl
on_data-append l (c ∷ s) t = on_data-append (put_char l c) s t

-- One call for each character does what one call for the text does.
pub each-on_data : (l : LineState) (s : Bytes) → each on_data l s ≡ on_data l s
unfolding on_data
each-on_data l [] = refl
each-on_data l (c ∷ s) = each-on_data (put_char l c) s

pub on_data-in_data :
    (s buf : Bytes) (cols : List Bytes)
    → Lacks b',' s
    → on_data (at_state in_data buf cols) s ≡ at_state in_data (buf ++ s) cols
unfolding on_data put_char
on_data-in_data [] buf cols h = rw append-nil
on_data-in_data (c ∷ s) buf cols h =
    ground (arith, on_data-in_data s (buf ++ (c ∷ [])) cols h.1, append_assoc buf (c ∷ []) s)

-- The text of a quoted cell, inside its quotes.
pub on_data-doubled :
    (s buf : Bytes) (cols : List Bytes)
    → on_data (at_state quote_data buf cols) (doubled s ++ (b'"' ∷ []))
      ≡ at_state end_quote (buf ++ s) cols
unfolding on_data put_char doubled
on_data-doubled [] buf cols = rw append-nil
on_data-doubled (c ∷ s) buf cols =
    ground (arith, on_data-doubled s (buf ++ (c ∷ [])) cols, append_assoc buf (c ∷ []) s)

on_data_opened :
    (s : Bytes) (cols : List Bytes)
    → on_data (at_state begin_quote [] cols) (doubled s ++ (b'"' ∷ [])) ≡ at_state end_quote s cols
unfolding on_data put_char doubled
on_data_opened [] cols = refl
on_data_opened (c ∷ s) cols = ground (arith, on_data-doubled s (c ∷ []) cols)

-- The states in which a column that was read can end.
abbrev pub IsBehind : State → Type 0
IsBehind st = (st ≡ in_data) ⊎ (st ≡ end_quote)

-- A cell behind a comma is read as its value, and its column is still open.
on_data_cell :
    (c : Cell) (cols : List Bytes)
    → IsCell c
    → (st : State) × IsBehind st
      × (on_data (at_state after_delimiter [] cols) (cell_text c) ≡ at_state st (value_of c) cols)
unfolding cell_text on_data put_char
on_data_cell (plain []) cols h = absurd (omega arith)
on_data_cell (plain (c ∷ s)) cols h =
    (in_data, inl refl, ground (arith, on_data-in_data s (c ∷ []) cols h.1.2))
on_data_cell (quoted s) cols h = (end_quote, inr refl, on_data_opened s cols)

-- A comma closes the column that is open.
pub on_data_comma :
    (st : State) (buf : Bytes) (cols : List Bytes)
    → IsBehind st ⊎ (st ≡ begin)
    → on_data (at_state st buf cols) (b',' ∷ []) ≡ at_state after_delimiter [] (cols ++ (buf ∷ []))
unfolding on_data put_char
on_data_comma st buf cols h = ground arith

-- The rest of a row is read as its values: the open column and those behind it.
pub on_data-tail_text :
    (cells : List Cell) (st : State) (buf : Bytes) (cols : List Bytes)
    → IsBehind st ⊎ (st ≡ begin)
    → AllCells cells
    → 0 < length (last_value buf cells)
    → let l = on_data (at_state st buf cols) (tail_text cells) in
      last_column l.buf l.cols ≡ cols ++ (buf ∷ values_of cells)
unfolding tail_text values_of last_column
on_data-tail_text [] st [] cols b a n = absurd (omega arith)
on_data-tail_text [] st (c ∷ buf) cols b a n = unfold on_data in refl
on_data-tail_text (c ∷ cells) st buf cols b a n =
    let (st', b', e) = on_data_cell c (cols ++ (buf ∷ [])) a.0 in
    rw
      (
        on_data-append (at_state st buf cols) (b',' ∷ []) (cell_text c ++ tail_text cells),
        on_data_comma st buf cols b,
        on_data-append (at_state after_delimiter [] (cols ++ (buf ∷ []))) (cell_text c)
            (tail_text cells),
        e,
      )
      (on_data-tail_text cells st' (value_of c) (cols ++ (buf ∷ [])) (inl b') a.1 n
        ∙ append_assoc cols (buf ∷ []) (value_of c ∷ values_of cells))

-- The columns that a line gives: what stands in `cols`, and the open column if it is not empty.
abbrev pub columns : LineState → List Bytes
columns l = last_column l.buf l.cols

-- A first cell without quotes is read as it stands.
pub on_data_plain :
    (first : Bytes)
    → IsPlain first
    → (st : State) × (IsBehind st ⊎ (st ≡ begin)) × (on_data initial first ≡ at_state st first [])
unfolding on_data put_char
on_data_plain [] p = (begin, inr refl, refl)
on_data_plain (c ∷ s) p =
    (in_data, inl (inl refl), ground (arith, on_data-in_data s (c ∷ []) [] p.2))

pub columns-row :
    (first : Bytes) (cells : List Cell)
    → IsRow first cells
    → columns (on_data initial (row_text first cells)) ≡ first ∷ values_of cells
columns-row first cells h =
    let (st, b, e) = on_data_plain first h.first_plain in
    rw (on_data-append initial first (tail_text cells), e)
      (on_data-tail_text cells st first [] b h.cells_fit h.last_nonempty)

module _ (first : Bytes) (cells : List Cell) where
  -- A row that is written with a newline behind it is read back as its values. The result counts
  -- the characters with the newline, and the reader stands behind the line.
  pub parse_line-row :
      (rest : Bytes) (fuel : ℕ)
      → IsRow first cells
      → Lacks newline (row_text first cells)
      → length (row_text first cells) < fuel
      → parse_line buffer_reader fuel (row_text first cells ++ (newline ∷ rest))
        ≡ some (ok (length (row_text first cells) + 1), rest, first ∷ values_of cells)
  unfolding parse_line copy_until
  parse_line-row rest fuel h l f =
      rw
        (
          copy_until-hit on_data newline (row_text first cells) rest fuel initial 0 l f,
          parse_line,
          each-on_data initial (row_text first cells),
          columns-row first cells h,
        )
        (ap (λ k. some (ok k, rest, first ∷ values_of cells)) (omega arith))

  -- A row at the end of the buffer needs no newline.
  pub parse_line-row_end :
      (fuel : ℕ)
      → IsRow first cells
      → Lacks newline (row_text first cells)
      → length (row_text first cells) < fuel
      → parse_line buffer_reader fuel (row_text first cells)
        ≡ some (ok (length (row_text first cells)), [], first ∷ values_of cells)
  unfolding parse_line copy_until
  parse_line-row_end fuel h l f =
      rw
        (
          copy_until-end on_data newline (row_text first cells) fuel initial 0 l f,
          parse_line,
          each-on_data initial (row_text first cells),
          columns-row first cells h,
        )
        (ap (λ k. some (ok k, [], first ∷ values_of cells)) (omega arith))
