-- ===== src/Csv/Quoting.antt =====
-- Two texts that the splitter of include/txl/csv.h reads as other columns than they stand for: a
-- quoted first cell, and an empty cell behind a comma.
use libtxl.Prelude.{◌<◌, length, Bytes, List, [], ◌∷◌, ◌++◌, ◌≡◌, ◌⊎◌, ◌∙◌, inl, inr, refl}
use libtxl.Io.Buffer.{Lacks}
use libtxl.Csv.Splitter.{State, begin, in_data, end_quote, after_delimiter}
use libtxl.Csv.Line.{on_data, put_char, initial}
use libtxl.Csv.Cells.{Cell, in_quotes, tail_text, values_of, AllCells, IsPlain, last_value}
use libtxl.Csv.RoundTrip.{
  at_state, columns, IsBehind, on_data_comma, on_data-append, on_data-doubled, on_data-tail_text,
  on_data-in_data, on_data_plain,
}

on_data-in_quotes : (s : Bytes) → on_data initial (in_quotes s) ≡ at_state end_quote (b'"' ∷ s) []
unfolding on_data put_char
on_data-in_quotes s = on_data-doubled s (b'"' ∷ []) []

-- A first cell in quotes keeps its opening quote: whatever `s` holds, the first column of the line
-- is `s` with a quote in front. The other columns are the values of the other cells, if none of them
-- stands without quotes and empty behind a comma, or without quotes and begins with a quote or has a
-- comma, and if the last value of the line is not empty.
pub columns-in_quotes :
    (s : Bytes) (cells : List Cell)
    → AllCells cells
    → 0 < length (last_value (b'"' ∷ s) cells)
    → columns (on_data initial (in_quotes s ++ tail_text cells)) ≡ (b'"' ∷ s) ∷ values_of cells
columns-in_quotes s cells a n =
    rw (on_data-append initial (in_quotes s) (tail_text cells), on_data-in_quotes s)
      (on_data-tail_text cells end_quote (b'"' ∷ s) [] (inl (inr refl)) a n)

on_data_two_commas :
    (st : State) (first s : Bytes)
    → IsBehind st ⊎ (st ≡ begin)
    → Lacks b',' s
    → on_data (at_state st first []) (b',' ∷ b',' ∷ s) ≡ at_state in_data (b',' ∷ s) (first ∷ [])
on_data_two_commas st first s b l =
    on_data-append (at_state st first []) (b',' ∷ []) (b',' ∷ s)
    ∙ rw (on_data_comma st first [] b) (rest s l)
  where
    rest :
        (t : Bytes)
        → Lacks b',' t
        → on_data (at_state after_delimiter [] (first ∷ [])) (b',' ∷ t)
          ≡ at_state in_data (b',' ∷ t) (first ∷ [])
    rest t l = unfold on_data put_char in on_data-in_data t (b',' ∷ []) (first ∷ []) l

-- An empty cell behind a comma is joined to the next one: after a first cell, two commas and a text
-- `s` without commas, the second column is `s` with a comma in front.
columns_two_commas :
    (first s : Bytes) (cells : List Cell)
    → IsPlain first
    → Lacks b',' s
    → AllCells cells
    → 0 < length (last_value (b',' ∷ s) cells)
    → columns (on_data initial (first ++ (b',' ∷ b',' ∷ s ++ tail_text cells)))
      ≡ first ∷ (b',' ∷ s) ∷ values_of cells
columns_two_commas first s cells p l a n =
    rw (on_data-append initial first (b',' ∷ b',' ∷ s ++ tail_text cells)) (
      let (st, b, e) = on_data_plain first p in
      rw
        (
          e,
          on_data-append (at_state st first []) (b',' ∷ b',' ∷ s) (tail_text cells),
          on_data_two_commas st first s b l,
        )
        (on_data-tail_text cells in_data (b',' ∷ s) (first ∷ []) (inl (inl refl)) a n))
