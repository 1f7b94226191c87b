-- ===== src/Csv/Line.antt =====
-- `parse_line` of include/txl/csv.h.
use libtxl.Prelude.{ℕ, Bytes, List, [], ◌∷◌, ◌++◌, Option, none, some}
use libtxl.Io.{Result, Reader, lambda_writer, copy_until}
use libtxl.Csv.Splitter.{Splitter, SplitterStatus, push, begin}

-- What the lambda of `parse_line` captures: the splitter, the column being read, and the columns
-- given to `dst`.
pub record LineState : Type 0 where
  pub sp : Splitter
  pub buf : Bytes
  pub cols : List Bytes

-- One turn of the lambda's loop.
unfoldable pub put_char : LineState → ℕ → LineState
unfolding push
put_char l ch =
    let (status, sp') = push l.sp ch in
    elim status [
      | SplitterStatus.add ↦ record l { sp = sp'; buf = l.buf ++ (ch ∷ []) }
      | SplitterStatus.delimiter ↦ record { sp = sp'; buf = []; cols = l.cols ++ (l.buf ∷ []) }
      | _ ↦ record l { sp = sp' }
    ]

unfoldable pub on_data : LineState → Bytes → LineState
unfolding put_char
on_data l [] = l
on_data l (ch ∷ src) = on_data (put_char l ch) src

-- `if (buf.tellp() != 0) dst(buf.str())`
unfoldable pub last_column : Bytes → List Bytes → List Bytes
last_column [] cols = cols
last_column buf cols = cols ++ (buf ∷ [])

abbrev pub initial : LineState
initial = record { sp = record { delim = b','; state = begin }; buf = []; cols = [] }

abbrev pub newline : ℕ
newline = b'\n'

module _ {S : Type 0} (rd : Reader S) where
  abbrev finish : Result ℕ × S × LineState → Result ℕ × S × List Bytes
  finish (res, s, l) = (res, s, last_column l.buf l.cols)

  -- The result of `copy_until`, the reader behind the line and the columns that `dst` got, those
  -- before an error too.
  unfoldable pub parse_line : ℕ → S → Option (Result ℕ × S × List Bytes)
  parse_line fuel s = elim (copy_until rd (lambda_writer on_data) newline fuel s initial) [
    | none ↦ none
    | some t ↦ some (finish t)
  ]
