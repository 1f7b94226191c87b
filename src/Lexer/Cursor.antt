-- ===== src/Lexer/Cursor.antt =====
-- `tokenizer` of include/txl/lexer.h. The characters are bytes; `rest` is `data_` from `next_` on,
-- which is all that the tokenizer reads again.
use libtxl.Prelude.{
  ℕ, ◌+◌, Bool, true, false, Bytes, [], ◌∷◌, Option, none, some, if◌then◌else◌, ◌==◌, drop,
}

pub record Tokenizer : Type 0 where
  pub rest : Bytes
  pub parsed : ℕ

-- `tokenizer(data, next)`
abbrev pub tokenizer : Bytes → ℕ → Tokenizer
tokenizer text start = record { rest = drop start text; parsed = start }

unfoldable pub is_empty : Tokenizer → Bool
is_empty t = elim t.rest [ [] ↦ true | c ∷ cs ↦ false ]

abbrev advance_to : Tokenizer → Bytes → Tokenizer
advance_to t cs = record { rest = cs; parsed = t.parsed + 1 }

-- A `char` as an `int`: the byte 255 is -1, which every caller takes for the end of the data.
abbrev pub to_int : ℕ → Option ℕ
to_int c = if c == 255 then none else some c

-- `read_one(-1)` and `peek(-1)`; `none` is -1.
unfoldable pub read_one : Tokenizer → Option ℕ × Tokenizer
read_one t = elim t.rest [ [] ↦ (none, t) | c ∷ cs ↦ (to_int c, advance_to t cs) ]

unfoldable pub peek : Tokenizer → Option ℕ
peek t = elim t.rest [ [] ↦ none | c ∷ cs ↦ to_int c ]

unfoldable pub skip : Tokenizer → Bool × Tokenizer
skip t = elim t.rest [ [] ↦ (false, t) | c ∷ cs ↦ (true, advance_to t cs) ]

unfoldable pub try_expect : Tokenizer → ℕ → Bool × Tokenizer
try_expect t ch = elim t.rest [
  | [] ↦ (false, t)
  | c ∷ cs ↦ if c == ch then (true, advance_to t cs) else (false, t)
]

-- What `expect` and `read_one()` throw.
pub data LexError : Type 0 where
  eof_error expect_error : LexError

pub data Outcome (A : Type 0) : Type 0 where
  done : A → Outcome A
  throws : LexError → Outcome A

unfoldable pub expect : Tokenizer → ℕ → Outcome Tokenizer
expect t ch = elim t.rest [
  | [] ↦ throws eof_error
  | c ∷ cs ↦ if c == ch then done (advance_to t cs) else throws expect_error
]

unfoldable pub read_or_throw : Tokenizer → Outcome (ℕ × Tokenizer)
read_or_throw t = elim t.rest [ [] ↦ throws eof_error | c ∷ cs ↦ done (c, advance_to t cs) ]
