-- ===== src/Csv/Splitter.antt =====
-- The state machine `splitter` of include/txl/csv.h, and `string_view_splitter` over it.
use libtxl.Prelude.{ℕ, Bool, true, false, Bytes, [], ◌∷◌, ◌++◌, if◌then◌else◌, ◌==◌}

pub data SplitterStatus : Type 0 where
  add more_data delimiter no_op : SplitterStatus

pub data State : Type 0 where
  begin in_data begin_quote quote_data end_quote after_delimiter : State

pub record Splitter : Type 0 where
  pub delim : ℕ
  pub state : State

abbrev pub quote : ℕ
quote = b'"'

abbrev go : Splitter → State → SplitterStatus → SplitterStatus × Splitter
go sp st out = (out, record sp { state = st })

-- `push`, by the state it is called in; a `case` that keeps the state writes it again here.
unfoldable pub push_in : State → Splitter → ℕ → SplitterStatus × Splitter
push_in begin sp ch =
    if ch == quote
    then go sp quote_data add
    else if ch == sp.delim
    then go sp after_delimiter delimiter
    else go sp in_data add
push_in in_data sp ch =
    if ch == sp.delim then go sp after_delimiter delimiter else go sp in_data add
push_in begin_quote sp ch = if ch == quote then go sp end_quote more_data else go sp quote_data add
push_in quote_data sp ch = if ch == quote then go sp end_quote more_data else go sp quote_data add
push_in end_quote sp ch =
    if ch == quote
    then go sp quote_data add
    else if ch == sp.delim
    then go sp after_delimiter delimiter
    else go sp in_data add
push_in after_delimiter sp ch =
    if ch == quote then go sp begin_quote more_data else go sp in_data add

unfoldable pub push : Splitter → ℕ → SplitterStatus × Splitter
unfolding push_in
push sp ch = push_in sp.state sp ch

abbrev pub reset : Splitter → Splitter
reset sp = record sp { state = begin }

pub data SplitStatus : Type 0 where
  delimiter end_of_line empty : SplitStatus

-- `string_view_splitter`: the characters not yet read stand in `str`.
pub record ViewSplitter : Type 0 where
  pub sp : Splitter
  pub str : Bytes

-- The loop of `next`: the characters handed to `on_char`, whether a delimiter was met, and what is
-- left.
unfoldable pub next_loop : Splitter → Bytes → Bytes → Bytes × Bool × ViewSplitter
unfolding push
next_loop sp [] out = (out, false, record { sp = sp; str = [] })
next_loop sp (c ∷ cs) out =
    let (status, sp') = push sp c in
    elim status [
      | SplitterStatus.add ↦ next_loop sp' cs (out ++ (c ∷ []))
      | SplitterStatus.delimiter ↦ (out, true, record { sp = sp'; str = cs })
      | _ ↦ next_loop sp' cs out
    ]

unfoldable pub is_empty : Bytes → Bool
is_empty [] = true
is_empty (c ∷ cs) = false

-- `next`: what it hands to `on_char`, its result, and the splitter behind it.
unfoldable pub next : ViewSplitter → Bytes × SplitStatus × ViewSplitter
unfolding next_loop is_empty
next v =
    let (out, has_delimiter, v') = next_loop v.sp v.str [] in
    if is_empty v.str
    then ([], SplitStatus.empty, v)
    else (out, if has_delimiter then SplitStatus.delimiter else SplitStatus.end_of_line, v')
