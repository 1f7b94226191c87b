-- ===== src/Http/Query.antt =====
-- `query_string_parser` of include/txl/http.h.
use libtxl.Prelude.{
  ℕ, zero, suc, Bytes, List, [], ◌∷◌, ◌++◌, Option, none, some, if◌then◌else◌, ◌==◌, ◌||◌,
}
use libtxl.Lexer.{Tokenizer, peek, skip, try_expect, is_empty, consume_while}
use libtxl.Http.Hex.{Hex, fresh_hex, query_token}

pub record QueryParam : Type 0 where
  pub name : Bytes
  pub value : Bytes

pub data QueryState : Type 0 where
  start in_name in_value ended failed : QueryState

-- The parser and the parameters that the notifier got from it.
pub record Query : Type 0 where
  pub name : Bytes
  pub value : Bytes
  pub hex : Hex
  pub state : QueryState
  pub params : List QueryParam

abbrev pub fresh_query : Query
fresh_query = record { name = []; value = []; hex = fresh_hex; state = start; params = [] }

abbrev pub reset : Query → QueryState → Query
reset q s = record q { name = []; value = []; state = s }

-- `notify`, by the name read
unfoldable pub notified : Bytes → Query → List QueryParam
notified [] q = q.params
notified (c ∷ cs) q = q.params ++ (record { name = c ∷ cs; value = q.value } ∷ [])

abbrev pub notify : Query → Query
notify q = record q { params = notified q.name q }

abbrev pub Step : Type 0
Step = Option (Query × Tokenizer)

unfoldable pub parse_state_0 : Query → Tokenizer → Step
parse_state_0 q t =
    let (found, t') = try_expect t b'?' in
    if found
    then some (record q { state = in_name; name = [] }, t')
    else some (record q { state = failed }, t)

-- What `parse_state_1` does behind the name.
unfoldable pub behind_name : Query → Tokenizer → Query × Tokenizer
behind_name q t = elim (peek t) [
  | none ↦ (reset (notify q) ended, t)
  | some c ↦
      if c == b'='
      then (record q { state = in_value }, (skip t).1)
      else if c == b'&' || c == b'?'
      then (reset (notify q) in_name, (skip t).1)
      else (reset (notify q) ended, t)
]

unfoldable pub behind_value : Query → Tokenizer → Query × Tokenizer
behind_value q t = elim (peek t) [
  | none ↦ (reset (notify q) ended, t)
  | some c ↦
      if c == b'&' then (reset (notify q) in_name, (skip t).1) else (reset (notify q) ended, t)
]

unfoldable pub parse_state_1 : ℕ → Query → Tokenizer → Step
parse_state_1 fuel q t = elim (consume_while query_token fuel q.hex t q.name) [
  | none ↦ none
  | some (_, h, t', out) ↦ some (behind_name (record q { name = out; hex = h }) t')
]

unfoldable pub parse_state_2 : ℕ → Query → Tokenizer → Step
parse_state_2 fuel q t = elim (consume_while query_token fuel q.hex t q.value) [
  | none ↦ none
  | some (_, h, t', out) ↦ some (behind_value (record q { value = out; hex = h }) t')
]

-- One round of `parse`; `none` inside `some` is the `return` of the last two states.
unfoldable pub parse_step : ℕ → Query → Tokenizer → Option (Option (Query × Tokenizer))
parse_step fuel q t = elim q.state [
  | start ↦ elim (parse_state_0 q t) [ none ↦ none | some r ↦ some (some r) ]
  | in_name ↦ elim (parse_state_1 fuel q t) [ none ↦ none | some r ↦ some (some r) ]
  | in_value ↦ elim (parse_state_2 fuel q t) [ none ↦ none | some r ↦ some (some r) ]
  | ended ↦ some none
  | failed ↦ some none
]

-- `parse`, with fuel for its rounds and for the characters of each.
unfoldable pub parse : ℕ → ℕ → Query → Tokenizer → Step
parse zero fuel q t = none
parse (suc f) fuel q t =
    let rest : Step = elim (parse_step fuel q t) [
      | none ↦ none
      | some none ↦ some (q, t)
      | some (some (q', t')) ↦ parse f fuel q' t'
    ] in
    if is_empty t then some (q, t) else rest
