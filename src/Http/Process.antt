-- ===== src/Http/Process.antt =====
-- The loop of `http_1_1_parser::process` of include/txl/http.h.
use libtxl.Prelude.{ℕ, zero, suc, true, Bytes, [], ◌++◌, Option, none, some, if◌then◌else◌}
use libtxl.Lexer.{Tokenizer, Processed, tokenizer, is_empty, consume_while, consume_until}
use libtxl.Http.Hex.{Hex}
use libtxl.Http.Query.{parse}
use libtxl.Http.Request.{
  HttpParser, State, Next, in_request_type, in_uri, in_query_param, in_http_version, request_cr,
  request_lf, header_key, header_value, header_cr, header_lf, end_cr, end_lf, parser_complete,
  parser_error, space_or_line, line_end, key_end, uri_token, behind_request_type, behind_uri,
  behind_http_version, behind_header_key, behind_header_value, add_name, add_value, expect_one,
  behind_query,
}

-- A run of characters into the emptied `tok_buf`, and what follows it.
abbrev run_of : Option (Processed Hex) → (Hex → Bytes → Tokenizer → Next) → Option Next
run_of o k = elim o [ none ↦ none | some (_, h, t, out) ↦ some (k h out t) ]

-- The `switch` of one round; the `return`s of the last two states stand in `process`.
unfoldable pub process_step : ℕ → HttpParser → Tokenizer → Option Next
process_step fuel p t = elim p.state [
  | in_request_type ↦ run_of (consume_until space_or_line fuel p.hex t []) (λ h out.
      behind_request_type
        (record p { stg = record (p.stg) { request_type = p.stg.request_type ++ out } }))
  | in_uri ↦
      run_of (consume_while uri_token fuel p.hex t []) (λ h out.
        behind_uri (record p { stg = record (p.stg) { uri = p.stg.uri ++ out }; hex = h }))
  | in_query_param ↦
      elim (parse fuel fuel (record (p.query_string_parser) { params = p.stg.query_params }) t) [
        | none ↦ none
        | some (q, t') ↦ some (behind_query p q t')
      ]
  | in_http_version ↦ run_of (consume_until line_end fuel p.hex t []) (λ h out.
      behind_http_version
        (record p { stg = record (p.stg) { http_version = p.stg.http_version ++ out } }))
  | request_cr ↦ some (expect_one p t b'\r' (record p { state = request_lf }))
  | request_lf ↦ some (expect_one p t b'\n' (record p { state = header_key }))
  | header_key ↦
      run_of (consume_until key_end fuel p.hex t []) (λ h out. behind_header_key (add_name out p))
  | header_value ↦
      run_of (consume_until line_end fuel p.hex t [])
        (λ h out. behind_header_value (add_value out p))
  | header_cr ↦ some (expect_one p t b'\r' (record p { state = header_lf }))
  | header_lf ↦ some (expect_one p t b'\n' (record p { state = header_key; new_header = true }))
  | end_cr ↦ some (expect_one p t b'\r' (record p { state = end_lf }))
  | end_lf ↦ some (expect_one p t b'\n' (record p { state = parser_complete }))
  | parser_complete ↦ some (p, t)
  | parser_error ↦ some (p, t)
]

-- The `return`s of the last two states
unfoldable pub returned : State → Tokenizer → Option ℕ
returned parser_complete t = some t.parsed
returned parser_error t = some 0
returned _ t = none

-- The loop, with fuel for its rounds and for the characters of each: the number returned and the
-- parser behind it.
unfoldable pub process_loop : ℕ → ℕ → HttpParser → Tokenizer → Option (ℕ × HttpParser)
process_loop zero fuel p t = none
process_loop (suc f) fuel p t =
    let rest : Option (ℕ × HttpParser) = elim (process_step fuel p t) [
      | none ↦ none
      | some (p', t') ↦ process_loop f fuel p' t'
    ] in
    if is_empty t
    then some (0, p)
    else elim (returned p.state t) [ none ↦ rest | some k ↦ some (k, p) ]

unfoldable pub process : ℕ → ℕ → HttpParser → Bytes → Option (ℕ × HttpParser)
process rounds fuel p text = process_loop rounds fuel p (tokenizer text 0)
