-- ===== src/Http/Request.antt =====
-- `http_1_1_parser` of include/txl/http.h.
use libtxl.Prelude.{
  ℕ, Bool, true, false, Bytes, List, [], ◌∷◌, ◌++◌, none, some, if◌then◌else◌, ◌==◌,
}
use libtxl.Lexer.{
  Tokenizer, Token, peek, skip, try_expect, skip_while, in_set, is_char, is_not, transform,
  or_token,
}
use libtxl.Http.Hex.{Hex, fresh_hex, hex_transform, plus_transform}
use libtxl.Http.Query.{Query, QueryParam, fresh_query, failed}

pub record HttpHeaderField : Type 0 where
  pub name : Bytes
  pub value : Bytes

pub record HttpRequest : Type 0 where
  pub request_type : Bytes
  pub uri : Bytes
  pub query_params : List QueryParam
  pub http_version : Bytes
  pub headers : List HttpHeaderField

pub data State : Type 0 where
  in_request_type in_uri in_query_param in_http_version request_cr request_lf header_key
        header_value header_cr header_lf end_cr end_lf parser_complete parser_error :
      State

pub record HttpParser : Type 0 where
  pub stg : HttpRequest
  pub query_string_parser : Query
  pub hex : Hex
  pub state : State
  pub new_header : Bool

abbrev pub fresh_parser : HttpParser
fresh_parser = record {
  stg = record { request_type = []; uri = []; query_params = []; http_version = []; headers = [] };
  query_string_parser = fresh_query;
  hex = fresh_hex;
  state = in_request_type;
  new_header = true;
}

abbrev pub has_error : HttpParser → Bool
has_error p = elim p.state [ parser_error ↦ true | _ ↦ false ]

abbrev pub is_complete : HttpParser → Bool
is_complete p = elim p.state [ parser_complete ↦ true | parser_error ↦ true | _ ↦ false ]

-- The last header changed by `f`; `stg_header` puts a new one behind the others first.
unfoldable pub change_last :
    (HttpHeaderField → HttpHeaderField) → List HttpHeaderField → List HttpHeaderField
change_last f [] = []
change_last f (h ∷ []) = f h ∷ []
change_last f (h ∷ k ∷ hs) = h ∷ change_last f (k ∷ hs)

unfoldable pub stg_header : HttpParser → (HttpHeaderField → HttpHeaderField) → HttpParser
stg_header p f =
    let before =
      if p.new_header
      then p.stg.headers ++ (record { name = []; value = [] } ∷ [])
      else p.stg.headers in
    record p { stg = record (p.stg) { headers = change_last f before }; new_header = false }

abbrev go : HttpParser → State → HttpParser
go p s = record p { state = s }

abbrev pub Next : Type 0
Next = HttpParser × Tokenizer

abbrev pub space_or_line : Token Hex
space_or_line = in_set (b' ' ∷ b'\r' ∷ b'\n' ∷ [])

abbrev pub line_end : Token Hex
line_end = in_set (b'\r' ∷ b'\n' ∷ [])

abbrev pub key_end : Token Hex
key_end = in_set (b':' ∷ b'\r' ∷ b'\n' ∷ [])

abbrev pub uri_token : Token Hex
uri_token =
    or_token
      (or_token (transform (is_char b'%') hex_transform) (transform (is_char b'+') plus_transform))
      (is_not (in_set (b' ' ∷ b'\r' ∷ b'\n' ∷ b'?' ∷ [])))

-- The `switch` behind each run of characters.
unfoldable pub behind_request_type : HttpParser → Tokenizer → Next
behind_request_type p t = elim (peek t) [
  | none ↦ (p, t)
  | some c ↦ if c == b' ' then (go p in_uri, (skip t).1) else (go p parser_error, t)
]

unfoldable pub behind_uri : HttpParser → Tokenizer → Next
behind_uri p t = elim (peek t) [
  | none ↦ (p, t)
  | some c ↦
      if c == b'?'
      then (go p in_query_param, t)
      else if c == b' '
      then (go p in_http_version, (skip t).1)
      else (go p parser_error, t)
]

unfoldable pub behind_http_version : HttpParser → Tokenizer → Next
behind_http_version p t = elim (peek t) [
  | none ↦ (p, t)
  | some c ↦
      if c == b'\r'
      then (go p request_cr, t)
      else if c == b'\n'
      then (go p request_lf, t)
      else (p, t)
]

unfoldable pub behind_header_key : HttpParser → Tokenizer → Next
behind_header_key p t = elim (peek t) [
  | none ↦ (p, t)
  | some c ↦
      if c == b'\r'
      then (go p end_cr, t)
      else if c == b'\n'
      then (go p parser_complete, (skip t).1)
      else if c == b':'
      then (go p header_value, skip_while (λ d. b' ' == d) (skip t).1)
      else (p, t)
]

unfoldable pub behind_header_value : HttpParser → Tokenizer → Next
behind_header_value p t = elim (peek t) [
  | none ↦ (p, t)
  | some c ↦
      if c == b'\r'
      then (go p header_cr, t)
      else if c == b'\n'
      then (record p { state = header_key; new_header = true }, (skip t).1)
      else (p, t)
]

-- `if (tok_buf.tellp() != 0) stg_header().name.append(...)`
unfoldable pub add_name : Bytes → HttpParser → HttpParser
add_name [] p = p
add_name (c ∷ cs) p = stg_header p (λ h. record h { name = h.name ++ (c ∷ cs) })

abbrev pub add_value : Bytes → HttpParser → HttpParser
add_value cs p = stg_header p (λ h. record h { value = h.value ++ cs })

-- The states that expect one character
unfoldable pub expect_one : HttpParser → Tokenizer → ℕ → HttpParser → Next
expect_one p t c p' =
    let (found, t') = try_expect t c in if found then (p', t') else (go p parser_error, t)

-- `QUERY_PARAM`
unfoldable pub behind_query : HttpParser → Query → Tokenizer → Next
behind_query p q t =
    let p' = record p {
      query_string_parser = q;
      stg = record (p.stg) { query_params = q.params };
    } in
    elim q.state [ failed ↦ (go p' parser_error, t) | _ ↦ (go p' in_http_version, (skip t).1) ]
