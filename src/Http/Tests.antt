-- ===== src/Http/Tests.antt =====
-- Runs of the parsers of include/txl/http.h and the tokenizer, and their theorems at concrete inputs.
use libtxl.Prelude.{◌≡◌, refl, false, Bytes, List, [], ◌∷◌, Option, none, some, arith}
use libtxl.Lexer.{
  Tokenizer, tokenizer, mem, consume_while, is_empty, try_expect, or_process, peek, put_one,
  read_one, skip,
}
use libtxl.Http.Hex.{
  text_codes, query_token, decode, from_s0, from_s1, from_s2, from_s3, hex_transform,
}
use libtxl.Http.Query.{
  QueryParam, Query, fresh_query, parse, parse_step, parse_state_0, parse_state_1, behind_name,
  parse_state_2, behind_value, notified,
}
use libtxl.Http.Encode.{encode, encode_char, hex_digit}
use libtxl.Http.Steps.{query_text, follow, AllParams}
use libtxl.Http.Decode.{consume_while-encode, IsDecoded}
use libtxl.Http.Request.{HttpRequest}
use libtxl.Http.RoundTrip.{IsRequest, IsProcessed, process-request_text}
use libtxl.Http.Params.{parse-query_text, IsParsed}

abbrev params_of : Option (Query × Tokenizer) → List QueryParam
params_of o = elim o [ none ↦ [] | some (q, t) ↦ q.params ]

abbrev name_param : QueryParam
name_param = record { name = text_codes "na&me"; value = text_codes "a b" }

abbrev id_param : QueryParam
id_param = record { name = text_codes "id"; value = text_codes "50%" }

abbrev version : Bytes
version = text_codes " HTTP/1.1"

query_text_written :
    query_text name_param (id_param ∷ []) version ≡ text_codes "?na%26me=a+b&id=50%25 HTTP/1.1"
unfolding mem follow encode encode_char hex_digit
query_text_written = refl

-- The escape at the end of the data is lost.
last_value_lost :
    params_of (parse 9 9 fresh_query (tokenizer (text_codes "?id=7%41") 0))
    ≡ record { name = text_codes "id"; value = text_codes "7" } ∷ []
unfolding parse is_empty parse_step parse_state_0 try_expect parse_state_1 consume_while or_process
    peek put_one read_one mem behind_name skip parse_state_2 hex_transform behind_value notified
    decode from_s0 from_s1 from_s2 from_s3
last_value_lost = refl

space_stops : query_token.test b' ' ≡ false
unfolding mem
space_stops = refl

amp_stops : query_token.test b'&' ≡ false
unfolding mem
amp_stops = refl

name_param-fits : AllParams 9 (name_param ∷ id_param ∷ [])
name_param-fits = (
  record {
    name_nonempty = omega arith;
    name_bytes = ground arith;
    value_bytes = ground arith;
    name_short = omega arith;
    value_short = omega arith;
  },
  (
    record {
      name_nonempty = omega arith;
      name_bytes = ground arith;
      value_bytes = ground arith;
      name_short = omega arith;
      value_short = omega arith;
    },
    tt,
  ),
)

parse-query_text_example :
    IsParsed 6 9 fresh_query
      (query_text name_param (id_param ∷ []) version)
      0
      (name_param ∷ id_param ∷ [])
      b' '
      (text_codes "HTTP/1.1")
parse-query_text_example =
    parse-query_text 6 9 name_param (id_param ∷ []) b' ' (text_codes "HTTP/1.1") space_stops refl
      (omega arith) name_param-fits

consume_while-encode_example : IsDecoded 4 none none (text_codes "a b") b'&' (text_codes "id") 3 []
consume_while-encode_example =
    consume_while-encode (text_codes "a b") 4 none none b'&' (text_codes "id") 3 [] (ground arith)
      amp_stops (omega arith)

abbrev get_request : HttpRequest
get_request = record {
  request_type = text_codes "GET";
  uri = text_codes "/index";
  query_params = [];
  http_version = text_codes "HTTP/1.1";
  headers = record { name = text_codes "Host"; value = text_codes "a b" } ∷ [];
}

get_request-IsRequest : IsRequest 20 get_request
unfolding mem
get_request-IsRequest = record {
  no_query = refl;
  type_plain = ground arith;
  uri_plain = ground arith;
  version_plain = ground arith;
  headers_plain = (
    record {
      name_nonempty = omega arith;
      name_plain = ground arith;
      value_plain = ground arith;
      value_trimmed = refl;
      name_short = omega arith;
      value_short = omega arith;
    },
    tt,
  );
  type_short = omega arith;
  uri_short = omega arith;
  version_short = omega arith;
}

process-request_text_example : IsProcessed 13 20 get_request (text_codes "GET")
process-request_text_example =
    process-request_text 13 20 get_request (text_codes "GET") (omega arith) get_request-IsRequest
