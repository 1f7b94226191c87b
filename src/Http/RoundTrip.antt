-- ===== src/Http/RoundTrip.antt =====
-- `http_1_1_parser` (include/txl/http.h) on the text of a request.
use libtxl.Prelude.{
  ℕ, suc, ◌+◌, ◌-◌, ◌*◌, ◌<◌, ◌≡◌, refl, ◌∙◌, sym, ap, Bytes, List, [], ◌∷◌, ◌++◌, Option, some,
  arith, length, length-append,
}
use libtxl.Lexer.Span.{Avoids}
use libtxl.Http.Query.{QueryParam}
use libtxl.Http.Request.{
  HttpParser, HttpRequest, State, fresh_parser, in_uri, in_http_version, request_cr, request_lf,
  header_key, parser_complete,
}
use libtxl.Http.Process.{process, returned}
use libtxl.Http.Rounds.{
  process_round, uri_stops, request_type_step, uri_step, http_version_step, request_cr_step,
  request_lf_step,
}
use libtxl.Http.Headers.{AllHeaders, headers_text, read_of, process_loop-headers_text}

-- A request without a query, the text of it before `rest`, and what the parser can read on `fuel`.
abbrev pub request_text : HttpRequest → Bytes → Bytes
request_text r rest =
    r.request_type
    ++ (b' '
        ∷ (r.uri ++ (b' ' ∷ (r.http_version ++ (b'\r' ∷ b'\n' ∷ headers_text r.headers rest)))))

pub record IsRequest (fuel : ℕ) (r : HttpRequest) : Type 0 where
  pub no_query : r.query_params ≡ []
  pub type_plain : Avoids (b' ' ∷ b'\r' ∷ b'\n' ∷ []) r.request_type
  pub uri_plain : Avoids uri_stops r.uri
  pub version_plain : Avoids (b'\r' ∷ b'\n' ∷ []) r.http_version
  pub headers_plain : AllHeaders fuel r.headers
  pub type_short : length r.request_type < fuel
  pub uri_short : length r.uri < fuel
  pub version_short : length r.http_version < fuel

-- What `process` returns, and the parser behind it.
pub record IsProcessed (rounds fuel : ℕ) (r : HttpRequest) (rest : Bytes) : Type 0 where
  pub position : ℕ
  pub result :
      process rounds fuel fresh_parser (request_text r rest)
      ≡ some (read_of rest position, record fresh_parser { stg = r; state = parser_complete })
  pub count : position + length rest ≡ length (request_text r rest)

abbrev staged : Bytes → Bytes → Bytes → State → HttpParser
staged m u v s = record fresh_parser {
  stg = record { request_type = m; uri = u; query_params = []; http_version = v; headers = [] };
  state = s;
}

five_rounds :
    (k f : ℕ) → 4 * k + 8 < f → (f' : ℕ) × (f ≡ suc (suc (suc (suc (suc f'))))) × (4 * k + 3 < f')
five_rounds k f h = (f - 5, omega arith, omega arith)

-- process, from a new parser, on the text of a request without a query: the request line, a line
-- `name: value` for each header, and an empty line, each ended by CR LF. The parser is complete
-- afterwards and holds exactly that request, the headers in order; process returns the length of
-- the request if a byte follows it, and 0 if none does. No part holds a character that ends it or
-- the byte 255, the uri has no `%`, `+` or `?`, the header names are not empty, the header values do
-- not begin with a space, each part is shorter than the fuel, and there are more rounds than 8 and
-- four for each header.
pub process-request_text :
    (rounds fuel : ℕ) (r : HttpRequest) (rest : Bytes)
    → 4 * length r.headers + 8 < rounds
    → IsRequest fuel r
    → IsProcessed rounds fuel r rest
unfolding process returned
process-request_text rounds fuel r rest enough fits =
    let (f, e, more) = five_rounds (length r.headers) rounds enough in
    let m = r.request_type in
    let u = r.uri in
    let v = r.http_version in
    let lines = headers_text r.headers rest in
    let behind_uri = v ++ (b'\r' ∷ b'\n' ∷ lines) in
    let n1 = 0 + length m + 1 in
    let n2 = n1 + length u + 1 in
    let n3 = n2 + length v in
    let short = fits.type_short in
    let some_fuel : 0 < fuel = omega arith in
    let later =
      process_loop-headers_text fuel some_fuel (staged m u v header_key) rest r.headers f []
        (n3 + 1 + 1) more fits.headers_plain in
    let whole : List QueryParam → Option (ℕ × HttpParser) = λ qs. some (
      read_of rest later.position,
      record fresh_parser { stg = record r { query_params = qs }; state = parser_complete },
    ) in
    record {
      position = later.position;
      result = rw (e) (
          process_round (suc (suc (suc (suc f)))) fuel fresh_parser m b' '
            (u ++ (b' ' ∷ behind_uri)) 0
            (request_type_step fuel fresh_parser m (u ++ (b' ' ∷ behind_uri)) 0 fits.type_short
              fits.type_plain)
            refl
          ∙ process_round (suc (suc (suc f))) fuel (staged m [] [] in_uri) u b' ' behind_uri n1
              (uri_step fuel (staged m [] [] in_uri) u behind_uri n1 fits.uri_short fits.uri_plain)
              refl
          ∙ process_round (suc (suc f)) fuel (staged m u [] in_http_version) v b'\r' (b'\n' ∷ lines)
              n2
              (http_version_step fuel (staged m u [] in_http_version) v (b'\n' ∷ lines) n2
                fits.version_short fits.version_plain)
              refl
          ∙ process_round (suc f) fuel (staged m u v request_cr) [] b'\r' (b'\n' ∷ lines) n3
              (request_cr_step fuel (staged m u v request_cr) (b'\n' ∷ lines) n3) refl
          ∙ process_round f fuel (staged m u v request_lf) [] b'\n' lines (n3 + 1)
              (request_lf_step fuel (staged m u v request_lf) lines (n3 + 1)) refl
          ∙ later.result
          ∙ ap whole (sym fits.no_query));
      count =
          rw
            (
              later.count,
              length-append m (b' ' ∷ (u ++ (b' ' ∷ behind_uri))),
              length-append u (b' ' ∷ behind_uri),
              length-append v (b'\r' ∷ b'\n' ∷ lines),
            )
            (omega arith);
    }
