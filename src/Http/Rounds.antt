-- ===== src/Http/Rounds.antt =====
-- The rounds of `http_1_1_parser::process` (include/txl/http.h) on the text of a request.
use libtxl.Prelude.{
  ℕ, suc, ◌+◌, ◌<◌, ◌≡◌, refl, ◌∙◌, Bool, true, false, not, ◌||◌, Bytes, [], ◌∷◌, ◌++◌, none, some,
  arith, length, ◌==◌,
}
use libtxl.Lexer.{
  Tokenizer, mem, peek, skip, try_expect, is_empty, is_not, in_set, is_char, transform, or_token,
}
use libtxl.Lexer.Span.{
  at, Avoids, AllPut, put_one-Puts, or_process_right, consume_while_span, consume_until_span,
}
use libtxl.Http.Hex.{hex_transform, plus_transform}
use libtxl.Http.Request.{
  HttpParser, in_request_type, in_uri, in_http_version, request_cr, request_lf, header_key,
  header_cr, header_lf, end_cr, end_lf, parser_complete, behind_request_type, behind_uri,
  behind_http_version, expect_one, uri_token,
}
use libtxl.Http.Process.{process_step, process_loop, returned}

-- A round that goes on, in a state that does not return.
pub process_round :
    (f fuel : ℕ) (p : HttpParser) (xs : Bytes) (x : ℕ) (ys : Bytes) (n : ℕ) {p' : HttpParser}
    {t' : Tokenizer}
    → process_step fuel p (at (xs ++ (x ∷ ys)) n) ≡ some (p', t')
    → returned p.state (at (xs ++ (x ∷ ys)) n) ≡ none
    → process_loop (suc f) fuel p (at (xs ++ (x ∷ ys)) n) ≡ process_loop f fuel p' t'
unfolding process_loop is_empty
process_round f fuel p [] x ys n e live = rw (process_loop, live, e) refl
process_round f fuel p (c ∷ xs) x ys n e live = rw (process_loop, live, e) refl

split_or : (a b r : Bool) → (a || (b || r)) ≡ false → ((a || b) ≡ false) × (r ≡ false)
split_or a b r h = ground arith

-- The characters that a plain uri does not have.
abbrev pub uri_stops : Bytes
uri_stops = b'%' ∷ b'+' ∷ b' ' ∷ b'\r' ∷ b'\n' ∷ b'?' ∷ []

AllPut-uri_token : (word : Bytes) → Avoids uri_stops word → AllPut uri_token word
unfolding mem
AllPut-uri_token [] a = a
AllPut-uri_token (c ∷ cs) (e, small, a) =
    let (special, stop) =
      split_or (b'%' == c) (b'+' == c) (mem c (b' ' ∷ b'\r' ∷ b'\n' ∷ b'?' ∷ [])) e in
    (
      rw (special, stop) refl,
      λ h ds n dst.
          or_process_right
            (or_token (transform (is_char b'%') hex_transform)
              (transform (is_char b'+') plus_transform))
            (is_not (in_set (b' ' ∷ b'\r' ∷ b'\n' ∷ b'?' ∷ []))) c small h ds n dst special
          ∙ put_one-Puts c small (λ d. not (mem d (b' ' ∷ b'\r' ∷ b'\n' ∷ b'?' ∷ []))) h ds n dst,
      AllPut-uri_token cs a,
    )

module _ (fuel : ℕ) (p : HttpParser) (word : Bytes) (ys : Bytes) (n : ℕ)
    (short : length word < fuel) where
  pub request_type_step :
      Avoids (b' ' ∷ b'\r' ∷ b'\n' ∷ []) word
      → process_step fuel (record p { state = in_request_type }) (at (word ++ (b' ' ∷ ys)) n)
        ≡ some (
          record p {
            stg = record (p.stg) { request_type = p.stg.request_type ++ word };
            state = in_uri;
          },
          at ys (n + length word + 1),
        )
  unfolding process_step behind_request_type peek skip mem
  request_type_step a =
      rw
        (
          process_step,
          consume_until_span (b' ' ∷ b'\r' ∷ b'\n' ∷ []) word b' ' ys fuel p.hex n a refl short,
        )
        refl

  pub http_version_step :
      Avoids (b'\r' ∷ b'\n' ∷ []) word
      → process_step fuel (record p { state = in_http_version }) (at (word ++ (b'\r' ∷ ys)) n)
        ≡ some (
          record p {
            stg = record (p.stg) { http_version = p.stg.http_version ++ word };
            state = request_cr;
          },
          at (b'\r' ∷ ys) (n + length word),
        )
  unfolding process_step behind_http_version peek skip mem
  http_version_step a =
      rw
        (
          process_step,
          consume_until_span (b'\r' ∷ b'\n' ∷ []) word b'\r' ys fuel p.hex n a refl short,
        )
        refl

  pub uri_step :
      Avoids uri_stops word
      → process_step fuel (record p { state = in_uri }) (at (word ++ (b' ' ∷ ys)) n)
        ≡ some (
          record p { stg = record (p.stg) { uri = p.stg.uri ++ word }; state = in_http_version },
          at ys (n + length word + 1),
        )
  unfolding process_step behind_uri peek skip mem
  uri_step a =
      rw
        (
          process_step,
          consume_while_span uri_token word b' ' ys fuel p.hex n [] (AllPut-uri_token word a) refl
              short,
        )
        refl

-- One character that a state expects
module _ (fuel : ℕ) (p : HttpParser) (ys : Bytes) (n : ℕ) where
  pub request_cr_step :
      process_step fuel (record p { state = request_cr }) (at (b'\r' ∷ ys) n)
      ≡ some (record p { state = request_lf }, at ys (n + 1))
  unfolding process_step expect_one try_expect
  request_cr_step = refl

  pub request_lf_step :
      process_step fuel (record p { state = request_lf }) (at (b'\n' ∷ ys) n)
      ≡ some (record p { state = header_key }, at ys (n + 1))
  unfolding process_step expect_one try_expect
  request_lf_step = refl

  pub header_cr_step :
      process_step fuel (record p { state = header_cr }) (at (b'\r' ∷ ys) n)
      ≡ some (record p { state = header_lf }, at ys (n + 1))
  unfolding process_step expect_one try_expect
  header_cr_step = refl

  pub header_lf_step :
      process_step fuel (record p { state = header_lf }) (at (b'\n' ∷ ys) n)
      ≡ some (record p { state = header_key; new_header = true }, at ys (n + 1))
  unfolding process_step expect_one try_expect
  header_lf_step = refl

  pub end_cr_step :
      process_step fuel (record p { state = end_cr }) (at (b'\r' ∷ ys) n)
      ≡ some (record p { state = end_lf }, at ys (n + 1))
  unfolding process_step expect_one try_expect
  end_cr_step = refl

  pub end_lf_step :
      process_step fuel (record p { state = end_lf }) (at (b'\n' ∷ ys) n)
      ≡ some (record p { state = parser_complete }, at ys (n + 1))
  unfolding process_step expect_one try_expect
  end_lf_step = refl
