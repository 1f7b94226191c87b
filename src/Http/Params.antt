-- ===== src/Http/Params.antt =====
-- The query string parser of include/txl/http.h on the text of a query.
use libtxl.Prelude.{
  ℕ, zero, suc, ◌+◌, ◌-◌, ◌*◌, ◌<◌, ◌≡◌, refl, sym, ◌∙◌, false, Bytes, List, [], ◌∷◌, ◌++◌, Option,
  none, some, ◌==◌, length, arith, append_assoc, length-append,
}
use libtxl.Lexer.{mem, is_empty, try_expect}
use libtxl.Http.Hex.{query_token}
use libtxl.Http.Query.{
  QueryParam, Query, fresh_query, in_name, in_value, ended, parse, parse_step, parse_state_0,
}
use libtxl.Http.Encode.{encode}
use libtxl.Lexer.Span.{at}
use libtxl.Http.Decode.{consume_while-encode, IsDecoded}
use libtxl.Http.Steps.{
  follow, params_text, query_text, IsParam, AllParams, query, parse_round, name_step, value_step,
  last_step,
}

-- What `parse` returns on `text` before `x ∷ ys`: the parameters, the position behind the query,
-- and the digits of the last escape, which it keeps.
pub record IsParsed (rounds fuel : ℕ) (q : Query) (text : Bytes) (n : ℕ) (params : List QueryParam)
    (x : ℕ) (ys : Bytes) : Type 0 where
  pub digit1 : Option ℕ
  pub digit2 : Option ℕ
  pub position : ℕ
  pub result :
      parse rounds fuel q (at text n)
      ≡ some (query ended [] [] digit1 digit2 params, at (x ∷ ys) position)
  pub count : position + length (x ∷ ys) ≡ n + length text

split_rounds : (k f : ℕ) → 2 * suc k < f → (f' : ℕ) × (f ≡ suc (suc f')) × (2 * k < f')
split_rounds k f h = (f - 2, omega arith, omega arith)

module _ (fuel : ℕ) (x : ℕ) (ys : Bytes) (stop : query_token.test x ≡ false)
    (stop' : (x == b'&') ≡ false) where
  parse_end :
      (f : ℕ) (a b : Option ℕ) (params : List QueryParam) (n : ℕ)
      → 0 < f
      → parse f fuel (query ended [] [] a b params) (at (x ∷ ys) n)
        ≡ some (query ended [] [] a b params, at (x ∷ ys) n)
  unfolding parse parse_step is_empty
  parse_end zero a b params n h = elim h [ ]
  parse_end (suc f) a b params n h = refl

  -- The text of a name, then the text of its value before a character that ends it
  IsDecoded-name :
      (p : QueryParam) (a b : Option ℕ) (cs : Bytes) (n : ℕ)
      → IsParam fuel p
      → IsDecoded fuel a b p.name b'=' cs n []
  unfolding mem
  IsDecoded-name p a b cs n h =
      consume_while-encode p.name fuel a b b'=' cs n [] h.name_bytes refl h.name_short

  IsDecoded-value :
      (p : QueryParam) (a b : Option ℕ) (y : ℕ) (cs : Bytes) (n : ℕ)
      → IsParam fuel p
      → query_token.test y ≡ false
      → IsDecoded fuel a b p.value y cs n []
  IsDecoded-value p a b y cs n h e =
      consume_while-encode p.value fuel a b y cs n [] h.value_bytes e h.value_short

  amp_stops : query_token.test b'&' ≡ false
  unfolding mem
  amp_stops = refl

  parse-params_text :
      (ps : List QueryParam) (p : QueryParam) (f : ℕ) (a b : Option ℕ) (before : List QueryParam)
      (n : ℕ)
      → 2 * length (p ∷ ps) < f
      → AllParams fuel (p ∷ ps)
      → IsParsed f fuel
          (query in_name [] [] a b before)
          (params_text p ps (x ∷ ys))
          n
          (before ++ (p ∷ ps))
          x
          ys
  unfolding follow
  parse-params_text [] p f a b before n rounds (h, _) =
      let (f', e, more) = split_rounds 0 f rounds in
      let d = IsDecoded-name p a b (encode p.value ++ (x ∷ ys)) n h in
      let m = n + length (encode p.name) + 1 in
      let d' = IsDecoded-value p d.digit1 d.digit2 x ys m h stop in
      let named = query in_value p.name [] d.digit1 d.digit2 before in
      record {
        digit1 = d'.digit1;
        digit2 = d'.digit2;
        position = m + length (encode p.value);
        result = rw e (
            parse_round (suc f') fuel (query in_name [] [] a b before) (encode p.name) b'='
              (encode p.value ++ (x ∷ ys)) n
              (name_step fuel a b before p.name (encode p.value ++ (x ∷ ys)) n d)
            ∙ parse_round f' fuel named (encode p.value) x ys m
                (last_step fuel d.digit1 d.digit2 before p x ys m h.name_nonempty d' stop')
            ∙ parse_end f' d'.digit1 d'.digit2 (before ++ (p ∷ [])) (m + length (encode p.value))
                more);
        count =
            rw
              (
                length-append (encode p.name) (b'=' ∷ (encode p.value ++ (x ∷ ys))),
                length-append (encode p.value) (x ∷ ys),
              )
              (omega arith);
      }
  parse-params_text (q ∷ qs) p f a b before n rounds (h, hs) =
      let (f', e, more) = split_rounds (length (q ∷ qs)) f rounds in
      let behind = b'&' ∷ params_text q qs (x ∷ ys) in
      let d = IsDecoded-name p a b (encode p.value ++ behind) n h in
      let m = n + length (encode p.name) + 1 in
      let d' = IsDecoded-value p d.digit1 d.digit2 b'&' (params_text q qs (x ∷ ys)) m h amp_stops in
      let named = query in_value p.name [] d.digit1 d.digit2 before in
      let later =
        parse-params_text qs q f' d'.digit1 d'.digit2 (before ++ (p ∷ []))
          (m + length (encode p.value) + 1) more hs in
      record {
        digit1 = later.digit1;
        digit2 = later.digit2;
        position = later.position;
        result =
            rw (e, sym (append_assoc before (p ∷ []) (q ∷ qs)))
              (parse_round (suc f') fuel (query in_name [] [] a b before) (encode p.name) b'='
                  (encode p.value ++ behind) n
                  (name_step fuel a b before p.name (encode p.value ++ behind) n d)
                ∙ parse_round f' fuel named (encode p.value) b'&' (params_text q qs (x ∷ ys)) m (
                    value_step fuel d.digit1 d.digit2 before p (params_text q qs (x ∷ ys)) m
                      h.name_nonempty d')
                ∙ later.result);
        count =
            rw
              (
                later.count,
                length-append (encode p.name) (b'=' ∷ (encode p.value ++ behind)),
                length-append (encode p.value) behind,
              )
              (omega arith);
      }

-- parse, from a new parser, on the text of one or more parameters, each `name=value` in the
-- encoding with `%HH` and `+`, with `?` in front and `&` between them, followed by a byte `x` that
-- is neither `&` nor a query character: it reports exactly those parameters, decoded and in
-- order, ends in the end state, and stops at `x`. Each name is not empty, and there are more rounds
-- than twice the number of parameters plus one, and more fuel than the length of each name and value.
pub parse-query_text :
    (rounds fuel : ℕ) (p : QueryParam) (ps : List QueryParam) (x : ℕ) (ys : Bytes)
    → query_token.test x ≡ false
    → (x == b'&') ≡ false
    → 2 * length (p ∷ ps) + 1 < rounds
    → AllParams fuel (p ∷ ps)
    → IsParsed rounds fuel fresh_query (query_text p ps (x ∷ ys)) 0 (p ∷ ps) x ys
unfolding parse parse_step parse_state_0 try_expect is_empty
parse-query_text (suc rounds) fuel p ps x ys stop stop' enough fits =
    let rest =
      parse-params_text fuel x ys stop stop' ps p rounds none none [] 1 (omega arith) fits in
    record {
      digit1 = rest.digit1;
      digit2 = rest.digit2;
      position = rest.position;
      result = rest.result;
      count = rest.count ∙ omega arith;
    }
parse-query_text zero fuel p ps x ys stop stop' enough fits = elim enough [ ]
