-- ===== src/Http/Steps.antt =====
-- The text of a query, and the rounds of the query string parser of include/txl/http.h on it.
use libtxl.Prelude.{
  ℕ, suc, ◌+◌, ◌<◌, ◌≡◌, refl, inl, inr, Bool-cases, false, Bytes, List, [], ◌∷◌, ◌++◌, Option,
  some, ◌==◌, length,
}
use libtxl.Lexer.{Tokenizer, is_empty, peek, skip}
use libtxl.Http.Query.{
  QueryParam, QueryState, Query, in_name, in_value, ended, parse, parse_step, parse_state_1,
  parse_state_2, behind_name, behind_value, notified,
}
use libtxl.Http.Encode.{encode, AllBytes}
use libtxl.Lexer.Span.{at}
use libtxl.Http.Escape.{hex_at_0}
use libtxl.Http.Decode.{IsDecoded}

-- What stands behind a value: the further parameters, each with the `&` in front of it, and `rest`.
unfoldable pub follow : List QueryParam → Bytes → Bytes
follow [] rest = rest
follow (p ∷ ps) rest = b'&' ∷ (encode p.name ++ (b'=' ∷ (encode p.value ++ follow ps rest)))

-- A parameter with what stands behind it
abbrev pub params_text : QueryParam → List QueryParam → Bytes → Bytes
params_text p ps rest = encode p.name ++ (b'=' ∷ (encode p.value ++ follow ps rest))

abbrev pub query_text : QueryParam → List QueryParam → Bytes → Bytes
query_text p ps rest = b'?' ∷ params_text p ps rest

-- A parameter that the parser can read on `fuel`: its name is not empty.
pub record IsParam (fuel : ℕ) (p : QueryParam) : Type 0 where
  pub name_nonempty : 0 < length p.name
  pub name_bytes : AllBytes p.name
  pub value_bytes : AllBytes p.value
  pub name_short : length p.name < fuel
  pub value_short : length p.value < fuel

abbrev pub AllParams : ℕ → List QueryParam → Type 0
AllParams fuel [] = Unit
AllParams fuel (p ∷ ps) = IsParam fuel p × AllParams fuel ps

abbrev pub query : QueryState → Bytes → Bytes → Option ℕ → Option ℕ → List QueryParam → Query
query s name value a b params = record {
  name = name;
  value = value;
  hex = hex_at_0 a b;
  state = s;
  params = params;
}

-- One round of the loop that goes on.
pub parse_round :
    (f fuel : ℕ) (q : Query) (xs : Bytes) (x : ℕ) (ys : Bytes) (n : ℕ) {q' : Query} {t' : Tokenizer}
    → parse_step fuel q (at (xs ++ (x ∷ ys)) n) ≡ some (some (q', t'))
    → parse (suc f) fuel q (at (xs ++ (x ∷ ys)) n) ≡ parse f fuel q' t'
unfolding parse is_empty
parse_round f fuel q [] x ys n e = rw (parse, e) refl
parse_round f fuel q (c ∷ xs) x ys n e = rw (parse, e) refl

-- The name, with the `=` behind it
pub name_step :
    (fuel : ℕ) (a b : Option ℕ) (ps : List QueryParam) (name cs : Bytes) (n : ℕ)
    → (d : IsDecoded fuel a b name b'=' cs n [])
    → parse_step fuel (query in_name [] [] a b ps) (at (encode name ++ (b'=' ∷ cs)) n)
      ≡ some
          (some (query in_value name [] d.digit1 d.digit2 ps, at cs (n + length (encode name) + 1)))
unfolding parse_step parse_state_1 behind_name peek skip
name_step fuel a b ps name cs n d = rw (parse_step, parse_state_1, d.decoded) refl

notified_lem :
    (name : Bytes) (q : Query)
    → 0 < length name
    → notified name q ≡ q.params ++ (record { name = name; value = q.value } ∷ [])
unfolding notified
notified_lem [] q h = elim h [ ]
notified_lem (c ∷ name) q h = refl

-- The value, with the `&` behind it
pub value_step :
    (fuel : ℕ) (a b : Option ℕ) (ps : List QueryParam) (p : QueryParam) (cs : Bytes) (n : ℕ)
    → 0 < length p.name
    → (d : IsDecoded fuel a b p.value b'&' cs n [])
    → parse_step fuel (query in_value p.name [] a b ps) (at (encode p.value ++ (b'&' ∷ cs)) n)
      ≡ some (
          some (
            query in_name [] [] d.digit1 d.digit2 (ps ++ (p ∷ [])),
            at cs (n + length (encode p.value) + 1),
          ))
unfolding parse_step parse_state_2 behind_value peek skip
value_step fuel a b ps p cs n h d =
    rw (parse_step, parse_state_2, d.decoded)
      (rw (notified_lem p.name (query in_value p.name p.value d.digit1 d.digit2 ps) h) refl)

-- The last value, with a character behind it that ends the query
pub last_step :
    (fuel : ℕ) (a b : Option ℕ) (ps : List QueryParam) (p : QueryParam) (x : ℕ) (ys : Bytes) (n : ℕ)
    → 0 < length p.name
    → (d : IsDecoded fuel a b p.value x ys n []) → (x == b'&') ≡ false
    → parse_step fuel (query in_value p.name [] a b ps) (at (encode p.value ++ (x ∷ ys)) n)
      ≡ some (
          some (
            query ended [] [] d.digit1 d.digit2 (ps ++ (p ∷ [])),
            at (x ∷ ys) (n + length (encode p.value)),
          ))
unfolding parse_step parse_state_2 behind_value peek skip
last_step fuel a b ps p x ys n h d e =
    let told = notified_lem p.name (query in_value p.name p.value d.digit1 d.digit2 ps) h in
    elim (Bool-cases (x == 255)) [
      | inl e' ↦ rw (parse_step, parse_state_2, d.decoded, behind_value, peek, e') (rw told refl)
      | inr e' ↦ rw (parse_step, parse_state_2, d.decoded, behind_value, peek, e', e) (rw told refl)
    ]
