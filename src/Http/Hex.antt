-- ===== src/Http/Hex.antt =====
-- `detail::hex_transformer` of include/txl/http.h, and the tokens of a query string.
use Prim.Native.Char.{code}
use Prim.Native.String.{String}
use libtxl.Prelude.{
  ℕ, ◌+◌, ◌-◌, ◌*◌, true, false, ◌&&◌, Bytes, [], ◌∷◌, ◌++◌, Option, none, some, if◌then◌else◌, leb,
}
use libtxl.Lexer.{
  Tokenizer, read_one, skip, is_empty, Processed, Token, in_range, in_set, is_char, transform,
  or_token,
}

pub data HexState : Type 0 where
  s0 s1 s2 s3 : HexState

-- The digits read: `none` is the `int` -1.
pub record Hex : Type 0 where
  pub hex1 : Option ℕ
  pub hex2 : Option ℕ
  pub state : HexState

abbrev pub fresh_hex : Hex
fresh_hex = record { hex1 = none; hex2 = none; state = s0 }

unfoldable pub hex_to_int : ℕ → Option ℕ
hex_to_int c =
    if leb b'0' c && leb c b'9'
    then some (c - b'0')
    else if leb b'a' c && leb c b'f'
    then some (10 + (c - b'a'))
    else if leb b'A' c && leb c b'F'
    then some (10 + (c - b'A'))
    else none

abbrev digit_of : Option ℕ → Option ℕ
digit_of d = elim d [ none ↦ none | some c ↦ hex_to_int c ]

-- `case S3`: the digits are decoded; nothing is read.
unfoldable pub decode : Hex → Tokenizer → Bytes → Processed Hex
unfolding hex_to_int
decode h t dst =
    let h' : Hex = record { hex1 = digit_of h.hex1; hex2 = digit_of h.hex2; state = s0 } in
    elim (digit_of h.hex1) [
      | none ↦ (false, h', t, dst)
      | some a ↦ elim (digit_of h.hex2) [
        | none ↦ (false, h', t, dst)
        | some b ↦ (true, h', t, dst ++ ((a * 16 + b) ∷ []))
      ]
    ]

-- The rounds of `operator()` from each state on; each begins with the test `not tok.empty()`.
unfoldable pub from_s3 : Hex → Tokenizer → Bytes → Processed Hex
unfolding decode is_empty
from_s3 h t dst = if is_empty t then (true, h, t, dst) else decode h t dst

unfoldable pub from_s2 : Hex → Tokenizer → Bytes → Processed Hex
unfolding from_s3 read_one
from_s2 h t dst =
    let (ch, t') = read_one t in
    if is_empty t then (true, h, t, dst) else elim ch [
      | none ↦ (true, record h { hex2 = none }, t', dst)
      | some c ↦ from_s3 (record h { hex2 = some c; state = s3 }) t' dst
    ]

unfoldable pub from_s1 : Hex → Tokenizer → Bytes → Processed Hex
unfolding from_s2
from_s1 h t dst =
    let (ch, t') = read_one t in
    if is_empty t then (true, h, t, dst) else elim ch [
      | none ↦ (true, record h { hex1 = none }, t', dst)
      | some c ↦ from_s2 (record h { hex1 = some c; state = s2 }) t' dst
    ]

unfoldable pub from_s0 : Hex → Tokenizer → Bytes → Processed Hex
unfolding from_s1 skip
from_s0 h t dst =
    if is_empty t then (true, h, t, dst) else from_s1 (record h { state = s1 }) (skip t).1 dst

-- `operator()`
unfoldable pub hex_transform : Hex → Tokenizer → Bytes → Processed Hex
unfolding from_s0
hex_transform h t dst = elim h.state [
  | s0 ↦ from_s0 h t dst
  | s1 ↦ from_s1 h t dst
  | s2 ↦ from_s2 h t dst
  | s3 ↦ from_s3 h t dst
]

-- The lambda for `+`
abbrev pub plus_transform : Hex → Tokenizer → Bytes → Processed Hex
plus_transform h t dst = (true, h, (skip t).1, dst ++ (b' ' ∷ []))

abbrev pub text_codes : String → Bytes
text_codes String.[] = []
text_codes (String.◌∷◌ c s) = code c ∷ text_codes s

-- The token of `consume_tokens`
abbrev pub query_token : Token Hex
query_token =
    or_token
      (or_token
        (or_token
          (or_token (or_token (in_range b'0' b'9') (in_range b'A' b'Z')) (in_range b'a' b'z'))
          (in_set (text_codes "!$'*-.^_`|~[]")))
        (transform (is_char b'%') hex_transform))
      (transform (is_char b'+') plus_transform)
