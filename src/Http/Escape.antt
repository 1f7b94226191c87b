-- ===== src/Http/Escape.antt =====
-- What `process` of the query token of include/txl/http.h does on each kind of character.
use libtxl.Prelude.{
  ℕ, ◌+◌, ◌*◌, ◌/◌, ◌%◌, ◌<◌, ◌≡◌, refl, ◌∙◌, true, Bytes, [], ◌∷◌, ◌++◌, Option, some, arith,
}
use libtxl.Lexer.{
  Tokenizer, Token, or_process, or_token, transform, is_char, in_range, in_set, read_one, is_empty,
  mem, skip, peek,
}
use libtxl.Lexer.Span.{at, to_int_lem, Puts, put_one-Puts, or_process_left, or_token-Puts}
use libtxl.Http.Hex.{
  Hex, s0, s2, s3, hex_to_int, hex_transform, decode, from_s0, from_s1, from_s2, from_s3,
  query_token, text_codes, plus_transform,
}
use libtxl.Http.Encode.{hex_digit, is_literal}

hex_digit-lt : (d : ℕ) → d < 16 → hex_digit d < 255
unfolding hex_digit
hex_digit-lt d h = ground arith

hex_to_int-hex_digit : (d : ℕ) → d < 16 → hex_to_int (hex_digit d) ≡ some d
unfolding hex_to_int hex_digit
hex_to_int-hex_digit d h = ground arith

pub split_byte : (c : ℕ) → c / 16 * 16 + c % 16 ≡ c
split_byte c = omega arith

-- The state between two escapes.
abbrev pub hex_at_0 : Option ℕ → Option ℕ → Hex
hex_at_0 a b = record { hex1 = a; hex2 = b; state = s0 }

decode-digits :
    {d e : ℕ} (t : Tokenizer) (dst : Bytes)
    → d < 16
    → e < 16
    → decode (record { hex1 = some (hex_digit d); hex2 = some (hex_digit e); state = s3 }) t dst
      ≡ (true, hex_at_0 (some d) (some e), t, dst ++ ((d * 16 + e) ∷ []))
unfolding decode
decode-digits {d} {e} t dst hd he =
    rw (decode, hex_to_int-hex_digit d hd, hex_to_int-hex_digit e he)
      (rw (hex_to_int-hex_digit d hd, hex_to_int-hex_digit e he) refl)

from_s2-digits :
    {d e : ℕ} (b : Option ℕ) (r : ℕ) (rs : Bytes) (n : ℕ) (dst : Bytes)
    → d < 16
    → e < 16
    → from_s2
        (record { hex1 = some (hex_digit d); hex2 = b; state = s2 })
        (at (hex_digit e ∷ r ∷ rs) n)
        dst
      ≡ (true, hex_at_0 (some d) (some e), at (r ∷ rs) (n + 1), dst ++ ((d * 16 + e) ∷ []))
unfolding from_s2 from_s3 is_empty read_one
from_s2-digits {d} {e} b r rs n dst hd he =
    rw (to_int_lem (hex_digit e) (hex_digit-lt e he))
      (decode-digits (at (r ∷ rs) (n + 1)) dst hd he)

pub hex_transform-digits :
    (a b : Option ℕ) {d e : ℕ} (r : ℕ) (rs : Bytes) (n : ℕ) (dst : Bytes)
    → d < 16
    → e < 16
    → hex_transform (hex_at_0 a b) (at (b'%' ∷ hex_digit d ∷ hex_digit e ∷ r ∷ rs) n) dst
      ≡ (true, hex_at_0 (some d) (some e), at (r ∷ rs) (n + 1 + 1 + 1), dst ++ ((d * 16 + e) ∷ []))
unfolding hex_transform from_s0 from_s1 is_empty read_one skip
hex_transform-digits a b {d} {e} r rs n dst hd he =
    rw (to_int_lem (hex_digit d) (hex_digit-lt d hd)) (from_s2-digits b r rs (n + 1 + 1) dst hd he)

from_s2_pending :
    (d e : ℕ) (b : Option ℕ) (n : ℕ) (dst : Bytes)
    → e < 16
    → from_s2
        (record { hex1 = some (hex_digit d); hex2 = b; state = s2 })
        (at (hex_digit e ∷ []) n)
        dst
      ≡ (
        true,
        record { hex1 = some (hex_digit d); hex2 = some (hex_digit e); state = s3 },
        at [] (n + 1),
        dst,
      )
unfolding from_s2 from_s3 is_empty read_one
from_s2_pending d e b n dst he = rw (to_int_lem (hex_digit e) (hex_digit-lt e he)) refl

pub hex_transform_pending :
    (a b : Option ℕ) (d e n : ℕ) (dst : Bytes)
    → d < 16
    → e < 16
    → hex_transform (hex_at_0 a b) (at (b'%' ∷ hex_digit d ∷ hex_digit e ∷ []) n) dst ≡ (
      true,
      record { hex1 = some (hex_digit d); hex2 = some (hex_digit e); state = s3 },
      at [] (n + 1 + 1 + 1),
      dst,
    )
unfolding hex_transform from_s0 from_s1 is_empty read_one skip
hex_transform_pending a b d e n dst hd he =
    rw (to_int_lem (hex_digit d) (hex_digit-lt d hd)) (from_s2_pending d e b (n + 1 + 1) dst he)

abbrev literal_token : Token Hex
literal_token =
    or_token (or_token (or_token (in_range b'0' b'9') (in_range b'A' b'Z')) (in_range b'a' b'z'))
      (in_set (text_codes "!$'*-.^_`|~[]"))

abbrev escape_token : Token Hex
escape_token = transform (is_char b'%') hex_transform

literal_token-Puts : (c : ℕ) → c < 255 → Puts literal_token c
literal_token-Puts c small =
    let digits : Token Hex = in_range b'0' b'9' in
    let uppers : Token Hex = in_range b'A' b'Z' in
    let lowers : Token Hex = in_range b'a' b'z' in
    let marks : Token Hex = in_set (text_codes "!$'*-.^_`|~[]") in
    let letters = or_token (or_token digits uppers) lowers in
    or_token-Puts letters marks c small
      (or_token-Puts (or_token digits uppers) lowers c small
        (or_token-Puts digits uppers c small (put_one-Puts c small digits.test)
          (put_one-Puts c small uppers.test))
        (put_one-Puts c small lowers.test))
      (put_one-Puts c small marks.test)

pub is_literal-lt : (c : ℕ) → is_literal c ≡ true → c < 256 → c < 255
unfolding mem
is_literal-lt c e h = ground arith

pub literal_process :
    (c : ℕ) (h : Hex) (cs : Bytes) (n : ℕ) (dst : Bytes)
    → c < 255
    → is_literal c ≡ true
    → query_token.process h (at (c ∷ cs) n) dst ≡ (true, h, at cs (n + 1), dst ++ (c ∷ []))
literal_process c h cs n dst small e =
    or_process_left (or_token literal_token escape_token) (transform (is_char b'+') plus_transform)
      c small h cs n dst (rw e refl)
    ∙ or_process_left literal_token escape_token c small h cs n dst e
    ∙ literal_token-Puts c small h cs n dst

pub escape_process :
    (h : Hex) (cs : Bytes) (n : ℕ) (dst : Bytes)
    → query_token.process h (at (b'%' ∷ cs) n) dst ≡ hex_transform h (at (b'%' ∷ cs) n) dst
unfolding or_process peek mem
escape_process h cs n dst = refl

pub plus_process :
    (h : Hex) (cs : Bytes) (n : ℕ) (dst : Bytes)
    → query_token.process h (at (b'+' ∷ cs) n) dst ≡ (true, h, at cs (n + 1), dst ++ (b' ' ∷ []))
unfolding or_process peek mem skip
plus_process h cs n dst = refl
