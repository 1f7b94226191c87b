-- ===== src/Http/Encode.antt =====
-- An independent description of the text that the query tokens of include/txl/http.h decode: how a
-- value is written with `%` and `+`.
use libtxl.Prelude.{
  ℕ, ◌+◌, ◌/◌, ◌%◌, ◌<◌, Bool, ◌||◌, ◌&&◌, Bytes, [], ◌∷◌, ◌++◌, if◌then◌else◌, ◌==◌, leb, ltb,
}
use libtxl.Lexer.{mem}
use libtxl.Http.Hex.{text_codes}

-- The characters that stand for themselves.
abbrev pub is_literal : ℕ → Bool
is_literal c =
    ((leb b'0' c && leb c b'9' || leb b'A' c && leb c b'Z') || leb b'a' c && leb c b'z')
    || mem c (text_codes "!$'*-.^_`|~[]")

unfoldable pub hex_digit : ℕ → ℕ
hex_digit d = if ltb d 10 then b'0' + d else 55 + d

unfoldable pub encode_char : ℕ → Bytes
encode_char c =
    if is_literal c
    then c ∷ []
    else if c == b' '
    then b'+' ∷ []
    else b'%' ∷ hex_digit (c / 16) ∷ hex_digit (c % 16) ∷ []

unfoldable pub encode : Bytes → Bytes
encode [] = []
encode (c ∷ s) = encode_char c ++ encode s

abbrev pub AllBytes : Bytes → Type 0
AllBytes [] = Unit
AllBytes (c ∷ s) = (c < 256) × AllBytes s
