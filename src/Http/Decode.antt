-- ===== src/Http/Decode.antt =====
-- The loop over the query token of include/txl/http.h, on encoded text.
use mathlib.Core.Path.{subst}
use libtxl.Prelude.{
  ℕ, zero, suc, ◌+◌, ◌/◌, ◌%◌, ◌<◌, ◌≡◌, refl, ◌∙◌, ap, append-nil, append_assoc, length-append,
  ap₂, sym, ==_iff, true, false, Bytes, [], ◌∷◌, ◌++◌, Option, some, arith, inl, inr, Bool-cases,
  ◌==◌, length,
}
use libtxl.Lexer.{Processed, consume_while, mem}
use libtxl.Lexer.Span.{at, consume_while_round}
use libtxl.Http.Hex.{Hex, s3, query_token}
use libtxl.Http.Encode.{hex_digit, encode_char, encode, AllBytes, is_literal}
use libtxl.Http.Escape.{
  hex_transform_pending, hex_at_0, split_byte, hex_transform-digits, is_literal-lt, literal_process,
  escape_process, plus_process,
}

-- What the text of a value leaves to the escape at its end.
next_char : (xs : Bytes) (x : ℕ) (ys : Bytes) → (r : ℕ) × (rs : Bytes) × (xs ++ (x ∷ ys) ≡ r ∷ rs)
next_char [] x ys = (x, ys, refl)
next_char (r ∷ xs) x ys = (r, xs ++ (x ∷ ys), refl)

abbrev pub run : ℕ → Option ℕ → Option ℕ → Bytes → ℕ → Bytes → Option (Processed Hex)
run f a b cs n dst = consume_while query_token f (hex_at_0 a b) (at cs n) dst

abbrev pub done_at : Option ℕ → Option ℕ → Bytes → ℕ → Bytes → Option (Processed Hex)
done_at a b cs n dst = some (true, hex_at_0 a b, at cs n, dst)

-- One character of a value, on the fuel of one round.
record IsRound (c f : ℕ) (a b : Option ℕ) (cs : Bytes) (n : ℕ) (dst : Bytes) : Type 0 where
  digit1 : Option ℕ
  digit2 : Option ℕ
  round :
      run (suc f) a b (encode_char c ++ cs) n dst
      ≡ run f digit1 digit2 cs (n + length (encode_char c)) (dst ++ (c ∷ []))

literal-IsRound :
    (c f : ℕ) (a b : Option ℕ) (cs : Bytes) (n : ℕ) (dst : Bytes)
    → c < 256
    → is_literal c ≡ true
    → IsRound c f a b cs n dst
unfolding encode_char
literal-IsRound c f a b cs n dst small e = record {
  digit1 = a;
  digit2 = b;
  round =
      rw (encode_char, e)
        (consume_while_round query_token f c cs n (rw e refl)
          (literal_process c (hex_at_0 a b) cs n dst (is_literal-lt c e small) e));
}

space-IsRound :
    (f : ℕ) (a b : Option ℕ) (cs : Bytes) (n : ℕ) (dst : Bytes) → IsRound b' ' f a b cs n dst
unfolding encode_char mem
space-IsRound f a b cs n dst = record {
  digit1 = a;
  digit2 = b;
  round = consume_while_round query_token f b'+' cs n refl (plus_process (hex_at_0 a b) cs n dst);
}

escape_byte :
    (c : ℕ) (a b : Option ℕ) (r : ℕ) (rs : Bytes) (n : ℕ) (dst : Bytes)
    → c < 256
    → query_token.process
        (hex_at_0 a b)
        (at (b'%' ∷ hex_digit (c / 16) ∷ hex_digit (c % 16) ∷ r ∷ rs) n)
        dst
      ≡ (true, hex_at_0 (some (c / 16)) (some (c % 16)), at (r ∷ rs) (n + 3), dst ++ (c ∷ []))
escape_byte c a b r rs n dst small =
    let result : ℕ → ℕ → Processed Hex =
      λ k v. (true, hex_at_0 (some (c / 16)) (some (c % 16)), at (r ∷ rs) k, dst ++ (v ∷ [])) in
    escape_process (hex_at_0 a b) (hex_digit (c / 16) ∷ hex_digit (c % 16) ∷ r ∷ rs) n dst
    ∙ hex_transform-digits a b r rs n dst (omega arith) (omega arith)
    ∙ ap₂ result (omega arith) (split_byte c)

escape-IsRound :
    (c f : ℕ) (a b : Option ℕ) (r : ℕ) (rs : Bytes) (n : ℕ) (dst : Bytes)
    → c < 256
    → is_literal c ≡ false
    → (c == b' ') ≡ false
    → IsRound c f a b (r ∷ rs) n dst
unfolding encode_char mem
escape-IsRound c f a b r rs n dst small e e' = record {
  digit1 = some (c / 16);
  digit2 = some (c % 16);
  round =
      rw (encode_char, e, e')
        (consume_while_round query_token f b'%' (hex_digit (c / 16) ∷ hex_digit (c % 16) ∷ r ∷ rs) n
          refl (escape_byte c a b r rs n dst small));
}

char-IsRound :
    (c f : ℕ) (a b : Option ℕ) (r : ℕ) (rs : Bytes) (n : ℕ) (dst : Bytes)
    → c < 256
    → IsRound c f a b (r ∷ rs) n dst
char-IsRound c f a b r rs n dst small = elim (Bool-cases (is_literal c)) [
  | inl e ↦ literal-IsRound c f a b (r ∷ rs) n dst small e
  | inr e ↦ elim (Bool-cases (c == b' ')) [
    | inl e' ↦
        subst (λ z. IsRound z f a b (r ∷ rs) n dst) (sym ((==_iff c b' ').0 e'))
          (space-IsRound f a b (r ∷ rs) n dst)
    | inr e' ↦ escape-IsRound c f a b r rs n dst small e e'
  ]
]

consume_while_stop :
    (f : ℕ) (a b : Option ℕ) (x : ℕ) (ys : Bytes) (n : ℕ) (dst : Bytes)
    → query_token.test x ≡ false
    → run (suc f) a b (x ∷ ys) n dst ≡ some (true, hex_at_0 a b, at (x ∷ ys) n, dst)
unfolding consume_while
consume_while_stop f a b x ys n dst e = rw (consume_while, e) refl

-- What the loop returns on the text of a value: the digits of its last escape, and the value.
pub record IsDecoded (f : ℕ) (a b : Option ℕ) (s : Bytes) (x : ℕ) (ys : Bytes) (n : ℕ) (dst : Bytes)
    : Type 0 where
  pub digit1 : Option ℕ
  pub digit2 : Option ℕ
  pub decoded :
      run f a b (encode s ++ (x ∷ ys)) n dst
      ≡ some (true, hex_at_0 digit1 digit2, at (x ∷ ys) (n + length (encode s)), dst ++ s)

text-IsRound :
    (c : ℕ) (s : Bytes) (f : ℕ) (a b : Option ℕ) (x : ℕ) (ys : Bytes) (n : ℕ) (dst : Bytes)
    → c < 256
    → IsRound c f a b (encode s ++ (x ∷ ys)) n dst
text-IsRound c s f a b x ys n dst small =
    let (r, rs, e) = next_char (encode s) x ys in
    subst (λ cs. IsRound c f a b cs n dst) (sym e) (char-IsRound c f a b r rs n dst small)

-- consume_while, with the token of a query and a transformer in its first state, on the encoding of
-- any bytes followed by a byte `x` that is no query character: it appends exactly those bytes to the
-- stream and stops at `x`, with the escapes decoded and the transformer in its first state again.
-- In that state no escape is begun and none waits to be appended. The fuel is more than the number
-- of bytes.
pub consume_while-encode :
    (s : Bytes) (f : ℕ) (a b : Option ℕ) (x : ℕ) (ys : Bytes) (n : ℕ) (dst : Bytes)
    → AllBytes s
    → query_token.test x ≡ false
    → length s < f
    → IsDecoded f a b s x ys n dst
unfolding encode
consume_while-encode [] zero a b x ys n dst bytes stop enough = elim enough [ ]
consume_while-encode (c ∷ s) zero a b x ys n dst bytes stop enough = elim enough [ ]
consume_while-encode [] (suc f) a b x ys n dst bytes stop enough = record {
  digit1 = a;
  digit2 = b;
  decoded = rw (append-nil dst) (
      consume_while_stop f a b x ys n dst stop
      ∙ ap (λ k. done_at a b (x ∷ ys) k dst) (omega arith));
}
consume_while-encode (c ∷ s) (suc f) a b x ys n dst (small, bytes) stop enough =
    let h = text-IsRound c s f a b x ys n dst small in
    let later =
      consume_while-encode s f h.digit1 h.digit2 x ys (n + length (encode_char c)) (dst ++ (c ∷ []))
        bytes stop (omega arith) in
    record {
      digit1 = later.digit1;
      digit2 = later.digit2;
      decoded =
          rw
            (
              append_assoc (encode_char c) (encode s) (x ∷ ys),
              length-append (encode_char c) (encode s),
            )
            (h.round
              ∙ later.decoded
              ∙ ap₂ (done_at later.digit1 later.digit2 (x ∷ ys)) (omega arith)
                  (append_assoc dst (c ∷ []) s));
    }

-- consume_while, with the token of a query, on an escape of two hexadecimal digits with which the
-- data ends: nothing is appended to the stream, and the two digits stay pending in the transformer.
consume_while_last_escape :
    (f : ℕ) (a b : Option ℕ) (d e n : ℕ) (dst : Bytes)
    → d < 16
    → e < 16
    → run (suc (suc f)) a b (b'%' ∷ hex_digit d ∷ hex_digit e ∷ []) n dst
      ≡ some (
        true,
        record { hex1 = some (hex_digit d); hex2 = some (hex_digit e); state = s3 },
        at [] (n + 1 + 1 + 1),
        dst,
      )
unfolding mem consume_while
consume_while_last_escape f a b d e n dst hd he =
    consume_while_round query_token (suc f) b'%' (hex_digit d ∷ hex_digit e ∷ []) n refl (
      escape_process (hex_at_0 a b) (hex_digit d ∷ hex_digit e ∷ []) n dst
      ∙ hex_transform_pending a b d e n dst hd he)
