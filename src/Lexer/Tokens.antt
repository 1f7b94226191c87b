-- ===== src/Lexer/Tokens.antt =====
-- The token classes and the loops over them (include/txl/lexer.h). A token has a test and a
-- `process` that reads from the tokenizer and writes to the stream `dst`; `H` is the state that a
-- transformer keeps between calls.
use libtxl.Prelude.{
  ℕ, zero, suc, ◌+◌, Bool, true, false, not, ◌&&◌, ◌||◌, Bytes, [], ◌∷◌, ◌++◌, Option, none, some,
  if◌then◌else◌, ◌==◌, leb,
}
use libtxl.Lexer.Cursor.{Tokenizer, read_one, peek}

unfoldable pub mem : ℕ → Bytes → Bool
mem c [] = false
mem c (x ∷ xs) = x == c || mem c xs

-- What a call of `process` returns, with the state, the tokenizer and the stream behind it.
abbrev pub Processed : Type 0 → Type 0
Processed H = Bool × H × Tokenizer × Bytes

pub record Token (H : Type 0) : Type 0 where
  pub test : ℕ → Bool
  pub process : H → Tokenizer → Bytes → Processed H

module _ {H : Type 0} where
  -- `token_tag::process`
  unfoldable pub put_one : H → Tokenizer → Bytes → Processed H
  put_one h t dst =
      let (ch, t') = read_one t in
      elim ch [ none ↦ (false, h, t', dst) | some c ↦ (true, h, t', dst ++ (c ∷ [])) ]

  abbrev pub class_of : (ℕ → Bool) → Token H
  class_of p = record { test = p; process = put_one }

  abbrev pub in_range : ℕ → ℕ → Token H
  in_range lo hi = class_of (λ c. leb lo c && leb c hi)

  abbrev pub is_char : ℕ → Token H
  is_char a = class_of (λ c. a == c)

  -- `accepted_.contains(ch)`
  abbrev pub in_set : Bytes → Token H
  in_set xs = class_of (λ c. mem c xs)

  -- `is_not` tests against `tok`, and processes by it.
  abbrev pub is_not : Token H → Token H
  is_not tok = record { test = λ c. not (tok.test c); process = tok.process }

  abbrev pub transform : Token H → (H → Tokenizer → Bytes → Processed H) → Token H
  transform tok f = record { test = tok.test; process = f }

  unfoldable pub or_process : Token H → Token H → H → Tokenizer → Bytes → Processed H
  or_process t1 t2 h t dst = elim (peek t) [
    | none ↦ (false, h, t, dst)
    | some c ↦ if t1.test c then t1.process h t dst else t2.process h t dst
  ]

  abbrev pub or_token : Token H → Token H → Token H
  or_token t1 t2 = record { test = λ c. t1.test c || t2.test c; process = or_process t1 t2 }

  -- `consume_while`, with fuel; `none` means that the fuel ran out.
  unfoldable pub consume_while : Token H → ℕ → H → Tokenizer → Bytes → Option (Processed H)
  consume_while tok zero h t dst = none
  consume_while tok (suc f) h t dst = elim t.rest [
    | [] ↦ some (true, h, t, dst)
    | c ∷ cs ↦
        let (went, h', t', dst') = tok.process h t dst in
        let rest = consume_while tok f h' t' dst' in
        if tok.test c
        then (if went then rest else some (false, h', t', dst'))
        else some (true, h, t, dst)
  ]

  -- `consume_until`: the same loop on the negated test.
  abbrev pub consume_until : Token H → ℕ → H → Tokenizer → Bytes → Option (Processed H)
  consume_until tok = consume_while (is_not tok)

-- `skip_while` and `skip_until` use only the test.
unfoldable pub skip_loop : (ℕ → Bool) → Bytes → ℕ → Tokenizer
skip_loop p [] n = record { rest = []; parsed = n }
skip_loop p (c ∷ cs) n =
    let later = skip_loop p cs (n + 1) in
    if p c then later else record { rest = c ∷ cs; parsed = n }

abbrev pub skip_while : (ℕ → Bool) → Tokenizer → Tokenizer
skip_while p t = skip_loop p t.rest t.parsed

abbrev pub skip_until : (ℕ → Bool) → Tokenizer → Tokenizer
skip_until p = skip_while (λ c. not (p c))
