-- ===== src/Lexer/Span.antt =====
-- What the loops over a token (include/txl/lexer.h) read.
use libtxl.Prelude.{
  ℕ, zero, suc, ◌+◌, ◌<◌, ◌≡◌, refl, ◌∙◌, ap, append-nil, append_assoc, ap₂, Bool, true, false,
  Bytes, [], ◌∷◌, ◌++◌, Option, some, arith, inl, inr, Bool-cases, length,
}
use libtxl.Lexer.Cursor.{Tokenizer, to_int, read_one, peek}
use libtxl.Lexer.Tokens.{
  Token, Processed, put_one, mem, or_process, or_token, consume_while, consume_until, in_set,
  is_not,
}

abbrev pub at : Bytes → ℕ → Tokenizer
at cs n = record { rest = cs; parsed = n }

pub to_int_lem : (c : ℕ) → c < 255 → to_int c ≡ some c
to_int_lem c h = ground arith

-- A token that puts the character it is called on.
abbrev pub Puts : {H : Type 0} → Token H → ℕ → Type 0
Puts {H} tok c =
    (h : H) (cs : Bytes) (n : ℕ) (dst : Bytes)
    → tok.process h (at (c ∷ cs) n) dst ≡ (true, h, at cs (n + 1), dst ++ (c ∷ []))

module _ {H : Type 0} where
  pub put_one-Puts :
      (c : ℕ) → c < 255 → (p : ℕ → Bool) → Puts {H = H} (record { test = p; process = put_one }) c
  unfolding put_one read_one
  put_one-Puts c small p h cs n dst = rw (put_one, read_one, to_int_lem c small) refl

  -- One round of the loop.
  pub consume_while_round :
      (tok : Token H) (f c : ℕ) (cs : Bytes) (n : ℕ) {h h' : H} {t' : Tokenizer} {dst dst' : Bytes}
      → tok.test c ≡ true
      → tok.process h (at (c ∷ cs) n) dst ≡ (true, h', t', dst')
      → consume_while tok (suc f) h (at (c ∷ cs) n) dst ≡ consume_while tok f h' t' dst'
  unfolding consume_while
  consume_while_round tok f c cs n e p = rw (consume_while, e, p) refl

module _ {H : Type 0} (t1 t2 : Token H) (c : ℕ) (small : c < 255) where
  pub or_process_left :
      (h : H) (cs : Bytes) (n : ℕ) (dst : Bytes)
      → t1.test c ≡ true
      → or_process t1 t2 h (at (c ∷ cs) n) dst ≡ t1.process h (at (c ∷ cs) n) dst
  unfolding or_process peek
  or_process_left h cs n dst e = rw (or_process, peek, to_int_lem c small, e) refl

  pub or_process_right :
      (h : H) (cs : Bytes) (n : ℕ) (dst : Bytes)
      → t1.test c ≡ false
      → or_process t1 t2 h (at (c ∷ cs) n) dst ≡ t2.process h (at (c ∷ cs) n) dst
  unfolding or_process peek
  or_process_right h cs n dst e = rw (or_process, peek, to_int_lem c small, e) refl

  pub or_token-Puts : Puts t1 c → Puts t2 c → Puts (or_token t1 t2) c
  or_token-Puts p1 p2 h cs n dst = elim (Bool-cases (t1.test c)) [
    | inl e ↦ or_process_left h cs n dst e ∙ p1 h cs n dst
    | inr e ↦ or_process_right h cs n dst e ∙ p2 h cs n dst
  ]

-- Every character of a word is taken and put.
abbrev pub AllPut : {H : Type 0} → Token H → Bytes → Type 0
AllPut tok [] = Unit
AllPut tok (c ∷ cs) = (tok.test c ≡ true) × Puts tok c × AllPut tok cs

-- No character of a word is in a set, and none is the byte 255.
abbrev pub Avoids : Bytes → Bytes → Type 0
Avoids stops [] = Unit
Avoids stops (c ∷ cs) = (mem c stops ≡ false) × (c < 255) × Avoids stops cs

AllPut-Avoids :
    (H : Type 0) (stops word : Bytes)
    → Avoids stops word
    → AllPut (is_not {H = H} (in_set stops)) word
AllPut-Avoids H stops [] a = a
AllPut-Avoids H stops (c ∷ cs) (e, small, a) =
    (rw e refl, put_one-Puts c small (λ d. mem d stops), AllPut-Avoids H stops cs a)

module _ {H : Type 0} where
  -- consume_while on a word whose characters the token takes and puts, followed by a character that
  -- it does not take: it appends exactly the word to the stream and stops behind it, if the fuel
  -- is more than the length of the word.
  pub consume_while_span :
      (tok : Token H) (word : Bytes) (x : ℕ) (ys : Bytes) (f : ℕ) (h : H) (n : ℕ) (dst : Bytes)
      → AllPut tok word
      → tok.test x ≡ false
      → length word < f
      → consume_while tok f h (at (word ++ (x ∷ ys)) n) dst
        ≡ some (true, h, at (x ∷ ys) (n + length word), dst ++ word)
  unfolding consume_while
  consume_while_span tok word x ys zero h n dst puts stop enough = elim enough [ ]
  consume_while_span tok [] x ys (suc f) h n dst puts stop enough =
      let result : ℕ → Option (Processed H) = λ k. some (true, h, at (x ∷ ys) k, dst) in
      rw (consume_while, stop, append-nil dst) (ap result (omega arith))
  consume_while_span tok (c ∷ word) x ys (suc f) h n dst (takes, put, puts) stop enough =
      let result : ℕ → Bytes → Option (Processed H) = λ k out. some (true, h, at (x ∷ ys) k, out) in
      consume_while_round tok f c (word ++ (x ∷ ys)) n takes (put h (word ++ (x ∷ ys)) n dst)
      ∙ consume_while_span tok word x ys f h (n + 1) (dst ++ (c ∷ [])) puts stop (omega arith)
      ∙ ap₂ result (omega arith) (append_assoc dst (c ∷ []) word)

  pub consume_until_span :
      (stops word : Bytes) (x : ℕ) (ys : Bytes) (f : ℕ) (h : H) (n : ℕ)
      → Avoids stops word
      → mem x stops ≡ true
      → length word < f
      → consume_until (in_set stops) f h (at (word ++ (x ∷ ys)) n) []
        ≡ some (true, h, at (x ∷ ys) (n + length word), word)
  consume_until_span stops word x ys f h n a stop enough =
      consume_while_span (is_not (in_set stops)) word x ys f h n [] (AllPut-Avoids H stops word a)
        (rw stop refl) enough
