-- ===== src/Http/Headers.antt =====
-- The header lines that `http_1_1_parser::process` (include/txl/http.h) reads.
use libtxl.Prelude.{
  ℕ, zero, suc, ◌+◌, ◌-◌, ◌*◌, ◌<◌, ◌≡◌, refl, sym, ◌∙◌, ap, Bool, true, false, Bytes, List, [],
  ◌∷◌, ◌++◌, Option, some, arith, length, append_assoc, append-nil, length-append, ◌==◌,
}
use libtxl.Lexer.{Tokenizer, mem, peek, skip, skip_loop, is_empty}
use libtxl.Lexer.Span.{at, Avoids, consume_until_span}
use libtxl.Http.Request.{
  HttpParser, Next, HttpHeaderField, State, header_key, header_value, header_cr, header_lf, end_cr,
  end_lf, parser_complete, behind_header_key, behind_header_value, stg_header, change_last,
  add_name,
}
use libtxl.Http.Process.{process_step, process_loop, returned}
use libtxl.Http.Rounds.{process_round, header_cr_step, header_lf_step, end_cr_step, end_lf_step}

abbrev pub IsTrimmed : Bytes → Type 0
IsTrimmed [] = Unit
IsTrimmed (c ∷ cs) = (b' ' == c) ≡ false

-- A header that is read as it is written, on `fuel`.
pub record IsHeader (fuel : ℕ) (h : HttpHeaderField) : Type 0 where
  pub name_nonempty : 0 < length h.name
  pub name_plain : Avoids (b':' ∷ b'\r' ∷ b'\n' ∷ []) h.name
  pub value_plain : Avoids (b'\r' ∷ b'\n' ∷ []) h.value
  pub value_trimmed : IsTrimmed h.value
  pub name_short : length h.name < fuel
  pub value_short : length h.value < fuel

abbrev pub AllHeaders : ℕ → List HttpHeaderField → Type 0
AllHeaders fuel [] = Unit
AllHeaders fuel (h ∷ hs) = IsHeader fuel h × AllHeaders fuel hs

-- The header lines, the empty line, and what follows.
unfoldable pub headers_text : List HttpHeaderField → Bytes → Bytes
headers_text [] rest = b'\r' ∷ b'\n' ∷ rest
headers_text (h ∷ hs) rest =
    h.name ++ (b':' ∷ b' ' ∷ (h.value ++ (b'\r' ∷ b'\n' ∷ headers_text hs rest)))

abbrev pub holding : HttpParser → List HttpHeaderField → State → Bool → HttpParser
holding p hs s b = record p { stg = record (p.stg) { headers = hs }; state = s; new_header = b }

change_last_lem :
    (f : HttpHeaderField → HttpHeaderField) (hs : List HttpHeaderField) (h : HttpHeaderField)
    → change_last f (hs ++ (h ∷ [])) ≡ hs ++ (f h ∷ [])
unfolding change_last
change_last_lem f [] h = refl
change_last_lem f (k ∷ []) h = refl
change_last_lem f (k ∷ j ∷ hs) h = ap (λ ks. k ∷ ks) (change_last_lem f (j ∷ hs) h)

add_name_lem :
    (name : Bytes) (p : HttpParser) (hs : List HttpHeaderField)
    → 0 < length name
    → add_name name (holding p hs header_key true)
      ≡ holding p (hs ++ (record { name = name; value = [] } ∷ [])) header_key false
unfolding add_name stg_header
add_name_lem [] p hs h = elim h [ ]
add_name_lem (c ∷ cs) p hs h =
    ap (λ ks. holding p ks header_key false)
      (change_last_lem (λ k. record k { name = k.name ++ (c ∷ cs) }) hs
        (record { name = []; value = [] }))

skip_loop-trimmed :
    (value ys : Bytes) (n : ℕ)
    → IsTrimmed value
    → skip_loop (λ d. b' ' == d) (value ++ (b'\r' ∷ ys)) n ≡ at (value ++ (b'\r' ∷ ys)) n
unfolding skip_loop
skip_loop-trimmed [] ys n h = refl
skip_loop-trimmed (c ∷ cs) ys n h = rw (skip_loop, h) refl

module _ (fuel : ℕ) (p : HttpParser) (h : HttpHeaderField) (hs : List HttpHeaderField) (ys : Bytes)
    (n : ℕ) (fits : IsHeader fuel h) where
  header_key_step :
      process_step fuel
        (holding p hs header_key true)
        (at (h.name ++ (b':' ∷ b' ' ∷ (h.value ++ (b'\r' ∷ ys)))) n)
      ≡ some (
        holding p (hs ++ (record { name = h.name; value = [] } ∷ [])) header_value false,
        at (h.value ++ (b'\r' ∷ ys)) (n + length h.name + 1 + 1),
      )
  unfolding process_step behind_header_key peek skip skip_loop mem
  header_key_step =
      let result : Tokenizer → Option Next = λ t.
        some
          (holding p (hs ++ (record { name = h.name; value = [] } ∷ [])) header_value false, t) in
      rw
        (
          process_step,
          consume_until_span (b':' ∷ b'\r' ∷ b'\n' ∷ []) h.name b':'
              (b' ' ∷ (h.value ++ (b'\r' ∷ ys))) fuel p.hex n fits.name_plain refl fits.name_short,
          add_name_lem h.name p hs fits.name_nonempty,
        )
        (ap result (skip_loop-trimmed h.value ys (n + length h.name + 1 + 1) fits.value_trimmed))

  header_value_step :
      process_step fuel
        (holding p (hs ++ (record { name = h.name; value = [] } ∷ [])) header_value false)
        (at (h.value ++ (b'\r' ∷ ys)) n)
      ≡ some (holding p (hs ++ (h ∷ [])) header_cr false, at (b'\r' ∷ ys) (n + length h.value))
  unfolding process_step behind_header_value peek skip mem stg_header
  header_value_step =
      let result : List HttpHeaderField → Option Next =
        λ ks. some (holding p ks header_cr false, at (b'\r' ∷ ys) (n + length h.value)) in
      rw
        (
          process_step,
          consume_until_span (b'\r' ∷ b'\n' ∷ []) h.value b'\r' ys fuel p.hex n fits.value_plain
              refl fits.value_short,
        )
        (ap result (
          change_last_lem (λ k. record k { value = k.value ++ h.value }) hs
            (record { name = h.name; value = [] })))

empty_key_step :
    (fuel : ℕ) (p : HttpParser) (hs : List HttpHeaderField) (ys : Bytes) (n : ℕ)
    → 0 < fuel
    → process_step fuel (holding p hs header_key true) (at (b'\r' ∷ ys) n)
      ≡ some (holding p hs end_cr true, at (b'\r' ∷ ys) (n + 0))
unfolding process_step behind_header_key peek mem add_name
empty_key_step fuel p hs ys n h =
    rw
      (
        process_step,
        consume_until_span (b':' ∷ b'\r' ∷ b'\n' ∷ []) [] b'\r' ys fuel p.hex n tt refl h,
      )
      refl

-- What `process` returns behind a request: 0 if no character follows.
abbrev pub read_of : Bytes → ℕ → ℕ
read_of [] n = 0
read_of (c ∷ cs) n = n

complete_round :
    (f fuel : ℕ) (p : HttpParser) (hs : List HttpHeaderField) (rest : Bytes) (n : ℕ)
    → 0 < f
    → process_loop f fuel (holding p hs parser_complete true) (at rest n)
      ≡ some (read_of rest n, holding p hs parser_complete true)
unfolding process_loop returned is_empty
complete_round zero fuel p hs rest n h = elim h [ ]
complete_round (suc f) fuel p hs [] n h = refl
complete_round (suc f) fuel p hs (x ∷ ys) n h = refl

-- What the loop returns, from a `header_key` state: the headers, and the position behind them.
pub record IsRead (f fuel : ℕ) (p : HttpParser) (before : List HttpHeaderField) (text : Bytes)
    (n : ℕ) (after : List HttpHeaderField) (rest : Bytes) : Type 0 where
  pub position : ℕ
  pub result :
      process_loop f fuel (holding p before header_key true) (at text n)
      ≡ some (read_of rest position, holding p after parser_complete true)
  pub count : position + length rest ≡ n + length text

split_rounds :
    (k f : ℕ) → 4 * suc k + 3 < f → (f' : ℕ) × (f ≡ suc (suc (suc (suc f')))) × (4 * k + 3 < f')
split_rounds k f h = (f - 4, omega arith, omega arith)

last_rounds : (f : ℕ) → 3 < f → (f' : ℕ) × (f ≡ suc (suc (suc f'))) × (0 < f')
last_rounds f h = (f - 3, omega arith, omega arith)

module _ (fuel : ℕ) (some_fuel : 0 < fuel) (p : HttpParser) (rest : Bytes) where
  pub process_loop-headers_text :
      (hs : List HttpHeaderField) (f : ℕ) (before : List HttpHeaderField) (n : ℕ)
      → 4 * length hs + 3 < f
      → AllHeaders fuel hs
      → IsRead f fuel p before (headers_text hs rest) n (before ++ hs) rest
  unfolding headers_text returned
  process_loop-headers_text [] f before n rounds _ =
      let (f', e, more) = last_rounds f rounds in
      let q = holding p before end_cr true in
      record {
        position = n + 0 + 1 + 1;
        result =
            rw (e, append-nil before)
              (process_round (suc (suc f')) fuel (holding p before header_key true) [] b'\r'
                  (b'\n' ∷ rest) n (empty_key_step fuel p before (b'\n' ∷ rest) n some_fuel) refl
                ∙ process_round (suc f') fuel q [] b'\r' (b'\n' ∷ rest) (n + 0)
                    (end_cr_step fuel q (b'\n' ∷ rest) (n + 0)) refl
                ∙ process_round f' fuel (record q { state = end_lf }) [] b'\n' rest (n + 0 + 1)
                    (end_lf_step fuel q rest (n + 0 + 1)) refl
                ∙ complete_round f' fuel p before rest (n + 0 + 1 + 1) more);
        count = omega arith;
      }
  process_loop-headers_text (h ∷ hs) f before n rounds (fits, all) =
      let (f', e, more) = split_rounds (length hs) f rounds in
      let lines = headers_text hs rest in
      let named =
        holding p (before ++ (record { name = h.name; value = [] } ∷ [])) header_value false in
      let valued = holding p (before ++ (h ∷ [])) header_cr false in
      let m = n + length h.name + 1 + 1 in
      let k = m + length h.value in
      let later = process_loop-headers_text hs f' (before ++ (h ∷ [])) (k + 1 + 1) more all in
      record {
        position = later.position;
        result =
            rw (e, sym (append_assoc before (h ∷ []) hs))
              (process_round (suc (suc (suc f'))) fuel (holding p before header_key true) h.name
                  b':' (b' ' ∷ (h.value ++ (b'\r' ∷ b'\n' ∷ lines))) n
                  (header_key_step fuel p h before (b'\n' ∷ lines) n fits) refl
                ∙ process_round (suc (suc f')) fuel named h.value b'\r' (b'\n' ∷ lines) m
                    (header_value_step fuel p h before (b'\n' ∷ lines) m fits) refl
                ∙ process_round (suc f') fuel valued [] b'\r' (b'\n' ∷ lines) k
                    (header_cr_step fuel valued (b'\n' ∷ lines) k) refl
                ∙ process_round f' fuel (record valued { state = header_lf }) [] b'\n' lines (k + 1)
                    (header_lf_step fuel valued lines (k + 1)) refl
                ∙ later.result);
        count =
            rw
              (
                later.count,
                length-append h.name (b':' ∷ b' ' ∷ (h.value ++ (b'\r' ∷ b'\n' ∷ lines))),
                length-append h.value (b'\r' ∷ b'\n' ∷ lines),
              )
              (omega arith);
      }
