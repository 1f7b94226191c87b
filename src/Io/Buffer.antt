-- ===== src/Io/Buffer.antt =====
-- What `copy_until` does when it reads from an `io_buffer`.
use libtxl.Prelude.{ℕ, zero, suc, ◌+◌, ◌<◌, Bytes, [], ◌∷◌, ◌++◌, some, ◌≡◌, ◌≢◌, arith, length}
use libtxl.Io.Defs.{ok, read, write, buffer_reader, lambda_writer}
use libtxl.Io.Copy.{copy_until_loop}

-- `b` does not occur in the text.
abbrev pub Lacks : ℕ → Bytes → Type 0
Lacks b [] = Unit
Lacks b (c ∷ cs) = (c ≢ b) × Lacks b cs

-- The callback on each character of a text, one call for each.
abbrev pub each : {W : Type 0} → (W → Bytes → W) → W → Bytes → W
each on w [] = w
each on w (c ∷ cs) = each on (on w (c ∷ [])) cs

module _ {W : Type 0} (on : W → Bytes → W) (ch : ℕ) where
  -- Up to the first `ch`, every character goes to the callback; `ch` is read and dropped.
  pub copy_until-hit :
      (text rest : Bytes) (f : ℕ) (w : W) (total : ℕ)
      → Lacks ch text
      → length text < f
      → copy_until_loop buffer_reader (lambda_writer on) ch f (text ++ (ch ∷ rest)) w total
        ≡ some (ok (total + (length text + 1)), rest, each on w text)
  unfolding copy_until_loop read write
  copy_until-hit [] rest zero w total l h = absurd (omega arith)
  copy_until-hit [] rest (suc f) w total l h = ground arith
  copy_until-hit (c ∷ cs) rest zero w total l h = absurd (omega arith)
  copy_until-hit (c ∷ cs) rest (suc f) w total l h =
      ground (arith, copy_until-hit cs rest f (on w (c ∷ [])) (total + 1) l.1)

  -- A buffer with no `ch` in it is read to its end.
  pub copy_until-end :
      (text : Bytes) (f : ℕ) (w : W) (total : ℕ)
      → Lacks ch text
      → length text < f
      → copy_until_loop buffer_reader (lambda_writer on) ch f text w total
        ≡ some (ok (total + length text), [], each on w text)
  unfolding copy_until_loop read write
  copy_until-end [] zero w total l h = absurd (omega arith)
  copy_until-end [] (suc f) w total l h = ground arith
  copy_until-end (c ∷ cs) zero w total l h = absurd (omega arith)
  copy_until-end (c ∷ cs) (suc f) w total l h =
      ground (arith, copy_until-end cs f (on w (c ∷ [])) (total + 1) l.1)
