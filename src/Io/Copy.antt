-- ===== src/Io/Copy.antt =====
-- The copy loop of include/txl/copy.h that stops at a character.
use libtxl.Prelude.{ℕ, zero, suc, ◌+◌, [], ◌∷◌, Option, none, some, if◌then◌else◌, ◌==◌, length}
use libtxl.Io.Defs.{Result, ok, err, Reader, Writer, read, write}

module _ {S W : Type 0} (rd : Reader S) (wr : Writer W) (ch : ℕ) where
  -- `copy_until`, `total` bytes read so far. Each round reads one character; `none` means that the
  -- fuel ran out.
  unfoldable pub copy_until_loop : ℕ → S → W → ℕ → Option (Result ℕ × S × W)
  copy_until_loop zero s w total = none
  copy_until_loop (suc f) s w total =
      let (got, s') = read rd s 1 in
      elim got [
        | err e ↦ some (err e, s', w)
        | ok [] ↦ some (ok total, s', w)
        | ok (c ∷ cs) ↦
            let total' = total + length (c ∷ cs) in
            let (put, w') = write wr w (c ∷ cs) in
            let rest : Option (Result ℕ × S × W) = elim put [
              | err e ↦ some (err e, s', w')
              | ok _ ↦ copy_until_loop f s' w' total'
            ] in
            if c == ch then some (ok total', s', w) else rest
      ]

  unfoldable pub copy_until : ℕ → S → W → Option (Result ℕ × S × W)
  copy_until fuel s w = copy_until_loop fuel s w 0
