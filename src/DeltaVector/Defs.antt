-- ===== src/DeltaVector/Defs.antt =====
-- The operations of include/txl/delta_vector.h, with `Base` and `Value` an unsigned integer below
-- `base_mod` and `Delta` one below `delta_mod`.
use libtxl.Prelude.{ℕ, ◌+◌, ◌-◌, ◌%◌, List, [], ◌∷◌, ◌++◌, length}

pub record DeltaVector : Type 0 where
  pub base : ℕ
  pub last : ℕ
  pub deltas : List ℕ

module _ (base_mod delta_mod : ℕ) where
  unfoldable pub push_back_delta : DeltaVector → ℕ → DeltaVector
  push_back_delta d value = record d {
    last = (d.last + value) % base_mod;
    deltas = d.deltas ++ (value ∷ []);
  }

  -- `base - base` is 0.
  unfoldable pub delta_vector : ℕ → DeltaVector
  delta_vector base = push_back_delta (record { base = base; last = base; deltas = [] }) 0

  unfoldable pub clear : DeltaVector → DeltaVector
  clear d = push_back_delta (record d { last = d.base; deltas = [] }) 0

  -- The difference wraps in `Base`, and the cast keeps what fits in `Delta`.
  unfoldable pub push_back : DeltaVector → ℕ → DeltaVector
  push_back d value = push_back_delta d ((value + base_mod - d.last) % base_mod % delta_mod)

  -- `*it` and `++it` from `begin()` on to the end.
  unfoldable pub values_from : ℕ → List ℕ → List ℕ
  values_from last [] = []
  values_from last (delta ∷ deltas) =
      (last + delta) % base_mod ∷ values_from ((last + delta) % base_mod) deltas

  unfoldable pub values : DeltaVector → List ℕ
  values d = values_from d.base d.deltas

  unfoldable pub push_all : DeltaVector → List ℕ → DeltaVector
  push_all d [] = d
  push_all d (v ∷ vs) = push_all (push_back d v) vs

abbrev pub size : DeltaVector → ℕ
size d = length d.deltas
