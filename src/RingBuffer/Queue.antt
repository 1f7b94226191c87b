-- ===== src/RingBuffer/Queue.antt =====
-- The contract of include/txl/ring_buffer.h: a queue that keeps the latest `room` values.
use libtxl.Prelude.{ℕ, List, [], ◌∷◌, ◌++◌, if◌then◌else◌, ◌==◌, length, drop, take}
use libtxl.RingBuffer.Defs.{Reply, empty, value}

module _ {A : Type 0} where
  -- A full queue loses its oldest value.
  unfoldable pub push : ℕ → List A → A → List A
  push room q v = (if length q == room then drop 1 q else q) ++ (v ∷ [])

  -- What it loses
  unfoldable pub dropped : ℕ → List A → List A
  dropped room q = if length q == room then take 1 q else []

  unfoldable pub pop : List A → Reply A × List A
  pop [] = (empty, [])
  pop (x ∷ q) = (value x, q)
