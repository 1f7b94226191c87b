-- ===== src/RingBuffer/Run.antt =====
-- Runs of calls on a ring of include/txl/ring_buffer.h, against the queue of its latest values.
use libtxl.Prelude.{ℕ, ◌-◌, ◌≡◌, List, [], ◌∷◌, ◌++◌, refl, ap₂, ◌∙◌, arith}
use mathlib.Core.Path.{subst}
use libtxl.RingBuffer.Defs.{Ring, Reply, read, emplace, drop_oldest, place, push_head}
use libtxl.RingBuffer.Inv.{IsRing}
use libtxl.RingBuffer.Queue
use libtxl.RingBuffer.Refine.{emplace-IsRing, read-pop}

-- A client's calls.
pub data Op (A : Type 0) : Type 0 where
  put : A → Op A
  get : Op A

module _ {A : Type 0} where
  -- The calls in order, with the reply of each `read`.
  unfoldable pub run : Ring A → List (Op A) → List (Reply A) × Ring A
  run r [] = ([], r)
  run r (put v ∷ ops) = run (emplace r v) ops
  run r (get ∷ ops) =
      let (reply, r') = read r in let (replies, last) = run r' ops in (reply ∷ replies, last)

  -- The same calls on the queue of the latest `room` values.
  unfoldable pub run_queue : ℕ → List A → List (Op A) → List (Reply A) × List A
  unfolding Queue.push Queue.pop
  run_queue room q [] = ([], q)
  run_queue room q (put v ∷ ops) = run_queue room (Queue.push room q v) ops
  run_queue room q (get ∷ ops) =
      let (reply, q') = Queue.pop q in
      let (replies, last) = run_queue room q' ops in (reply ∷ replies, last)

  -- The values that the queue loses meanwhile
  unfoldable pub run_dropped : ℕ → List A → List (Op A) → List A
  unfolding Queue.push Queue.pop Queue.dropped
  run_dropped room q [] = []
  run_dropped room q (put v ∷ ops) =
      Queue.dropped room q ++ run_dropped room (Queue.push room q v) ops
  run_dropped room q (get ∷ ops) = run_dropped room (Queue.pop q).1 ops

  pub cap-emplace : (r : Ring A) (v : A) → (emplace r v).cap ≡ r.cap
  unfolding emplace drop_oldest place push_head
  cap-emplace r v = ground arith

  pub cap-read : (r : Ring A) → (read r).1.cap ≡ r.cap
  unfolding read
  cap-read r = ground arith

  pub flags-emplace : (r : Ring A) (v : A) → (emplace r v).flags ≡ r.flags
  unfolding emplace drop_oldest place push_head
  flags-emplace r v = ground arith

  pub flags-read : (r : Ring A) → (read r).1.flags ≡ r.flags
  unfolding read
  flags-read r = ground arith

  -- A run changes neither the capacity nor the flags.
  pub constants_kept :
      (ops : List (Op A)) (r : Ring A)
      → ((run r ops).1.cap ≡ r.cap) × ((run r ops).1.flags ≡ r.flags)
  unfolding run
  constants_kept [] r = (refl, refl)
  constants_kept (put v ∷ ops) r =
      let (c, f) = constants_kept ops (emplace r v) in (c ∙ cap-emplace r v, f ∙ flags-emplace r v)
  constants_kept (get ∷ ops) r =
      let (c, f) = constants_kept ops (read r).1 in (c ∙ cap-read r, f ∙ flags-read r)

  run_simulates :
      (ops : List (Op A)) (c : ℕ) {r : Ring A} {q : List A}
      → r.cap ≡ c
      → IsRing r q
      → ((run r ops).0 ≡ (run_queue (c - 1) q ops).0)
        × IsRing (run r ops).1 (run_queue (c - 1) q ops).1
  unfolding run run_queue
  run_simulates [] c e i = (refl, i)
  run_simulates (put v ∷ ops) c {r} {q} e i =
      run_simulates ops c (cap-emplace r v ∙ e)
        (subst (λ k. IsRing (emplace r v) (Queue.push (k - 1) q v)) e (emplace-IsRing q v i))
  run_simulates (get ∷ ops) c {r} {q} e i =
      let (same, i') = read-pop q i in
      let (h, k) = run_simulates ops c (cap-read r ∙ e) i' in (ap₂ ◌∷◌ same h, k)

  -- On a ring of at least two slots that holds `q`, any sequence of `emplace` and `read` has the
  -- same replies as on the queue `q` that keeps its latest `cap - 1` values: each `read` has the same
  -- reply, and the ring holds the queue at the end. The other calls, `size` among them, are not part
  -- of the sequence.
  pub run_refines :
      {r : Ring A} {q : List A} (ops : List (Op A))
      → IsRing r q
      → ((run r ops).0 ≡ (run_queue (r.cap - 1) q ops).0)
        × IsRing (run r ops).1 (run_queue (r.cap - 1) q ops).1
  run_refines {r} ops i = run_simulates ops r.cap refl i
