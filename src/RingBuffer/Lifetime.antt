-- ===== src/RingBuffer/Lifetime.antt =====
-- Which values the ring of include/txl/ring_buffer.h destroys, and when: over a run of calls, at
-- `clear` and the destructor.
use libtxl.Prelude.{
  ℕ, zero, suc, ◌-◌, ◌≤◌, ◌<◌, ◌≡◌, List, [], ◌∷◌, ◌++◌, none, some, ◌==◌, ==_iff, false, length,
  set, refl, sym, ap, ◌∙◌, ◌↔◌, length-set, arith, take, map, append-nil, append_assoc, get_or,
  Bool-cases, inl, inr, if◌then◌else◌,
}
use mathlib.Core.Path.{subst}
use mathlib.Core.List.{map-append}
use native.Mathlib.Decide.{ℕ_discrete}
use libtxl.RingBuffer.Defs.{Ring, advance, clear_loop, clear, read, emplace}
use libtxl.RingBuffer.Inv.{dist, advance-lt, dist-advance, dist_self, IsRing, Holds-set, eq_of_dist}
use libtxl.RingBuffer.Queue
use libtxl.RingBuffer.Refine.{
  emplace-IsRing, emplace_room, emplace_full, read-pop, full_iff, dist_round,
}
use libtxl.RingBuffer.Run.{
  run_refines, Op, put, get, run, run_queue, run_dropped, cap-emplace, cap-read,
}

module _ {A : Type 0} where
  -- What the rounds of `clear` leave behind: an empty ring, and one destructor call for
  -- each value, in order.
  record Cleared (r r' : Ring A) (q : List A) : Type 0 where
    ring : IsRing r' []
    all_destroyed : r'.destroyed ≡ r.destroyed ++ map some q

  advanced-IsRing :
      {r : Ring A} (x : A) (q : List A)
      → IsRing r (x ∷ q)
      → IsRing
          (record r {
            slots = set r.slots r.head none;
            destroyed = r.destroyed ++ (get_or r.slots r.head none ∷ []);
            head = advance r.cap r.head;
          })
          q
  advanced-IsRing {r} x q i = record {
    two_slots = i.two_slots;
    small = i.small;
    memory = omega (arith, length-set r.slots r.head none, i);
    head_in = next_in;
    tail_in = i.tail_in;
    counted = one_less;
    holds =
        Holds-set r.slots r.cap (advance r.cap r.head) r.head none q i.small next_in i.head_in
          (omega (arith, i.counted, dist_lt, dist_round r.cap r.head i.two_slots i.small i.head_in))
          i.holds.1;
  }
    where
      next_in : advance r.cap r.head < r.cap
      next_in = advance-lt r.cap r.head i.small i.head_in

      dist_lt : dist r.cap r.head r.tail < r.cap
      dist_lt = ground (arith, i.head_in, i.tail_in)

      one_less : length q ≡ dist r.cap (advance r.cap r.head) r.tail
      one_less = omega (
        arith,
        i.counted,
        dist-advance r.cap r.head r.tail i.small i.head_in i.tail_in (omega (arith, i.counted)),
      )

  clear_loop-Cleared :
      (f : ℕ) (q : List A) {r : Ring A} → length q ≤ f → IsRing r q → Cleared r (clear_loop f r) q
  unfolding clear_loop
  clear_loop-Cleared zero [] {r} h i = record {
    ring = i;
    all_destroyed = sym (append-nil r.destroyed);
  }
  clear_loop-Cleared zero (x ∷ q) h i = absurd (omega arith)
  clear_loop-Cleared (suc f) [] {r} h i =
      rw ((==_iff r.head r.tail).1 same)
        (record { ring = i; all_destroyed = sym (append-nil r.destroyed) })
    where
      same : r.head ≡ r.tail
      same = eq_of_dist r.cap r.head r.tail i.head_in i.tail_in (sym i.counted)
  clear_loop-Cleared (suc f) (x ∷ q) {r} h i =
      let later = clear_loop-Cleared f q (omega arith) (advanced-IsRing x q i) in
      rw differ (record {
        ring = later.ring;
        all_destroyed =
            later.all_destroyed
            ∙ append_assoc r.destroyed (get_or r.slots r.head none ∷ []) (map some q)
            ∙ ap (λ o. r.destroyed ++ (o ∷ map some q)) i.holds.0;
      })
    where
      differ : (r.head == r.tail) ≡ false
      differ = ground (arith, i.counted, dist_self r.cap r.head)

  length-lt-cap : {r : Ring A} (q : List A) → IsRing r q → length q < r.cap
  length-lt-cap {r} q i = rw i.counted (ground (arith, i.head_in, i.tail_in))

  -- `clear` ends with an empty ring, and has destroyed each value that the ring held, once and in
  -- order.
  pub clear-IsRing :
      {r : Ring A} (q : List A)
      → IsRing r q
      → IsRing (clear r) [] × ((clear r).destroyed ≡ r.destroyed ++ map some q)
  unfolding clear
  clear-IsRing {r} q i =
      let c = clear_loop-Cleared r.cap q (omega (arith, length-lt-cap q i)) i in
      (c.ring, c.all_destroyed)

  emplace-dropped :
      {r : Ring A} (q : List A) (v : A)
      → IsRing r q
      → (emplace r v).destroyed ≡ r.destroyed ++ map some (Queue.dropped (r.cap - 1) q)
  unfolding Queue.dropped
  emplace-dropped {r} q v i = elim (ℕ_discrete r.head (advance r.cap r.tail)) [
    | yes e ↦ ap (λ s. s.destroyed) (emplace_full r v i.small i.tail_in e) ∙ at_full q e i
    | no ne ↦
        ap (λ s. s.destroyed) (emplace_room r v i.small i.tail_in ne)
        ∙ elim (Bool-cases (length q == r.cap - 1)) [
          | inl b ↦ absurd (ne (full.0 (sym i.counted ∙ (==_iff _ _).0 b)))
          | inr b ↦ rw b (sym (append-nil r.destroyed))
        ]
  ]
    where
      full : (dist r.cap r.head r.tail ≡ r.cap - 1) ↔ (r.head ≡ advance r.cap r.tail)
      full = full_iff r.cap r.head r.tail i.small i.head_in i.tail_in

      at_full :
          (p : List A)
          → r.head ≡ advance r.cap r.tail
          → IsRing r p
          → r.destroyed ++ (get_or r.slots r.head none ∷ [])
            ≡ r.destroyed ++ map some (if length p == r.cap - 1 then take 1 p else [])
      at_full [] e j = absurd (omega (arith, j.counted, full.1 e, j))
      at_full (x ∷ p) e j =
          rw ((==_iff (suc (length p)) (r.cap - 1)).1 (j.counted ∙ full.1 e))
            (ap (λ o. r.destroyed ++ (o ∷ [])) j.holds.0)

  read_destroys_none : (r : Ring A) → (read r).1.destroyed ≡ r.destroyed
  unfolding read
  read_destroys_none r = ground arith

  destroyed-run_at :
      (ops : List (Op A)) (q : List A) (c : ℕ) {r : Ring A}
      → r.cap ≡ c
      → IsRing r q
      → (run r ops).1.destroyed ≡ r.destroyed ++ map some (run_dropped (c - 1) q ops)
  unfolding run run_dropped
  destroyed-run_at [] q c {r} e i = sym (append-nil r.destroyed)
  destroyed-run_at (put v ∷ ops) q c {r} e i =
      let lost = Queue.dropped (c - 1) q in
      let later = run_dropped (c - 1) (Queue.push (c - 1) q v) ops in
      destroyed-run_at ops (Queue.push (c - 1) q v) c (cap-emplace r v ∙ e)
        (subst (λ k. IsRing (emplace r v) (Queue.push (k - 1) q v)) e (emplace-IsRing q v i))
      ∙ ap (λ d. d ++ map some later)
          (subst (λ k. (emplace r v).destroyed ≡ r.destroyed ++ map some (Queue.dropped (k - 1) q))
            e (emplace-dropped q v i))
      ∙ append_assoc r.destroyed (map some lost) (map some later)
      ∙ ap (λ d. r.destroyed ++ d) (sym (map-append some lost later))
  destroyed-run_at (get ∷ ops) q c {r} e i =
      let (same, i') = read-pop q i in
      destroyed-run_at ops (Queue.pop q).1 c (cap-read r ∙ e) i'
      ∙ ap (λ d. d ++ map some (run_dropped (c - 1) (Queue.pop q).1 ops)) (read_destroys_none r)

  -- On a ring of at least two slots that holds `q`, any sequence of `emplace` and `read`, and then
  -- `clear`: the slots destroyed since then held, in this order, the values that the queue which keeps
  -- its latest `cap - 1` values loses in the sequence, and then those that it holds at the end. So
  -- each of these is destroyed once, and no slot while it is left as a `read` moved its value out.
  pub destroyed-clear-run :
      {r : Ring A} {q : List A} (ops : List (Op A))
      → IsRing r q
      → (clear (run r ops).1).destroyed
        ≡ r.destroyed ++ map some (run_dropped (r.cap - 1) q ops ++ (run_queue (r.cap - 1) q ops).1)
  destroyed-clear-run {r} {q} ops i =
      let (same, j) = run_refines ops i in
      let lost = run_dropped (r.cap - 1) q ops in
      let held = (run_queue (r.cap - 1) q ops).1 in
      (clear-IsRing held j).1
      ∙ ap (λ d. d ++ map some held) (destroyed-run_at ops q r.cap refl i)
      ∙ append_assoc r.destroyed (map some lost) (map some held)
      ∙ ap (λ d. r.destroyed ++ d) (sym (map-append some lost held))
