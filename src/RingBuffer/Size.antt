-- ===== src/RingBuffer/Size.antt =====
-- `size`, the constructor and the destructor of include/txl/ring_buffer.h.
use Prim.Native.Nat.{bit_and}
use libtxl.Prelude.{
  ℕ, ◌-◌, ◌*◌, ◌≤◌, ◌<◌, ◌≡◌, ◌≢◌, ◌^◌, List, [], ◌∷◌, ◌++◌, length, arith, ==_iff, ltb,
  if◌then◌else◌, Option, none, some, Bool-cases, inl, inr, ◌==◌, get_or-take, take, length-take,
  map, refl, ◌∙◌, ap,
}
use mathlib.Core.Path.{subst}
use libtxl.RingBuffer.Defs.{
  Ring, size, reopen, close, destruct_on_close, preserve_values, no_initialize, mapped_slots,
  advance,
}
use libtxl.RingBuffer.Inv.{IsRing, Holds, advance-lt}
use libtxl.RingBuffer.Lifetime.{clear-IsRing}
use libtxl.RingBuffer.Run.{Op, run, run_queue, run_refines, constants_kept}

module _ {A : Type 0} where
  -- On a ring that holds `q`, `size` is the number of its values unless the tail stands in a slot
  -- before the head; then it is `2 * cap - 1` less that number.
  size_lem :
      {r : Ring A} {q : List A}
      → IsRing r q
      → size r ≡ (if ltb r.tail r.head then 2 * r.cap - 1 - length q else length q)
  unfolding size
  size_lem {r} {q} i = ground (arith, i.counted, i)

  -- A ring that is opened without `no_initialize`, with 2 slots or more that lie in the memory and in
  -- the mapping, holds nothing.
  pub opened-IsRing :
      (m : Ring A) (header_size value_size capacity flags : ℕ)
      → 2 ≤ capacity
      → capacity ≤ 2 ^ 63
      → capacity ≤ length m.slots
      → capacity ≤ mapped_slots header_size value_size capacity
      → bit_and flags no_initialize ≢ no_initialize
      → IsRing (reopen header_size value_size m capacity flags) []
  unfolding reopen
  opened-IsRing m header_size value_size capacity flags two small enough mapped ne =
      elim (Bool-cases (bit_and flags no_initialize == no_initialize)) [
        | inl e ↦ absurd (ne ((==_iff _ _).0 e))
        | inr e ↦ rw e (record {
          two_slots = two;
          small = small;
          memory =
              omega (arith, length-take (mapped_slots header_size value_size capacity) m.slots);
          head_in = omega arith;
          tail_in = omega arith;
          counted = ground arith;
          holds = tt;
        })
      ]

  preserved : (r : Ring A) → bit_and r.flags preserve_values ≡ preserve_values → close r ≡ r
  unfolding close destruct_on_close
  preserved r e = rw ((==_iff _ _).1 e)

  -- The values of a ring lie in its first `cap` slots.
  Holds-take :
      (n : ℕ) (slots : List (Option A)) (c h : ℕ) (q : List A)
      → c ≤ 2 ^ 63
      → c ≤ n
      → h < c
      → Holds slots c h q
      → Holds (take n slots) c h q
  Holds-take n slots c h [] small enough below hs = tt
  Holds-take n slots c h (x ∷ q) small enough below (same, hs) = (
    get_or-take n h slots none (omega arith) ∙ same,
    Holds-take n slots c (advance c h) q small enough (advance-lt c h small below) hs,
  )

  -- A ring that is mapped again under `no_initialize`, with at least its slots, holds what it held.
  reopen-IsRing :
      {r : Ring A} {q : List A} (header_size value_size capacity flags : ℕ)
      → IsRing r q
      → r.cap ≤ mapped_slots header_size value_size capacity
      → bit_and flags no_initialize ≡ no_initialize
      → IsRing (reopen header_size value_size r capacity flags) q
  unfolding reopen
  reopen-IsRing {r} {q} header_size value_size capacity flags i enough old =
      let n = mapped_slots header_size value_size capacity in
      rw ((==_iff _ _).1 old) (record {
        two_slots = i.two_slots;
        small = i.small;
        memory = omega (arith, length-take n r.slots, i.memory, enough);
        head_in = i.head_in;
        tail_in = i.tail_in;
        counted = i.counted;
        holds = Holds-take n r.slots r.cap r.head q i.small enough i.head_in i.holds;
      })

  reopen-cap :
      (r : Ring A) (header_size value_size capacity flags : ℕ)
      → bit_and flags no_initialize ≡ no_initialize
      → (reopen header_size value_size r capacity flags).cap ≡ r.cap
  unfolding reopen
  reopen-cap r header_size value_size capacity flags old = rw ((==_iff _ _).1 old) refl

  -- A ring of at least two slots that holds `q` runs any sequence of `emplace` and `read`, is closed
  -- under `preserve_values`, and its memory is mapped again under `no_initialize`, with a mapping that
  -- has room for the slots of the ring. Then the replies of any further sequence are those of the
  -- queue `q` that keeps its latest `cap - 1` values after both sequences, and the ring holds it at
  -- the end.
  pub run-reopen-run :
      {r : Ring A} {q : List A} (before after : List (Op A))
      (header_size value_size capacity flags : ℕ)
      → IsRing r q
      → bit_and r.flags preserve_values ≡ preserve_values
      → bit_and flags no_initialize ≡ no_initialize
      → r.cap ≤ mapped_slots header_size value_size capacity
      → let again = reopen header_size value_size (close (run r before).1) capacity flags in
        let queue = (run_queue (r.cap - 1) q before).1 in
        ((run again after).0 ≡ (run_queue (r.cap - 1) queue after).0)
        × IsRing (run again after).1 (run_queue (r.cap - 1) queue after).1
  run-reopen-run {r} {q} before after header_size value_size capacity flags i keep old enough =
      let s = (run r before).1 in
      let queue = (run_queue (r.cap - 1) q before).1 in
      let (c, f) = constants_kept before r in
      let closed : close s ≡ s = preserved s (ap (λ k. bit_and k preserve_values) f ∙ keep) in
      let ring =
        reopen-IsRing header_size value_size capacity flags (run_refines before i).1
          (omega (arith, c, enough)) old in
      let cap_kept : (reopen header_size value_size s capacity flags).cap ≡ r.cap =
        reopen-cap s header_size value_size capacity flags old ∙ c in
      rw closed (
        subst
          (λ k.
            ((run (reopen header_size value_size s capacity flags) after).0
              ≡ (run_queue (k - 1) queue after).0)
            × IsRing (run (reopen header_size value_size s capacity flags) after).1
                (run_queue (k - 1) queue after).1)
          cap_kept (run_refines after ring))

  -- Without `preserve_values` the destructor destroys every value that the ring holds, in order.
  pub close-IsRing :
      {r : Ring A} {q : List A}
      → IsRing r q
      → bit_and r.flags preserve_values ≢ preserve_values
      → IsRing (close r) [] × ((close r).destroyed ≡ r.destroyed ++ map some q)
  unfolding close destruct_on_close
  close-IsRing {r} {q} i ne =
      elim (Bool-cases (bit_and r.flags preserve_values == preserve_values)) [
        | inl e ↦ absurd (ne ((==_iff _ _).0 e))
        | inr e ↦ rw e (clear-IsRing q i)
      ]
