-- ===== src/RingBuffer/Refine.antt =====
-- A ring behaves as the queue of its latest values.
use native.Mathlib.Nat.{mod-eq_of_lt, mod_self}
use native.Mathlib.Decide.{dec_lt, ℕ_discrete}
use libtxl.Prelude.{
  ℕ, suc, ◌+◌, ◌-◌, ◌%◌, ◌≤◌, ◌<◌, ◌≡◌, ◌≢◌, Option, none, some, List, [], ◌∷◌, ◌++◌, size_mod,
  arith, length, set, get_or, get_or-set_self, length-set, length-append, if◌then◌else◌, ◌==◌, ◌^◌,
  refl, sym, ◌∙◌, ◌↔◌, Bool-cases, inl, inr, ==_iff, false, drop,
}
use libtxl.RingBuffer.Defs.{Ring, advance, read, emplace, drop_oldest, place, push_head, move_slot}
use libtxl.RingBuffer.Inv.{
  dist, advance-lt, dist-advance, dist_self, IsRing, Holds-set, Holds-append, eq_of_dist,
}
use libtxl.RingBuffer.Queue

-- The code's `(tail() + 1) % capacity()` is the slot after the tail.
pub mod-eq-advance : (c i : ℕ) → c ≤ 2 ^ 63 → i < c → (i + 1) % size_mod % c ≡ advance c i
unfolding advance
mod-eq-advance c i s p = elim (dec_lt (i + 1) c) [
  | yes h ↦ ground (arith, mod-eq_of_lt {n = i + 1} {m = c} h)
  | no h ↦ ground (arith, mod_self c)
]

pub dist_round : (c h : ℕ) → 2 ≤ c → c ≤ 2 ^ 63 → h < c → dist c (advance c h) h ≡ c - 1
unfolding advance
dist_round c h t s p = ground arith

-- The ring is full when the slot after the tail is the head.
pub full_iff : (c h t : ℕ) → c ≤ 2 ^ 63 → h < c → t < c → (dist c h t ≡ c - 1) ↔ (h ≡ advance c t)
unfolding advance
full_iff c h t s p q = (λ e. ground arith, λ e. ground arith)

dist-advance_right :
    (c h t : ℕ)
    → c ≤ 2 ^ 63
    → h < c
    → t < c
    → h ≢ advance c t
    → dist c h (advance c t) ≡ dist c h t + 1
unfolding advance
dist-advance_right c h t s p q ne = ground arith

module _ {A : Type 0} where
  abbrev pub emplaced : Ring A → List (Option A) → ℕ → List (Option A) → A → Ring A
  emplaced r slots h d v = record r {
    slots = set slots r.tail (some v);
    head = h;
    tail = advance r.cap r.tail;
    destroyed = d;
  }

  -- `emplace` into a ring with room writes the tail's slot.
  pub emplace_room :
      (r : Ring A) (v : A)
      → r.cap ≤ 2 ^ 63
      → r.tail < r.cap
      → r.head ≢ advance r.cap r.tail
      → emplace r v ≡ emplaced r r.slots r.head r.destroyed v
  unfolding emplace drop_oldest place push_head
  emplace_room r v s p ne = ground (arith, mod-eq-advance r.cap r.tail s p)

  -- `emplace` into a full ring also destroys the oldest value and moves the head.
  pub emplace_full :
      (r : Ring A) (v : A)
      → r.cap ≤ 2 ^ 63
      → r.tail < r.cap
      → r.head ≡ advance r.cap r.tail
      → emplace r v
        ≡ emplaced r
            (set r.slots r.head none)
            (advance r.cap r.head)
            (r.destroyed ++ (get_or r.slots r.head none ∷ []))
            v
  unfolding emplace drop_oldest place push_head
  emplace_full r v s p e = ground (arith, mod-eq-advance r.cap r.tail s p)

  push_room :
      {r : Ring A} {q : List A} (v : A)
      → IsRing r q
      → r.head ≢ advance r.cap r.tail
      → IsRing (emplaced r r.slots r.head r.destroyed v) (q ++ (v ∷ []))
  push_room {r} {q} v i ne = record {
    two_slots = i.two_slots;
    small = i.small;
    memory = omega (arith, length-set r.slots r.tail (some v), i);
    head_in = i.head_in;
    tail_in = advance-lt r.cap r.tail i.small i.tail_in;
    counted = omega (
      arith,
      i.counted,
      length-append q (v ∷ []),
      dist-advance_right r.cap r.head r.tail i.small i.head_in i.tail_in ne,
    );
    holds =
        Holds-append (set r.slots r.tail (some v)) r.cap r.head r.tail v q i.small i.head_in
          i.tail_in i.counted (get_or-set_self r.slots r.tail (some v) none (omega (arith, i)))
          (Holds-set r.slots r.cap r.head r.tail (some v) q i.small i.head_in i.tail_in
            (omega (arith, i.counted)) i.holds);
  }

  push_full :
      {r : Ring A} (x : A) (q : List A) (v : A) (d : List (Option A))
      → IsRing r (x ∷ q)
      → r.head ≡ advance r.cap r.tail
      → IsRing (emplaced r (set r.slots r.head none) (advance r.cap r.head) d v) (q ++ (v ∷ []))
  push_full {r} x q v d i e = record {
    two_slots = i.two_slots;
    small = i.small;
    memory = omega (
      arith,
      length-set (set r.slots r.head none) r.tail (some v),
      length-set r.slots r.head none,
      i,
    );
    head_in = next_in;
    tail_in = advance-lt r.cap r.tail i.small i.tail_in;
    counted = rw (← e) (
        omega (
          arith,
          one_less,
          full,
          length-append q (v ∷ []),
          dist_round r.cap r.head i.two_slots i.small i.head_in,
        ));
    holds =
        Holds-append (set cleared r.tail (some v)) r.cap next r.tail v q i.small next_in i.tail_in
          one_less
          (get_or-set_self cleared r.tail (some v) none
            (omega (arith, length-set r.slots r.head none, i)))
          (Holds-set cleared r.cap next r.tail (some v) q i.small next_in i.tail_in
            (omega (arith, one_less))
            (Holds-set r.slots r.cap next r.head none q i.small next_in i.head_in
              (omega (arith, one_less, full, dist_round r.cap r.head i.two_slots i.small i.head_in))
              i.holds.1));
  }
    where
      next : ℕ
      next = advance r.cap r.head

      cleared : List (Option A)
      cleared = set r.slots r.head none

      next_in : next < r.cap
      next_in = advance-lt r.cap r.head i.small i.head_in

      full : dist r.cap r.head r.tail ≡ r.cap - 1
      full = (full_iff r.cap r.head r.tail i.small i.head_in i.tail_in).1 e

      one_less : length q ≡ dist r.cap next r.tail
      one_less = omega (
        arith,
        i.counted,
        dist-advance r.cap r.head r.tail i.small i.head_in i.tail_in (omega (arith, i.counted)),
      )

  -- `emplace` on a ring that holds `q` leaves one that holds `q` with the value behind it, less the
  -- oldest value if `q` filled all slots but one.
  pub emplace-IsRing :
      {r : Ring A} (q : List A) (v : A)
      → IsRing r q
      → IsRing (emplace r v) (Queue.push (r.cap - 1) q v)
  unfolding Queue.push
  emplace-IsRing {r} q v i = elim (ℕ_discrete r.head (advance r.cap r.tail)) [
    | yes e ↦ rw (emplace_full r v i.small i.tail_in e) (at_full q e i)
    | no ne ↦
        rw (emplace_room r v i.small i.tail_in ne) (elim (Bool-cases (length q == r.cap - 1)) [
          | inl b ↦ absurd (ne (full.0 (sym i.counted ∙ (==_iff _ _).0 b)))
          | inr b ↦ rw b (push_room v i ne)
        ])
  ]
    where
      full : (dist r.cap r.head r.tail ≡ r.cap - 1) ↔ (r.head ≡ advance r.cap r.tail)
      full = full_iff r.cap r.head r.tail i.small i.head_in i.tail_in

      at_full :
          (p : List A)
          → r.head ≡ advance r.cap r.tail
          → IsRing r p
          → IsRing
              (emplaced r
                (set r.slots r.head none)
                (advance r.cap r.head)
                (r.destroyed ++ (get_or r.slots r.head none ∷ []))
                v)
              ((if length p == r.cap - 1 then drop 1 p else p) ++ (v ∷ []))
      at_full [] e j = absurd (omega (arith, j.counted, full.1 e, j))
      at_full (x ∷ p) e j =
          rw ((==_iff (suc (length p)) (r.cap - 1)).1 (j.counted ∙ full.1 e))
            (push_full x p v (r.destroyed ++ (get_or r.slots r.head none ∷ [])) j e)

  -- `read` on a ring that holds `q` returns what popping `q` returns, and leaves the rest.
  pub read-pop :
      {r : Ring A} (q : List A)
      → IsRing r q
      → ((read r).0 ≡ (Queue.pop q).0) × IsRing (read r).1 (Queue.pop q).1
  unfolding read move_slot Queue.pop
  read-pop {r} [] i = rw ((==_iff r.head r.tail).1 same) (refl, i)
    where
      same : r.head ≡ r.tail
      same = eq_of_dist r.cap r.head r.tail i.head_in i.tail_in (sym i.counted)
  read-pop {r} (x ∷ q) i =
      rw (differ, i.holds.0, move_slot)
        (
          refl,
          record {
            two_slots = i.two_slots;
            small = i.small;
            memory = i.memory;
            head_in = advance-lt r.cap r.head i.small i.head_in;
            tail_in = i.tail_in;
            counted = omega (
              arith,
              i.counted,
              dist-advance r.cap r.head r.tail i.small i.head_in i.tail_in
                  (omega (arith, i.counted)),
            );
            holds = i.holds.1;
          },
        )
    where
      differ : (r.head == r.tail) ≡ false
      differ = ground (arith, i.counted, dist_self r.cap r.head)
