-- ===== src/LinkedList/Preserve.antt =====
-- Every step of every thread of include/txl/linked_list.h keeps the invariant.
use libtxl.Prelude.{ℕ, ◌≤◌, ◌<◌, refl, inl, inr, arith, size_mod}
use libtxl.LinkedList.Defs.{
  Shared, System, Pc, idle, pushing, push_loaded, pop_loaded, pop_read, release_loaded, reset_pops,
  releasing, Move, allocate, load_push, swap_push, count_insert, fail_push, load_empty, load_pop,
  read_next, read_freed, swap_pop, fail_pop, take_value, count_pop, load_release, swap_release,
  fail_release, clear_inserts, clear_pops, visit, finish, Step, step, Reach, here, next, initial,
}
use libtxl.LinkedList.Frame.{Owner, nobody, update_self, update_ne, Ok, Ok-carried}
use libtxl.LinkedList.Invariant.{Agrees, Inv, IsMoved, same_or, quiet-IsMoved}
use libtxl.LinkedList.Moves.{allocate-IsMoved, load_push-IsMoved, take_value-IsMoved, visit-IsMoved}
use libtxl.LinkedList.Exchanges.{
  load_pop-Ok, read_next-Ok, read_freed-Ok, swap_push-IsMoved, swap_release-IsMoved,
  swap_pop-IsMoved,
}

module _ {A : Type 0} (s : Shared A) (owner : ℕ → Owner) (t : ℕ) (agrees : Agrees s owner) where
  fail_push-IsMoved :
      (n : ℕ) (v : A) (p : _) → Ok s owner t (push_loaded n v p) → IsMoved s s owner t (pushing n v)
  fail_push-IsMoved n v h (mine, there) =
      quiet-IsMoved s s.num_inserts s.num_pops owner t (pushing n v) agrees
        (mine, record { after = h.ptr; is_there = there })

  pub move-IsMoved :
      {pc pc' : Pc A} {s' : Shared A}
      → Move s pc pc' s'
      → s'.swaps < size_mod
      → Ok s owner t pc
      → IsMoved s s' owner t pc'
  move-IsMoved (allocate n v e) b ok = allocate-IsMoved s owner t agrees n v e
  move-IsMoved (load_push n v) b ok = load_push-IsMoved s owner t agrees n v ok
  move-IsMoved (swap_push n v h e) b ok = swap_push-IsMoved s owner t agrees n v h e b ok
  move-IsMoved count_insert b ok = quiet-IsMoved s _ s.num_pops owner t idle agrees tt
  move-IsMoved (fail_push n v h) b ok = fail_push-IsMoved n v h ok
  move-IsMoved (load_empty e) b ok = quiet-IsMoved s s.num_inserts s.num_pops owner t idle agrees tt
  move-IsMoved (load_pop p e) b ok =
      quiet-IsMoved s s.num_inserts s.num_pops owner t (pop_loaded p s.head.ctr) agrees
        (load_pop-Ok s owner t agrees p e)
  move-IsMoved (read_next p c n e) b ok =
      quiet-IsMoved s s.num_inserts s.num_pops owner t (pop_read p c n.next) agrees
        (read_next-Ok s owner t agrees p c n e ok)
  move-IsMoved (read_freed p c after e) b ok =
      quiet-IsMoved s s.num_inserts s.num_pops owner t (pop_read p c after) agrees
        (read_freed-Ok s owner t agrees p c after e ok)
  move-IsMoved (swap_pop p c after e) b ok = swap_pop-IsMoved s owner t agrees p c after e b ok
  move-IsMoved (fail_pop p c after) b ok =
      quiet-IsMoved s s.num_inserts s.num_pops owner t idle agrees tt
  move-IsMoved (take_value p taken n e) b ok = take_value-IsMoved s owner t agrees p taken n e ok
  move-IsMoved (count_pop res taken) b ok = quiet-IsMoved s s.num_inserts _ owner t idle agrees tt
  move-IsMoved load_release b ok =
      quiet-IsMoved s s.num_inserts s.num_pops owner t (release_loaded s.head) agrees tt
  move-IsMoved (swap_release h e) b ok = swap_release-IsMoved s owner t agrees h e b
  move-IsMoved (fail_release h) b ok =
      quiet-IsMoved s s.num_inserts s.num_pops owner t idle agrees tt
  move-IsMoved (clear_inserts p left) b ok =
      quiet-IsMoved s 0 s.num_pops owner t (reset_pops p left) agrees ok
  move-IsMoved (clear_pops p left) b ok =
      quiet-IsMoved s s.num_inserts 0 owner t (releasing p left) agrees ok
  move-IsMoved (visit p left n e) b ok = visit-IsMoved s owner t agrees p left n e ok
  move-IsMoved (finish left) b ok = quiet-IsMoved s s.num_inserts s.num_pops owner t idle agrees tt

swaps_grow : {A : Type 0} {s s' : Shared A} {pc pc' : Pc A} → Move s pc pc' s' → s.swaps ≤ s'.swaps
swaps_grow (allocate n v e) = omega arith
swaps_grow (load_push n v) = omega arith
swaps_grow (swap_push n v h e) = omega arith
swaps_grow count_insert = omega arith
swaps_grow (fail_push n v h) = omega arith
swaps_grow (load_empty e) = omega arith
swaps_grow (load_pop p e) = omega arith
swaps_grow (read_next p c n e) = omega arith
swaps_grow (read_freed p c after e) = omega arith
swaps_grow (swap_pop p c after e) = omega arith
swaps_grow (fail_pop p c after) = omega arith
swaps_grow (take_value p taken n e) = omega arith
swaps_grow (count_pop res taken) = omega arith
swaps_grow load_release = omega arith
swaps_grow (swap_release h e) = omega arith
swaps_grow (fail_release h) = omega arith
swaps_grow (clear_inserts p left) = omega arith
swaps_grow (clear_pops p left) = omega arith
swaps_grow (visit p left n e) = omega arith
swaps_grow (finish left) = omega arith

pub Step-Inv : {A : Type 0} (y z : System A) → Step y z → z.shared.swaps < size_mod → Inv y → Inv z
Step-Inv y z (step t {pc} {s} m) b inv =
    let moved = move-IsMoved y.shared inv.owner t inv.agrees m b (inv.threads t) in
    record {
      owner = moved.owner';
      agrees = moved.agrees;
      threads = λ u. elim (same_or u t) [
        | inl same ↦ rw (same, update_self y.pcs t pc) moved.own
        | inr ne ↦ rw (update_ne y.pcs t u pc ne) (
            Ok-carried y.shared s inv.owner moved.owner' u (y.pcs u) (moved.others u ne)
              (inv.threads u))
      ];
    }

initial-Inv : {A : Type 0} → Inv (initial {A = A})
initial-Inv = record {
  owner = λ a. nobody;
  agrees = record { chain = refl; current = refl; unowned = λ a e. refl };
  threads = λ t. tt;
}

Step_grow : {A : Type 0} {y z : System A} → Step y z → y.shared.swaps ≤ z.shared.swaps
Step_grow (step t m) = swaps_grow m

pub Reach-Inv : {A : Type 0} (y : System A) → Reach initial y → y.shared.swaps < size_mod → Inv y
Reach-Inv y here b = initial-Inv
Reach-Inv y (next {z} r m) b =
    let g = Step_grow m in Step-Inv z y m b (Reach-Inv z r (omega (arith, g, b)))
