-- ===== src/LinkedList/Freed.antt =====
-- The window of `pop_and_release_front` of include/txl/linked_list.h: the node may be gone before
-- its `next` is read.
use libtxl.Prelude.{ℕ, ◌≡◌, ◌≢◌, sym, ap, ◌∙◌, none, some}
use libtxl.LinkedList.Defs.{
  ValueNode, Shared, System, Pc, idle, pop_loaded, pop_read, popped, returning, update, write,
  swapped, top, tail, Move, load_pop, read_next, swap_pop, take_value, Step, step, Reach, here,
  next,
}
use libtxl.LinkedList.Frame.{update_self, update_ne}

module _ {A : Type 0} where
  step_at :
      (y : System A) (t : ℕ) {pc pc' : Pc A} {s : Shared A}
      → y.pcs t ≡ pc
      → Move y.shared pc pc' s
      → Step y (record { shared = s; pcs = update y.pcs t pc' })
  step_at y t {pc} {pc'} {s} e m = step t (rw (e) m)

  follow : {x y z : System A} → Reach x y → Reach y z → Reach x z
  follow r here = r
  follow r (next r' m) = next (follow r r') m

  -- A thread that runs a whole pop, with no thread in between, frees the first node.
  record Freed (y : System A) (u p : ℕ) : Type 0 where
    after : System A
    reach : Reach y after
    gone : after.shared.heap p ≡ none
    kept : (t : ℕ) → t ≢ u → after.pcs t ≡ y.pcs t

  pop_frees :
      (y : System A) (u p : ℕ) (n : ValueNode A)
      → y.pcs u ≡ idle
      → y.shared.head.ptr ≡ some p
      → y.shared.heap p ≡ some n
      → Freed y u p
  pop_frees y u p n at_rest first there =
      let s = y.shared in
      let c = s.head.ctr in
      let f1 = update y.pcs u (pop_loaded p c) in
      let f2 = update f1 u (pop_read p c n.next) in
      let f3 = update f2 u (popped p (top s.stack)) in
      let f4 = update f3 u (returning n.val (top s.stack)) in
      let s3 = swapped s n.next (tail s.stack) in
      let y1 : System A = record { shared = s; pcs = f1 } in
      let y2 : System A = record { shared = s; pcs = f2 } in
      let y3 : System A = record { shared = s3; pcs = f3 } in
      let y4 : System A = record { shared = write s3 p none; pcs = f4 } in
      let m1 : Step y y1 = step_at y u at_rest (load_pop p first) in
      let m2 : Step y1 y2 =
        step_at y1 u (update_self y.pcs u (pop_loaded p c)) (read_next p c n there) in
      let m3 : Step y2 y3 =
        step_at y2 u (update_self f1 u (pop_read p c n.next))
          (swap_pop p c n.next (ap (λ q. record { ptr = q; ctr = c }) first)) in
      let m4 : Step y3 y4 =
        step_at y3 u (update_self f2 u (popped p (top s.stack)))
          (take_value p (top s.stack) n there) in
      record {
        after = y4;
        reach = next (next (next (next here m1) m2) m3) m4;
        gone = update_self s.heap p none;
        kept = λ t ne.
            update_ne f3 u t _ ne
            ∙ update_ne f2 u t _ ne
            ∙ update_ne f1 u t _ ne
            ∙ update_ne y.pcs u t _ ne;
      }

  -- From every state with a first node and two idle threads, there are steps after which the one
  -- thread is about to read the `next` of that node and the node is no longer allocated.
  pub read_after_free :
      (y : System A) (t u p : ℕ) (n : ValueNode A)
      → t ≢ u
      → y.pcs t ≡ idle
      → y.pcs u ≡ idle
      → y.shared.head.ptr ≡ some p
      → y.shared.heap p ≡ some n
      → (z : System A) × Reach y z
        × (z.pcs t ≡ pop_loaded p y.shared.head.ctr)
        × (z.shared.heap p ≡ none)
  read_after_free y t u p n ne rest_t rest_u first there =
      let loaded = pop_loaded p y.shared.head.ctr in
      let y' : System A = record { shared = y.shared; pcs = update y.pcs t loaded } in
      let m : Step y y' = step_at y t rest_t (load_pop p first) in
      let f =
        pop_frees y' u p n (update_ne y.pcs t u loaded (λ e. ne (sym e)) ∙ rest_u) first there in
      (f.after, follow (next here m) f.reach, f.kept t ne ∙ update_self y.pcs t loaded, f.gone)
