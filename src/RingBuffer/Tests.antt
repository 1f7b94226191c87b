-- ===== src/RingBuffer/Tests.antt =====
-- The ring buffer at concrete inputs.
use libtxl.Prelude.{ℕ, ◌≡◌, List, [], ◌∷◌, ◌++◌, map, some, none, refl, arith}
use libtxl.RingBuffer.Defs.{
  Ring, empty, value, size, clear, clear_loop, close, reopen, emplace, read, advance, drop_oldest,
  place, push_head, move_slot, mapped_slots,
}
use libtxl.RingBuffer.Inv.{IsRing}
use libtxl.RingBuffer.Run.{Op, put, get, run, run_queue, run_dropped, run_refines}
use libtxl.RingBuffer.Lifetime.{destroyed-clear-run}
use libtxl.RingBuffer.Size.{run-reopen-run}

-- Capacity 4, the values 8, 9 going round the end.
abbrev wrapped : Ring ℕ
wrapped = record {
  cap = 4;
  head = 3;
  tail = 1;
  slots = some 9 ∷ none ∷ none ∷ some 8 ∷ [];
  flags = 0;
  destroyed = some 7 ∷ [];
}

abbrev script : List (Op ℕ)
script = put 4 ∷ put 5 ∷ get ∷ get ∷ get ∷ get ∷ []

wrapped-IsRing : IsRing wrapped (8 ∷ 9 ∷ [])
unfolding advance
wrapped-IsRing = record {
  two_slots = omega arith;
  small = omega arith;
  memory = omega arith;
  head_in = omega arith;
  tail_in = omega arith;
  counted = refl;
  holds = (refl, (refl, tt));
}

run-wrapped : (run wrapped script).0 ≡ value 9 ∷ value 4 ∷ value 5 ∷ empty ∷ []
unfolding run emplace read advance drop_oldest place push_head move_slot
run-wrapped = refl

run_refines_example :
    ((run wrapped script).0 ≡ (run_queue 3 (8 ∷ 9 ∷ []) script).0)
    × IsRing (run wrapped script).1 (run_queue 3 (8 ∷ 9 ∷ []) script).1
run_refines_example = run_refines script wrapped-IsRing

-- 8 was lost when 5 came; at the end the ring is empty.
destroyed-run : (clear (run wrapped script).1).destroyed ≡ some 7 ∷ some 8 ∷ []
unfolding clear clear_loop run emplace read advance drop_oldest place push_head move_slot
destroyed-run = refl

destroyed-clear-run_example :
    (clear (run wrapped (put 4 ∷ put 5 ∷ get ∷ [])).1).destroyed
    ≡ (some 7 ∷ [])
      ++ map some (
          run_dropped 3 (8 ∷ 9 ∷ []) (put 4 ∷ put 5 ∷ get ∷ [])
          ++ (run_queue 3 (8 ∷ 9 ∷ []) (put 4 ∷ put 5 ∷ get ∷ [])).1)
destroyed-clear-run_example = destroyed-clear-run (put 4 ∷ put 5 ∷ get ∷ []) wrapped-IsRing

-- Two values in four slots, and a size of five.
size-wrapped : size wrapped ≡ 5
unfolding size
size-wrapped = refl

abbrev kept : Ring ℕ
kept = record wrapped { flags = 1 }

kept-IsRing : IsRing kept (8 ∷ 9 ∷ [])
kept-IsRing = record {
  two_slots = wrapped-IsRing.two_slots;
  small = wrapped-IsRing.small;
  memory = wrapped-IsRing.memory;
  head_in = wrapped-IsRing.head_in;
  tail_in = wrapped-IsRing.tail_in;
  counted = wrapped-IsRing.counted;
  holds = wrapped-IsRing.holds;
}

-- Values of 8 bytes behind a `buffer_map` of 216: a mapping of 4096 bytes has room for all four slots,
-- although the second opening asks for one.
run-reopen-run_example :
    let again = reopen 216 8 (close (run kept (put 4 ∷ [])).1) 1 2 in
    let queue = (run_queue {A = ℕ} 3 (8 ∷ 9 ∷ []) (put 4 ∷ [])).1 in
    ((run again (get ∷ put 5 ∷ get ∷ [])).0 ≡ (run_queue 3 queue (get ∷ put 5 ∷ get ∷ [])).0)
    × IsRing (run again (get ∷ put 5 ∷ get ∷ [])).1 (run_queue 3 queue (get ∷ put 5 ∷ get ∷ [])).1
unfolding mapped_slots
run-reopen-run_example =
    run-reopen-run (put 4 ∷ []) (get ∷ put 5 ∷ get ∷ []) 216 8 1 2 kept-IsRing refl refl
      (omega arith)
