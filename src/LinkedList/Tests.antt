-- ===== src/LinkedList/Tests.antt =====
-- Runs of include/txl/linked_list.h.
use libtxl.Prelude.{ℕ, ◌≡◌, refl, none, some, List, [], ◌∷◌, arith}
use libtxl.LinkedList.Defs.{
  System, top, pop_loaded, allocate, load_push, swap_push, count_insert, load_pop, read_next,
  swap_pop, take_value, step, Reach, here, next, initial,
}
use libtxl.LinkedList.Stack.{contents, reached-contents, pop_returns_top}
use libtxl.LinkedList.Freed.{read_after_free}

-- Thread 0 pushes 7 and 8.
abbrev pushed : (y : System ℕ) × Reach initial y
pushed = (
  _,
  next
      (next
        (next
          (next
            (next
              (next (next (next here (step 0 (allocate 10 7 refl))) (step 0 (load_push 10 7)))
                (step 0 (swap_push 10 7 _ refl)))
              (step 0 count_insert))
            (step 0 (allocate 11 8 refl)))
          (step 0 (load_push 11 8)))
        (step 0 (swap_push 11 8 _ refl)))
      (step 0 count_insert),
)

-- Then thread 1 pops, between two steps of thread 2.
abbrev popped_one : (y : System ℕ) × Reach initial y
popped_one = (
  _,
  next
      (next
        (next (next (next pushed.1 (step 1 (load_pop 11 refl))) (step 2 (load_pop 11 refl)))
          (step 1 (read_next 11 2 _ refl)))
        (step 1 (swap_pop 11 2 _ refl)))
      (step 1 (take_value 11 _ _ refl)),
)

reached-contents_example : contents 2 pushed.0.shared.heap (some 11) ≡ some (8 ∷ 7 ∷ [])
reached-contents_example = reached-contents pushed.0 pushed.1 (omega arith)

-- What thread 1 pops from
abbrev two_values : List ℕ
two_values = 8 ∷ 7 ∷ []

pop_returns_top_example : top two_values ≡ some 8
pop_returns_top_example =
    pop_returns_top popped_one.0 popped_one.1 (omega arith) 1 8 (top two_values) refl

read_after_free_example :
    (z : System ℕ) × Reach pushed.0 z × (z.pcs 3 ≡ pop_loaded 11 2) × (z.shared.heap 11 ≡ none)
read_after_free_example =
    read_after_free pushed.0 3 4 11 _ (λ e. absurd (omega (arith, e))) refl refl refl refl
