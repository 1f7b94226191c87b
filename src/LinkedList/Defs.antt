-- ===== src/LinkedList/Defs.antt =====
-- The threads of include/txl/linked_list.h. Each access to shared memory is one step, and the
-- accesses are sequentially consistent. A pointer is an address, and `none` is `nullptr`.
use libtxl.Prelude.{
  ℕ, ◌+◌, ◌%◌, ◌≡◌, Option, none, some, List, [], ◌∷◌, if◌then◌else◌, ◌==◌, size_mod,
}

pub record ValueNode (A : Type 0) : Type 0 where
  pub val : A
  pub next : Option ℕ

pub record NodeGen : Type 0 where
  pub ptr : Option ℕ
  pub ctr : ℕ

-- `next_alias`: the counter is 64 bits wide.
abbrev pub next_alias : NodeGen → Option ℕ → NodeGen
next_alias n p = record { ptr = p; ctr = (n.ctr + 1) % size_mod }

abbrev pub update : {B : Type 0} → (ℕ → B) → ℕ → B → ℕ → B
update f i b j = if j == i then b else f j

-- The list, and the memory: an address that is not allocated has no node. Two fields are no part of
-- the program: `swaps` counts the exchanges that succeeded, and `stack` is the stack that they
-- have changed, each in one step.
pub record Shared (A : Type 0) : Type 0 where
  pub head : NodeGen
  pub heap : ℕ → Option (ValueNode A)
  pub swaps : ℕ
  pub stack : List A
  pub num_inserts : ℕ
  pub num_pops : ℕ

-- What a thread does next, with its locals. `taken` and `left` are no part of the program: the top
-- of `stack` when a pop's exchange succeeded, and the values that a release has still to visit.
pub data Pc (A : Type 0) : Type 0 where
  idle : Pc A
  pushing : ℕ → A → Pc A
  push_loaded : ℕ → A → NodeGen → Pc A
  pop_loaded : ℕ → ℕ → Pc A
  pop_read : ℕ → ℕ → Option ℕ → Pc A
  inserted : Pc A
  popped : (p : ℕ) → (taken : Option A) → Pc A
  returning : (res : A) → (taken : Option A) → Pc A
  release_loaded : NodeGen → Pc A
  reset_inserts : Option ℕ → (left : List A) → Pc A
  reset_pops : Option ℕ → (left : List A) → Pc A
  releasing : Option ℕ → (left : List A) → Pc A

abbrev pub top : {A : Type 0} → List A → Option A
top [] = none
top (x ∷ xs) = some x

abbrev pub tail : {A : Type 0} → List A → List A
tail [] = []
tail (x ∷ xs) = xs

module _ {A : Type 0} where
  abbrev pub write : Shared A → ℕ → Option (ValueNode A) → Shared A
  write s n v = record s { heap = update s.heap n v }

  -- An exchange of the head that succeeds
  abbrev pub swapped : Shared A → Option ℕ → List A → Shared A
  swapped s p xs = record s { head = next_alias s.head p; swaps = s.swaps + 1; stack = xs }

  -- A step of one thread. An exchange is weak, so it can fail at any time; a pop or release whose
  -- exchange failed loads again, from `idle`.
  pub data Move (s : Shared A) : Pc A → Pc A → Shared A → Type 0 where
    -- `emplace_front`: `new`, the load with the write of `n->next`, the exchange and the count
    allocate :
        (n : ℕ) (v : A)
        → s.heap n ≡ none
        → Move s idle (pushing n v) (write s n (some (record { val = v; next = none })))
    load_push :
        (n : ℕ) (v : A)
        → Move s
            (pushing n v)
            (push_loaded n v s.head)
            (write s n (some (record { val = v; next = s.head.ptr })))
    swap_push :
        (n : ℕ) (v : A) (h : NodeGen)
        → s.head ≡ h
        → Move s (push_loaded n v h) inserted (swapped s (some n) (v ∷ s.stack))
    count_insert : Move s inserted idle (record s { num_inserts = (s.num_inserts + 1) % size_mod })
    fail_push : (n : ℕ) (v : A) (h : NodeGen) → Move s (push_loaded n v h) (pushing n v) s
    -- `pop_and_release_front`: the load, the read of `head.ptr->next`, the exchange, the value
    -- with its `delete`, and the count. A read of memory that is not allocated can have any result.
    load_empty : s.head.ptr ≡ none → Move s idle idle s
    load_pop : (p : ℕ) → s.head.ptr ≡ some p → Move s idle (pop_loaded p s.head.ctr) s
    read_next :
        (p c : ℕ) (n : ValueNode A)
        → s.heap p ≡ some n
        → Move s (pop_loaded p c) (pop_read p c n.next) s
    read_freed :
        (p c : ℕ) (next : Option ℕ)
        → s.heap p ≡ none
        → Move s (pop_loaded p c) (pop_read p c next) s
    swap_pop :
        (p c : ℕ) (next : Option ℕ)
        → s.head ≡ record { ptr = some p; ctr = c }
        → Move s (pop_read p c next) (popped p (top s.stack)) (swapped s next (tail s.stack))
    fail_pop : (p c : ℕ) (next : Option ℕ) → Move s (pop_read p c next) idle s
    take_value :
        (p : ℕ) (taken : Option A) (n : ValueNode A)
        → s.heap p ≡ some n
        → Move s (popped p taken) (returning n.val taken) (write s p none)
    count_pop :
        (res : A) (taken : Option A)
        → Move s (returning res taken) idle (record s { num_pops = (s.num_pops + 1) % size_mod })
    -- `release`: the load, the exchange, the counts, and each node with its `delete`
    load_release : Move s idle (release_loaded s.head) s
    swap_release :
        (h : NodeGen)
        → s.head ≡ h
        → Move s (release_loaded h) (reset_inserts h.ptr s.stack) (swapped s none [])
    clear_inserts :
        (p : Option ℕ) (left : List A)
        → Move s (reset_inserts p left) (reset_pops p left) (record s { num_inserts = 0 })
    clear_pops :
        (p : Option ℕ) (left : List A)
        → Move s (reset_pops p left) (releasing p left) (record s { num_pops = 0 })
    fail_release : (h : NodeGen) → Move s (release_loaded h) idle s
    visit :
        (p : ℕ) (left : List A) (n : ValueNode A)
        → s.heap p ≡ some n
        → Move s (releasing (some p) left) (releasing n.next (tail left)) (write s p none)
    finish : (left : List A) → Move s (releasing none left) idle s

-- All threads
pub record System (A : Type 0) : Type 0 where
  pub shared : Shared A
  pub pcs : ℕ → Pc A

module _ {A : Type 0} where
  pub data Step (y : System A) : System A → Type 0 where
    step :
        (t : ℕ) {pc : Pc A} {s : Shared A}
        → Move y.shared (y.pcs t) pc s
        → Step y (record { shared = s; pcs = update y.pcs t pc })

  -- The constructor's state: an empty list, nothing allocated, and no thread at work
  abbrev pub initial : System A
  initial = record {
    shared = record {
      head = record { ptr = none; ctr = 0 };
      heap = λ a. none;
      swaps = 0;
      stack = [];
      num_inserts = 0;
      num_pops = 0;
    };
    pcs = λ t. idle;
  }

  pub data Reach (y : System A) : System A → Type 0 where
    here : Reach y y
    next : {z w : System A} → Reach y z → Step z w → Reach y w
