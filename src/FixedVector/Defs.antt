-- ===== src/FixedVector/Defs.antt =====
-- The operations of include/txl/fixed_vector.h, and the storage of include/txl/storage.h that they
-- use. An iterator is a position. A moved value stays as it was, as for a type that is trivially
-- copied.
use libtxl.Prelude.{
  ℕ, zero, suc, ◌+◌, ◌-◌, ◌%◌, Bool, Option, none, some, List, [], ◌∷◌, if◌then◌else◌, ◌==◌, ltb,
  leb, length, get_or, set, replicate, min, size_mod,
}

-- `data_`, whose size is `Count`, and `count_`; `misses` counts the destructor calls on a slot
-- without a value.
pub record FixedVector (A : Type 0) : Type 0 where
  pub slots : List (Option A)
  pub count : ℕ
  pub misses : ℕ

module _ {A : Type 0} where
  abbrev pub capacity : FixedVector A → ℕ
  capacity v = length v.slots

  abbrev pub is_empty : FixedVector A → Bool
  is_empty v = v.count == 0

  -- `data_[i].emplace(value)`
  abbrev pub emplace_slot : List (Option A) → ℕ → A → List (Option A)
  emplace_slot s i x = set s i (some x)

  -- `data_[i].erase()`
  unfoldable pub erase_slot : FixedVector A → ℕ → FixedVector A
  erase_slot v i = record v {
    slots = set v.slots i none;
    misses = elim (get_or v.slots i none) [ none ↦ v.misses + 1 | some x ↦ v.misses ];
  }

  -- `std::move_backward` of the `n` slots from `first` on, to the slots that end at `d_last`: the
  -- last slot is moved first.
  unfoldable pub move_backward : ℕ → List (Option A) → ℕ → ℕ → List (Option A)
  move_backward zero s first d_last = s
  move_backward (suc n) s first d_last =
      move_backward n (set s (d_last - 1) (get_or s (first + n) none)) first (d_last - 1)

  -- The loop of `clear`, from slot `i` on
  unfoldable pub clear_loop : ℕ → ℕ → FixedVector A → FixedVector A
  clear_loop zero i v = v
  clear_loop (suc n) i v = clear_loop n (i + 1) (erase_slot v i)

  unfoldable pub clear : FixedVector A → FixedVector A
  clear v = record (clear_loop v.count 0 v) { count = 0 }

  -- `emplace_back` and `push_back`: `none` is the empty result.
  unfoldable pub push_back : FixedVector A → A → Option ℕ × FixedVector A
  push_back v x =
      if v.count == capacity v
      then (none, v)
      else (some v.count, record v { slots = emplace_slot v.slots v.count x; count = v.count + 1 })

  -- `copy`, and the loop of `assign` over a range or list
  unfoldable pub push_all : FixedVector A → List A → FixedVector A
  push_all v [] = v
  push_all v (x ∷ xs) = push_all (push_back v x).1 xs

  unfoldable pub assign_list : FixedVector A → List A → FixedVector A
  assign_list v xs = push_all (clear v) xs

  unfoldable pub assign : FixedVector A → ℕ → A → FixedVector A
  assign v n x = push_all (clear v) (replicate (min n (capacity v)) x)

  -- `fixed_vector()` and `fixed_vector(count, default_val)` with room for `size` values
  abbrev pub fresh_vector : ℕ → FixedVector A
  fresh_vector size = record { slots = replicate size none; count = 0; misses = 0 }

  unfoldable pub filled_vector : ℕ → ℕ → A → FixedVector A
  filled_vector size n x = assign (record (fresh_vector size) { count = min n size }) (min n size) x

  -- `insert` of an rvalue, and `emplace`
  unfoldable pub insert : FixedVector A → ℕ → A → Option ℕ × FixedVector A
  insert v pos x = if v.count == capacity v then (none, v) else (
    some pos,
    record v {
      slots = emplace_slot (move_backward (v.count - pos) v.slots pos (v.count + 1)) pos x;
      count = v.count + 1;
    },
  )

  -- The loop over the new values
  unfoldable pub emplace_slots : List (Option A) → ℕ → List A → List (Option A)
  emplace_slots s i [] = s
  emplace_slots s i (x ∷ xs) = emplace_slots (emplace_slot s i x) (i + 1) xs

  -- `insert(pos, count, value)`
  unfoldable pub insert_copies : FixedVector A → ℕ → ℕ → A → Option ℕ × FixedVector A
  insert_copies v pos n x = if ltb (capacity v) ((v.count + n) % size_mod) then (none, v) else (
    some pos,
    record v {
      slots =
          emplace_slots (move_backward (v.count - pos) v.slots pos (v.count + n)) pos
            (replicate n x);
      count = v.count + n;
    },
  )

  -- `insert` of a range or a list: `count_` stays.
  unfoldable pub insert_list : FixedVector A → ℕ → List A → Option ℕ × FixedVector A
  insert_list v pos xs =
      if ltb (capacity v) ((v.count + length xs) % size_mod) then (none, v) else (
        some pos,
        record v {
          slots =
              emplace_slots (move_backward (v.count - pos) v.slots pos (v.count + length xs)) pos
                xs;
        },
      )

  unfoldable pub pop_back : FixedVector A → FixedVector A
  pop_back v =
      let last = (v.count + size_mod - 1) % size_mod in record (erase_slot v last) { count = last }

  -- `at`: `none` is the exception; a slot in range without a value is `some none`.
  unfoldable pub at : FixedVector A → ℕ → Option (Option A)
  at v pos = if leb v.count pos then none else some (get_or v.slots pos none)

  abbrev pub front : FixedVector A → Option A
  front v = get_or v.slots 0 none

  abbrev pub back : FixedVector A → Option A
  back v = get_or v.slots ((v.count + size_mod - 1) % size_mod) none

  abbrev pub swap : FixedVector A × FixedVector A → FixedVector A × FixedVector A
  swap (v, w) = (w, v)

  -- `move`, and the move constructor of a vector of another size: the first values that fit are
  -- moved, the others are destroyed.
  unfoldable pub move_slots : ℕ → ℕ → FixedVector A → List (Option A) → FixedVector A
  move_slots zero i v others = v
  move_slots (suc n) i v others =
      move_slots n (i + 1)
        (record v { slots = set v.slots v.count (get_or others i none); count = v.count + 1 })
        others

  unfoldable pub move_from : FixedVector A → FixedVector A → FixedVector A × FixedVector A
  move_from v other = (
    move_slots (min (capacity v) other.count) 0 v other.slots,
    record (clear_loop (other.count - capacity v) (capacity v) other) { count = 0 },
  )
