-- ===== src/RingBuffer/Defs.antt =====
-- The operations of include/txl/ring_buffer.h.
use Prim.Native.Nat.{bit_and}
use libtxl.Prelude.{
  ℕ, zero, suc, ◌+◌, ◌-◌, ◌*◌, ◌/◌, ◌%◌, Bool, not, Option, none, some, List, [], ◌∷◌, ◌++◌, take,
  if◌then◌else◌, ◌==◌, ltb, get_or, set, size_mod,
}

-- `buffer_map` with the flags of the `ring_buffer` that maps it. `slots` are those that are mapped;
-- `destroyed` is what the slots held whose destructor was called, in order: a value, or none.
pub record Ring (A : Type 0) : Type 0 where
  pub cap : ℕ
  pub head : ℕ
  pub tail : ℕ
  pub slots : List (Option A)
  pub flags : ℕ
  pub destroyed : List (Option A)

-- `ring_buffer_flags`
abbrev pub preserve_values : ℕ
preserve_values = 1

abbrev pub no_initialize : ℕ
no_initialize = 2

-- What `read` returns: `{}`, a value, or the move out of a slot that holds none.
pub data Reply (A : Type 0) : Type 0 where
  empty : Reply A
  value : A → Reply A
  fault : Reply A

-- The slots that lie in the bytes that the constructor maps.
unfoldable pub mapped_slots : ℕ → ℕ → ℕ → ℕ
mapped_slots header_size value_size capacity =
    let bytes = (value_size * capacity % size_mod + header_size) % size_mod in
    ((if ltb 4096 bytes then bytes else 4096) - header_size) / value_size

-- `++i`, and back to 0 at the capacity
unfoldable pub advance : ℕ → ℕ → ℕ
advance capacity i = let j = (i + 1) % size_mod in if j == capacity then 0 else j

module _ {A : Type 0} where
  unfoldable pub destruct_on_close : Ring A → Bool
  destruct_on_close r = not (bit_and r.flags preserve_values == preserve_values)

  -- `slot(i).~Value()`
  abbrev pub destroy_slot : Ring A → ℕ → Ring A
  destroy_slot r i = record r {
    slots = set r.slots i none;
    destroyed = r.destroyed ++ (get_or r.slots i none ∷ []);
  }

  -- `clear`: the loop goes on while `head() != tail()`, with fuel.
  unfoldable pub clear_loop : ℕ → Ring A → Ring A
  clear_loop zero r = r
  clear_loop (suc f) r =
      let rest = clear_loop f (record (destroy_slot r r.head) { head = advance r.cap r.head }) in
      if r.head == r.tail then r else rest

  -- Each round goes one slot on, so `capacity()` rounds are enough.
  unfoldable pub clear : Ring A → Ring A
  clear r = clear_loop r.cap r

  unfoldable pub size : Ring A → ℕ
  size r =
      if ltb r.tail r.head
      then ((r.head + r.cap - 1) % size_mod + size_mod - r.tail) % size_mod
      else r.tail - r.head

  unfoldable pub move_slot : Option A → Reply A
  move_slot none = fault
  move_slot (some v) = value v

  unfoldable pub read : Ring A → Reply A × Ring A
  read r =
      if r.head == r.tail
      then (empty, r)
      else (move_slot (get_or r.slots r.head none), record r { head = advance r.cap r.head })

  -- `emplace`, in its three steps: the overwritten value, the new one, the head.
  unfoldable pub drop_oldest : Ring A → Ring A
  drop_oldest r = if r.head == (r.tail + 1) % size_mod % r.cap then destroy_slot r r.head else r

  unfoldable pub place : Ring A → A → Ring A
  place r v = record r { slots = set r.slots r.tail (some v); tail = advance r.cap r.tail }

  unfoldable pub push_head : Ring A → Ring A
  push_head r = if r.head == r.tail then record r { head = advance r.cap r.head } else r

  unfoldable pub emplace : Ring A → A → Ring A
  emplace r v = push_head (place (drop_oldest r) v)

  -- The constructor over memory `m` that was used before, for values of `value_size` bytes and a
  -- `buffer_map` of `header_size`: it starts afresh unless `no_initialize`. The size of the mapping
  -- comes from the capacity that it is given, the capacity that it works with from the memory.
  unfoldable pub reopen : ℕ → ℕ → Ring A → ℕ → ℕ → Ring A
  reopen header_size value_size m capacity flags =
      let mapped = take (mapped_slots header_size value_size capacity) m.slots in
      if bit_and flags no_initialize == no_initialize
      then record m { slots = mapped; flags = flags }
      else record m { slots = mapped; cap = capacity; head = 0; tail = 0; flags = flags }

  -- The destructor; the mapping itself is the kernel's.
  unfoldable pub close : Ring A → Ring A
  close r = if destruct_on_close r then clear r else r
