-- ===== src/FixedVector/Insert.antt =====
-- Insertion in the middle of a vector of include/txl/fixed_vector.h.
use mathlib.Core.Path.{subst}
use libtxl.Prelude.{
  ℕ, ◌+◌, ◌-◌, ◌%◌, ◌^◌, ◌<◌, ◌≡◌, refl, ap, ap₂, ◌∙◌, sym, true, false, Option, none, some, List,
  [], ◌∷◌, ◌++◌, map, length, set, take, drop, replicate, append_assoc, length-append, arith, ◌==◌,
  ltb, le→ltb, lt→ltb, size_mod, take-append-drop, length-replicate, length-take,
}
use libtxl.FixedVector.Defs.{
  FixedVector, capacity, move_backward, emplace_slots, insert, insert_copies, insert_list,
  push_back,
}
use libtxl.FixedVector.Slots.{Holds, map-append, length-map, set-append}
use libtxl.FixedVector.Shift.{move_backward_up}

module _ {A : Type 0} where
  -- The new values take the place of the gap.
  emplace_slots_lem :
      (xs : List A) (pre gap post : List (Option A)) (i : ℕ)
      → length gap ≡ length xs
      → i ≡ length pre
      → emplace_slots (pre ++ (gap ++ post)) i xs ≡ pre ++ (map some xs ++ post)
  unfolding emplace_slots
  emplace_slots_lem [] pre [] post i e ei = refl
  emplace_slots_lem [] pre (g ∷ gap) post i e ei = absurd (omega arith)
  emplace_slots_lem (x ∷ xs) pre [] post i e ei = absurd (omega arith)
  emplace_slots_lem (x ∷ xs) pre (g ∷ gap) post i e ei =
      let placed : set (pre ++ (g ∷ (gap ++ post))) i (some x)
          ≡ (pre ++ (some x ∷ [])) ++ (gap ++ post) =
        ap (λ k. set (pre ++ (g ∷ (gap ++ post))) k (some x)) ei
        ∙ set-append pre g (some x) (gap ++ post)
        ∙ sym (append_assoc pre (some x ∷ []) (gap ++ post)) in
      ap (λ s. emplace_slots s (i + 1) xs) placed
      ∙ emplace_slots_lem xs (pre ++ (some x ∷ [])) gap post (i + 1) (omega arith)
          (rw (length-append pre (some x ∷ [])) (omega arith))
      ∙ append_assoc pre (some x ∷ []) (map some xs ++ post)

  -- The slots behind an insertion of `xs` between `ys` and `zs`
  inserted_slots :
      (v : FixedVector A) (ys xs zs : List A) (gap rest : List (Option A))
      → Holds v (ys ++ zs) (gap ++ rest)
      → length gap ≡ length xs
      → emplace_slots
          (move_backward (v.count - length ys) v.slots (length ys) (v.count + length xs))
          (length ys)
          xs
        ≡ map some (ys ++ (xs ++ zs)) ++ rest
  inserted_slots v ys xs zs gap rest h e =
      let pre = map some ys in
      let mid = map some zs in
      let pre_length = length-map some ys in
      let mid_length = length-map some zs in
      let total = length-append ys zs in
      let count_eq = h.count_eq in
      let n_eq : length mid ≡ v.count - length ys = omega arith in
      let d_eq : v.count + length xs ≡ length pre + (v.count - length ys) + length gap =
        omega arith in
      let up =
        move_backward_up (v.count - length ys) pre mid gap rest (v.count + length xs) n_eq d_eq in
      let s_eq : v.slots ≡ pre ++ (mid ++ (gap ++ rest)) =
        h.slots_eq
        ∙ ap (λ s. s ++ (gap ++ rest)) (map-append some ys zs)
        ∙ append_assoc pre mid (gap ++ rest) in
      ap₂
        (λ s k.
          emplace_slots (move_backward (v.count - length ys) s k (v.count + length xs)) (length ys)
            xs)
        s_eq (sym pre_length)
      ∙ ap (λ s. emplace_slots s (length ys) xs) up.moved
      ∙ emplace_slots_lem xs pre up.gap (mid ++ rest) (length ys) (up.gap_length ∙ e)
          (sym pre_length)
      ∙ sym (
          ap (λ s. s ++ rest)
            (map-append some ys (xs ++ zs) ∙ ap (λ s. pre ++ s) (map-append some xs zs))
          ∙ (simp (append_assoc) refl))

  capacity_lem :
      (v : FixedVector A) (xs : List A) (rest : List (Option A))
      → Holds v xs rest
      → capacity v ≡ length xs + length rest
  capacity_lem v xs rest h =
      ap length h.slots_eq
      ∙ length-append (map some xs) rest
      ∙ ap (λ k. k + length rest) (length-map some xs)

  not_full :
      (v : FixedVector A) (xs : List A) (rest : List (Option A))
      → Holds v xs rest
      → 0 < length rest
      → (v.count == capacity v) ≡ false
  not_full v xs rest h room = let c = capacity_lem v xs rest h in let d = h.count_eq in ground arith

  -- emplace, and insert of an rvalue, at the position between `ys` and `zs` of a vector with a free slot: the
  -- result is that position, and the vector holds `ys`, the new value and `zs` and has one free
  -- slot less.
  pub insert-Holds :
      (v : FixedVector A) (ys zs : List A) (x : A) (g : Option A) (rest : List (Option A))
      → Holds v (ys ++ zs) (g ∷ rest)
      → ((insert v (length ys) x).0 ≡ some (length ys))
        × Holds (insert v (length ys) x).1 (ys ++ (x ∷ zs)) rest
  unfolding insert emplace_slots
  insert-Holds v ys zs x g rest h =
      let open_slot = not_full v (ys ++ zs) (g ∷ rest) h (omega arith) in
      let total = length-append ys zs in
      let total' = length-append ys (x ∷ zs) in
      let d = h.count_eq in
      (
        rw (open_slot) refl,
        rw (open_slot) (record {
          slots_eq = inserted_slots v ys (x ∷ []) zs (g ∷ []) rest h refl;
          count_eq = omega arith;
        }),
      )

  fits :
      (v : FixedVector A) (xs : List A) (gap rest : List (Option A)) (n : ℕ)
      → Holds v xs (gap ++ rest)
      → length gap ≡ n
      → capacity v < size_mod
      → ltb (capacity v) ((v.count + n) % size_mod) ≡ false
  fits v xs gap rest n h e small =
      let c = capacity_lem v xs (gap ++ rest) h in
      let l = length-append gap rest in
      let d = h.count_eq in le→ltb (capacity v) ((v.count + n) % size_mod) (omega arith)

  -- insert of `n` copies at the position between `ys` and `zs`, with `n` free slots and a capacity
  -- below 2^64: the result is the position, and the vector holds the copies there.
  pub insert_copies-Holds :
      (v : FixedVector A) (ys zs : List A) (n : ℕ) (x : A) (gap rest : List (Option A))
      → Holds v (ys ++ zs) (gap ++ rest)
      → length gap ≡ n
      → capacity v < size_mod
      → ((insert_copies v (length ys) n x).0 ≡ some (length ys))
        × Holds (insert_copies v (length ys) n x).1 (ys ++ (replicate n x ++ zs)) rest
  unfolding insert_copies
  insert_copies-Holds v ys zs n x gap rest h e small =
      let open_slots = fits v (ys ++ zs) gap rest n h e small in
      let total = length-append ys zs in
      let copies = length-replicate n x in
      let total' = length-append ys (replicate n x ++ zs) in
      let total'' = length-append (replicate n x) zs in
      let d = h.count_eq in
      let placed = inserted_slots v ys (replicate n x) zs gap rest h (e ∙ sym copies) in
      let placed' =
        subst
          (λ k.
            emplace_slots (move_backward (v.count - length ys) v.slots (length ys) (v.count + k))
              (length ys) (replicate n x)
            ≡ map some (ys ++ (replicate n x ++ zs)) ++ rest)
          copies placed in
      (
        rw (open_slots) refl,
        rw (open_slots) (record { slots_eq = placed'; count_eq = omega arith }),
      )

  -- insert of a range or a list at the position between `ys` and `zs`, with a free slot for each
  -- new value and a capacity below 2^64: the result is the position, but the vector has as many
  -- values as before. It holds the first of `ys`, the new values and `zs`, and the last ones stand
  -- in slots that it does not count.
  pub insert_list-Holds :
      (v : FixedVector A) (ys xs zs : List A) (gap rest : List (Option A))
      → Holds v (ys ++ zs) (gap ++ rest)
      → length gap ≡ length xs
      → capacity v < size_mod
      → ((insert_list v (length ys) xs).0 ≡ some (length ys))
        × Holds
            (insert_list v (length ys) xs).1
            (take (length (ys ++ zs)) (ys ++ (xs ++ zs)))
            (map some (drop (length (ys ++ zs)) (ys ++ (xs ++ zs))) ++ rest)
  unfolding insert_list
  insert_list-Holds v ys xs zs gap rest h e small =
      let open_slots = fits v (ys ++ zs) gap rest (length xs) h e small in
      let all = ys ++ (xs ++ zs) in
      let n = length (ys ++ zs) in
      let d = h.count_eq in
      let total = length-append ys zs in
      let total' = length-append ys (xs ++ zs) in
      let total'' = length-append xs zs in
      let taken = length-take n all in
      let placed = inserted_slots v ys xs zs gap rest h e in
      let split : map some all ++ rest ≡ map some (take n all) ++ (map some (drop n all) ++ rest) =
        ap (λ zs. map some zs ++ rest) (sym (take-append-drop n all))
        ∙ ap (λ s. s ++ rest) (map-append some (take n all) (drop n all))
        ∙ append_assoc (map some (take n all)) (map some (drop n all)) rest in
      (
        rw (open_slots) refl,
        rw (open_slots) (record { slots_eq = placed ∙ split; count_eq = omega arith }),
      )

  -- On a full vector with a capacity below 2^63: push_back, insert, insert of one or more copies and
  -- insert of a list that is not empty, of lengths below 2^63, all give the empty result and leave
  -- the vector as it is.
  pub insert_full :
      (v : FixedVector A) (xs : List A) (pos n : ℕ) (x : A) (new : List A)
      → Holds v xs []
      → capacity v < 2 ^ 63
      → 0 < n
      → n < 2 ^ 63
      → 0 < length new
      → length new < 2 ^ 63
      → (push_back v x ≡ (none, v))
        × (insert v pos x ≡ (none, v))
        × (insert_copies v pos n x ≡ (none, v))
        × (insert_list v pos new ≡ (none, v))
  unfolding push_back insert insert_copies insert_list
  insert_full v xs pos n x new h small some_copies few some_new short =
      let c = capacity_lem v xs [] h in
      let d = h.count_eq in
      let full : (v.count == capacity v) ≡ true = ground arith in
      let over : ltb (capacity v) ((v.count + n) % size_mod) ≡ true =
        lt→ltb (capacity v) ((v.count + n) % size_mod) (omega arith) in
      let over' : ltb (capacity v) ((v.count + length new) % size_mod) ≡ true =
        lt→ltb (capacity v) ((v.count + length new) % size_mod) (omega arith) in
      (rw (full) refl, rw (full) refl, rw (over) refl, rw (over') refl)
