-- ===== src/FixedVector/Fill.antt =====
-- Filling a vector of include/txl/fixed_vector.h from other values.
use mathlib.Core.Path.{subst}
use libtxl.Prelude.{
  ℕ, ◌+◌, ◌-◌, ◌≡◌, refl, ap, ap₂, ◌∙◌, sym, true, false, Option, none, some, List, [], ◌∷◌, ◌++◌,
  map, length, set, get_or, take, drop, replicate, append_assoc, append-nil, length-append,
  length-replicate, take_all, arith, min, ◌==◌,
}
use libtxl.FixedVector.Defs.{
  FixedVector, capacity, push_back, push_all, clear, clear_loop, erase_slot, assign, assign_list,
  filled_vector, fresh_vector,
}
use libtxl.FixedVector.Slots.{
  Holds, none_of, no_values, blanks, blanks-map, blanks-no_values, no_values_split, drop_nil,
  drop-append, map-append, length-map, set-append, get_or-append,
}

module _ {A : Type 0} where
  push_back-Holds :
      (v : FixedVector A) (ys : List A) (x : A) (g : Option A) (rest : List (Option A))
      → Holds v ys (g ∷ rest)
      → Holds (push_back v x).1 (ys ++ (x ∷ [])) rest
  unfolding push_back
  push_back-Holds v ys x g rest h =
      let c = ap length h.slots_eq ∙ length-append (map some ys) (g ∷ rest) in
      let l = length-map some ys in
      let l' = length-append ys (x ∷ []) in
      let d = h.count_eq in
      let room : (v.count == capacity v) ≡ false = ground arith in
      rw (room) (record {
        slots_eq =
            ap₂ (λ s i. set s i (some x)) h.slots_eq (d ∙ sym l)
            ∙ set-append (map some ys) g (some x) rest
            ∙ sym (append_assoc (map some ys) (some x ∷ []) rest)
            ∙ ap (λ s. s ++ rest) (sym (map-append some ys (x ∷ [])));
        count_eq = omega arith;
      })

  push_back_full : (v : FixedVector A) (ys : List A) (x : A) → Holds v ys [] → (push_back v x).1 ≡ v
  unfolding push_back
  push_back_full v ys x h =
      let c = ap length h.slots_eq ∙ length-append (map some ys) [] in
      let l = length-map some ys in
      let d = h.count_eq in
      let full : (v.count == capacity v) ≡ true = ground arith in rw (full) refl

  push_all-Holds :
      (xs : List A) (v : FixedVector A) (ys : List A) (rest : List (Option A))
      → Holds v ys rest
      → Holds (push_all v xs) (ys ++ take (length rest) xs) (drop (length xs) rest)
  unfolding push_all
  push_all-Holds [] v ys [] h = rw (append-nil ys) h
  push_all-Holds [] v ys (g ∷ rest) h = rw (append-nil ys) h
  push_all-Holds (x ∷ xs) v ys [] h = rw (push_back_full v ys x h) (
      subst (λ r. Holds (push_all v xs) (ys ++ []) r) (drop_nil (Option A) (length xs))
        (push_all-Holds xs v ys [] h))
  push_all-Holds (x ∷ xs) v ys (g ∷ rest) h =
      rw (sym (append_assoc ys (x ∷ []) (take (length rest) xs))) (
        push_all-Holds xs (push_back v x).1 (ys ++ (x ∷ [])) rest (push_back-Holds v ys x g rest h))

  push_back_misses : (v : FixedVector A) (x : A) → (push_back v x).1.misses ≡ v.misses
  unfolding push_back
  push_back_misses v x = ground arith

  push_all_misses : (xs : List A) (v : FixedVector A) → (push_all v xs).misses ≡ v.misses
  unfolding push_all
  push_all_misses [] v = refl
  push_all_misses (x ∷ xs) v = push_all_misses xs (push_back v x).1 ∙ push_back_misses v x

  -- One slot that `clear` destroys
  erase_slot_at :
      (v : FixedVector A) (pre : List (Option A)) (y : Option A) (post : List (Option A)) (i : ℕ)
      → v.slots ≡ pre ++ (y ∷ post)
      → i ≡ length pre
      → erase_slot v i ≡ record v {
        slots = pre ++ (none ∷ post);
        misses = elim y as (λ o. ℕ) [ none ↦ v.misses + 1 | some z ↦ v.misses ];
      }
  unfolding erase_slot
  erase_slot_at v pre y post i e ei =
      let erased : List (Option A) → Option A → FixedVector A = λ s o. record v {
        slots = s;
        misses = elim o as (λ p. ℕ) [ none ↦ v.misses + 1 | some z ↦ v.misses ];
      } in
      ap₂ erased (ap₂ (λ s j. set s j none) e ei ∙ set-append pre y none post)
        (ap₂ (λ s j. get_or s j none) e ei ∙ get_or-append pre y none post)

  clear_loop_lem :
      (s : List (Option A)) (v : FixedVector A) (pre post : List (Option A)) (i : ℕ)
      → v.slots ≡ pre ++ (s ++ post)
      → i ≡ length pre
      → clear_loop (length s) i v ≡ record v {
        slots = pre ++ (replicate (length s) none ++ post);
        misses = v.misses + blanks s;
      }
  unfolding clear_loop
  clear_loop_lem [] v pre post i e ei =
      let kept : List (Option A) → ℕ → FixedVector A = λ s m. record v { slots = s; misses = m } in
      ap₂ kept e (omega arith)
  clear_loop_lem (none ∷ s) v pre post i e ei =
      let w : FixedVector A = record v {
        slots = pre ++ (none ∷ (s ++ post));
        misses = v.misses + 1;
      } in
      let kept : List (Option A) → ℕ → FixedVector A = λ t m. record v { slots = t; misses = m } in
      ap (clear_loop (length s) (i + 1)) (erase_slot_at v pre none (s ++ post) i e ei)
      ∙ clear_loop_lem s w (pre ++ (none ∷ [])) post (i + 1)
          (sym (append_assoc pre (none ∷ []) (s ++ post)))
          (rw (length-append pre (none ∷ [])) (omega arith))
      ∙ ap₂ kept (append_assoc pre (none ∷ []) (replicate (length s) none ++ post)) (omega arith)
  clear_loop_lem (some x ∷ s) v pre post i e ei =
      let w : FixedVector A = record v { slots = pre ++ (none ∷ (s ++ post)) } in
      let kept : List (Option A) → ℕ → FixedVector A = λ t m. record v { slots = t; misses = m } in
      ap (clear_loop (length s) (i + 1)) (erase_slot_at v pre (some x) (s ++ post) i e ei)
      ∙ clear_loop_lem s w (pre ++ (none ∷ [])) post (i + 1)
          (sym (append_assoc pre (none ∷ []) (s ++ post)))
          (rw (length-append pre (none ∷ [])) (omega arith))
      ∙ ap (λ t. kept t (v.misses + blanks s))
          (append_assoc pre (none ∷ []) (replicate (length s) none ++ post))

  clear-Holds :
      (v : FixedVector A) (xs : List A) (rest : List (Option A))
      → Holds v xs rest
      → clear v ≡ record v { slots = replicate (length xs) none ++ rest; count = 0 }
  unfolding clear
  clear-Holds v xs rest h =
      let l = length-map some xs in
      let cleared : FixedVector A → FixedVector A = λ w. record w { count = 0 } in
      let kept : ℕ → ℕ → FixedVector A =
        λ n m. record v { slots = replicate n none ++ rest; count = 0; misses = m } in
      ap (λ n. cleared (clear_loop n 0 v)) (h.count_eq ∙ sym l)
      ∙ ap cleared (clear_loop_lem (map some xs) v [] rest 0 h.slots_eq refl)
      ∙ ap₂ kept l (rw (blanks-map xs) (omega arith))

  -- assign from a range or a list, and the copy of another vector, into a vector that holds values
  -- already: it destroys those, each once, and holds the first of the new values, as many as its
  -- capacity, and all of them where they fit.
  pub assign_list-Holds :
      (v : FixedVector A) (old new : List A) (rest : List (Option A))
      → Holds v old rest
      → Holds
          (assign_list v new)
          (take (capacity v) new)
          (drop (length new) (replicate (length old) none ++ rest))
        × ((assign_list v new).misses ≡ v.misses)
  unfolding assign_list
  assign_list-Holds v old new rest h =
      let empty : FixedVector A = record v {
        slots = replicate (length old) none ++ rest;
        count = 0;
      } in
      let c_eq = clear-Holds v old rest h in
      let filled =
        push_all-Holds new empty [] (replicate (length old) none ++ rest)
          (record { slots_eq = refl; count_eq = refl }) in
      let size : length (replicate (length old) none ++ rest) ≡ capacity v =
        length-append (replicate (length old) none) rest
        ∙ ap (λ n. n + length rest) (length-replicate (length old) none ∙ sym (length-map some old))
        ∙ sym (ap length h.slots_eq ∙ length-append (map some old) rest) in
      (
        rw (c_eq) (
            subst
              (λ n.
                Holds (push_all empty new) (take n new)
                  (drop (length new) (replicate (length old) none ++ rest)))
              size filled),
        rw (c_eq) (push_all_misses new empty),
      )

  -- `m` blank slots are cleared, and filled with `m` copies.
  filled :
      (m k : ℕ) (x : A) (v : FixedVector A)
      → v.slots ≡ no_values A m ++ no_values A k
      → v.misses ≡ 0
      → v.count ≡ m
      → Holds (push_all (clear v) (replicate m x)) (replicate m x) (no_values A k)
        × ((push_all (clear v) (replicate m x)).misses ≡ m)
  unfolding clear
  filled m k x v e none_yet c =
      let room = no_values A m in
      let l : length room ≡ m = length-replicate m (none_of A) in
      let start : FixedVector A = record v {
        slots = room ++ no_values A k;
        count = 0;
        misses = m;
      } in
      let cleared : FixedVector A → FixedVector A = λ w. record w { count = 0 } in
      let kept : List (Option A) → ℕ → FixedVector A =
        λ s i. record v { slots = s; count = 0; misses = i } in
      let start_eq : clear v ≡ start =
        ap (λ n. cleared (clear_loop n 0 v)) (c ∙ sym l)
        ∙ ap cleared (clear_loop_lem room v [] (no_values A k) 0 e refl)
        ∙ ap₂ kept (ap (λ n. no_values A n ++ no_values A k) l)
            (rw (none_yet, blanks-no_values A m) (omega arith)) in
      let copies = length-replicate m x in
      let full = length-append room (no_values A k) in
      let placed =
        push_all-Holds (replicate m x) start [] (room ++ no_values A k)
          (record { slots_eq = refl; count_eq = refl }) in
      (
        rw (start_eq) (
            subst (λ s. Holds (push_all start (replicate m x)) (replicate m x) s)
              (drop-append room (no_values A k) (length (replicate m x)) (copies ∙ sym l))
              (subst
                (λ s.
                  Holds (push_all start (replicate m x)) s
                    (drop (length (replicate m x)) (room ++ no_values A k)))
                (take_all (length (room ++ no_values A k)) (replicate m x) (omega arith)) placed)),
        rw (start_eq) (push_all_misses (replicate m x) start),
      )

  -- The constructor from a count and a value, with room for `size` values: the vector holds as many
  -- copies as fit; but the destructor has run once for each of them on a slot that held no value.
  filled_vector-Holds :
      (size n : ℕ) (x : A)
      → Holds (filled_vector size n x) (replicate (min n size) x) (replicate (size - n) none)
        × ((filled_vector size n x).misses ≡ min n size)
  unfolding filled_vector assign clear
  filled_vector-Holds size n x =
      let m = min n size in
      let l = length-replicate size (none_of A) in
      let size_eq : size ≡ m + (size - n) = omega arith in
      let start : FixedVector A = record (fresh_vector size) { count = m } in
      let result =
        filled m (size - n) x start (ap (no_values A) size_eq ∙ no_values_split A m (size - n)) refl
          refl in
      subst
        (λ k.
          Holds (push_all (clear start) (replicate k x)) (replicate m x) (no_values A (size - n))
          × ((push_all (clear start) (replicate k x)).misses ≡ m))
        (omega arith) result
