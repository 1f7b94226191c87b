-- ===== src/FixedVector/Pop.antt =====
-- Removal of the last value of a vector of include/txl/fixed_vector.h.
use libtxl.Prelude.{
  ℕ, ◌+◌, ◌-◌, ◌%◌, ◌^◌, ◌<◌, ◌≡◌, ap, ap₂, ◌∙◌, sym, Option, none, some, List, [], ◌∷◌, ◌++◌, map,
  length, set, get_or, append_assoc, length-append, arith, size_mod,
}
use libtxl.FixedVector.Defs.{FixedVector, erase_slot, pop_back}
use libtxl.FixedVector.Slots.{Holds, map-append, length-map, set-append, get_or-append}

module _ {A : Type 0} where
  -- The destructor runs on the value that stands behind `ys`.
  erase_slot_lem :
      (v : FixedVector A) (ys : List A) (x : A) (post : List (Option A))
      → v.slots ≡ map some ys ++ (some x ∷ post)
      → erase_slot v (length ys) ≡ record v { slots = map some ys ++ (none ∷ post) }
  unfolding erase_slot
  erase_slot_lem v ys x post e =
      let erased : List (Option A) → Option A → FixedVector A = λ s o. record v {
        slots = s;
        misses = elim o as (λ p. ℕ) [ none ↦ v.misses + 1 | some y ↦ v.misses ];
      } in
      let i_eq : length ys ≡ length (map some ys) = sym (length-map some ys) in
      let got : get_or v.slots (length ys) none ≡ some x =
        ap₂ (λ s i. get_or s i none) e i_eq ∙ get_or-append (map some ys) (some x) none post in
      let freed : set v.slots (length ys) none ≡ map some ys ++ (none ∷ post) =
        ap₂ (λ s i. set s i none) e i_eq ∙ set-append (map some ys) (some x) none post in
      ap₂ erased freed got

  -- pop_back, on a vector of fewer than 2^64 values that is not empty: it destroys the last value
  -- and holds the others.
  pub pop_back-Holds :
      (v : FixedVector A) (ys : List A) (x : A) (rest : List (Option A))
      → Holds v (ys ++ (x ∷ [])) rest
      → length ys < 2 ^ 63
      → Holds (pop_back v) ys (none ∷ rest)
  unfolding pop_back
  pop_back-Holds v ys x rest h small =
      let total = length-append ys (x ∷ []) in
      let d = h.count_eq in
      let last_eq : (v.count + size_mod - 1) % size_mod ≡ length ys = omega arith in
      let s_eq : v.slots ≡ map some ys ++ (some x ∷ rest) =
        h.slots_eq
        ∙ ap (λ s. s ++ rest) (map-append some ys (x ∷ []))
        ∙ append_assoc (map some ys) (some x ∷ []) rest in
      record {
        slots_eq =
            ap (λ i. (erase_slot v i).slots) last_eq
            ∙ ap (λ w. w.slots) (erase_slot_lem v ys x rest s_eq);
        count_eq = last_eq;
      }
