-- ===== src/FixedVector/Tests.antt =====
-- Vectors of include/txl/fixed_vector.h at concrete values.
use libtxl.Prelude.{ℕ, ◌≡◌, refl, none, some, [], ◌∷◌, arith}
use libtxl.FixedVector.Defs.{FixedVector, insert, insert_list, assign_list}
use libtxl.FixedVector.Slots.{Holds}
use libtxl.FixedVector.Insert.{insert-Holds, insert_list-Holds}
use libtxl.FixedVector.Fill.{assign_list-Holds}

-- Room for five values, four of them there.
abbrev four : FixedVector ℕ
four = record { slots = some 1 ∷ some 2 ∷ some 3 ∷ some 4 ∷ none ∷ []; count = 4; misses = 0 }

four-Holds : Holds four (1 ∷ 2 ∷ 3 ∷ 4 ∷ []) (none ∷ [])
four-Holds = record { slots_eq = refl; count_eq = refl }

abbrev two : FixedVector ℕ
two = record { slots = some 1 ∷ some 2 ∷ none ∷ none ∷ none ∷ []; count = 2; misses = 0 }

two-Holds : Holds two (1 ∷ 2 ∷ []) (none ∷ none ∷ none ∷ [])
two-Holds = record { slots_eq = refl; count_eq = refl }

abbrev full : FixedVector ℕ
full = record { slots = some 1 ∷ some 2 ∷ []; count = 2; misses = 0 }

full-Holds : Holds full (1 ∷ 2 ∷ []) []
full-Holds = record { slots_eq = refl; count_eq = refl }

insert-Holds_example :
    ((insert four 1 9).0 ≡ some 1) × Holds (insert four 1 9).1 (1 ∷ 9 ∷ 2 ∷ 3 ∷ 4 ∷ []) []
insert-Holds_example = insert-Holds four (1 ∷ []) (2 ∷ 3 ∷ 4 ∷ []) 9 none [] four-Holds

insert_list-Holds_example :
    ((insert_list two 1 (7 ∷ 8 ∷ [])).0 ≡ some 1)
    × Holds (insert_list two 1 (7 ∷ 8 ∷ [])).1 (1 ∷ 7 ∷ []) (some 8 ∷ some 2 ∷ none ∷ [])
insert_list-Holds_example =
    insert_list-Holds two (1 ∷ []) (7 ∷ 8 ∷ []) (2 ∷ []) (none ∷ none ∷ []) (none ∷ []) two-Holds
      refl (omega arith)

assigned_list :
    Holds (assign_list full (7 ∷ 8 ∷ 9 ∷ [])) (7 ∷ 8 ∷ []) []
    × ((assign_list full (7 ∷ 8 ∷ 9 ∷ [])).misses ≡ 0)
assigned_list = assign_list-Holds full (1 ∷ 2 ∷ []) (7 ∷ 8 ∷ 9 ∷ []) [] full-Holds
