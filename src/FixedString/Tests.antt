-- ===== src/FixedString/Tests.antt =====
-- The strings of include/txl/fixed_string.h at concrete inputs.
use libtxl.Prelude.{ℕ, ◌≡◌, true, false, some, List, [], ◌∷◌, take, refl, arith}
use libtxl.FixedString.Defs.{
  terminated, block, size, to_string_view, store, equal, equal_view, capacity, copy_from,
  copy_to_string, copy_to_block, assign_moved,
}
use libtxl.FixedString.View.{until_zero, Copied, copy_from-Copied}

-- Four characters with something in them
abbrev used : List ℕ
used = 7 ∷ 7 ∷ 7 ∷ 7 ∷ []

abbrev long : List ℕ
long = 1 ∷ 2 ∷ 3 ∷ 4 ∷ 5 ∷ []

copy_from-terminated : copy_from terminated long used ≡ some (1 ∷ 2 ∷ 3 ∷ 0 ∷ [])
unfolding copy_to_string copy_to_block capacity store
copy_from-terminated = refl

copy_from-block : copy_from block long used ≡ some (1 ∷ 2 ∷ 3 ∷ 4 ∷ [])
unfolding copy_to_string copy_to_block capacity store
copy_from-block = refl

copy_from-short : copy_from block (9 ∷ []) used ≡ some (9 ∷ 0 ∷ 7 ∷ 7 ∷ [])
unfolding copy_to_string copy_to_block capacity store
copy_from-short = refl

copy_from-Copied_example :
    Copied (copy_from terminated long used) 4 (until_zero (take (capacity terminated used) long))
copy_from-Copied_example = copy_from-Copied terminated long used (omega arith)

assign_moved-block :
    assign_moved block (5 ∷ 0 ∷ 6 ∷ []) used ≡ some ((5 ∷ 0 ∷ 7 ∷ 7 ∷ []), (0 ∷ 0 ∷ 6 ∷ []))
unfolding assign_moved copy_to_string copy_to_block to_string_view size capacity store
assign_moved-block = refl

-- What stands behind the first zero does not count.
equal-behind_zero : equal (5 ∷ 0 ∷ 1 ∷ []) (5 ∷ 0 ∷ []) ≡ true
unfolding equal to_string_view size
equal-behind_zero = refl

equal_view-longer : equal_view (5 ∷ 0 ∷ []) (5 ∷ 6 ∷ []) ≡ false
unfolding equal_view to_string_view size
equal_view-longer = refl
