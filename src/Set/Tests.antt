-- ===== src/Set/Tests.antt =====
-- The set at concrete inputs.
use libtxl.Prelude.{ℕ, true, some, List, [], ◌∷◌, ◌||◌, ◌≡◌, refl, arith}
use libtxl.Prelude.Order.{nat_less}
use libtxl.Set.Defs.{matches, add, erase, bisect, linear_search, find, contains}
use libtxl.Set.Bounds.{IsSorted, has}
use libtxl.Set.Update.{add-IsSorted, erase_greater}
use libtxl.Set.Search.{find-linear_search}

abbrev sample : List ℕ
sample = 2 ∷ 5 ∷ 9 ∷ []

sample-IsSorted : IsSorted nat_less sample
unfolding nat_less
sample-IsSorted = ground arith

sample-has : has nat_less sample 5 ≡ true
unfolding has matches nat_less
sample-has = refl

add-IsSorted_example :
    IsSorted nat_less (add nat_less sample 7)
    × (has nat_less (add nat_less sample 7) 9 ≡ (matches nat_less 7 9 || has nat_less sample 9))
add-IsSorted_example = add-IsSorted nat_less sample 7 9 sample-IsSorted

erase_greater_example : erase nat_less sample 3 ≡ some (2 ∷ 9 ∷ [])
unfolding nat_less
erase_greater_example = erase_greater nat_less (2 ∷ []) (9 ∷ []) 5 3 (refl, tt) refl sample-IsSorted

find-linear_search_example :
    (bisect nat_less sample 5 ≡ linear_search nat_less sample 5)
    × (find nat_less sample 5 ≡ linear_search nat_less sample 5)
    × (contains nat_less sample 5 ≡ has nat_less sample 5)
find-linear_search_example = find-linear_search nat_less sample 5 sample-IsSorted
