-- ===== src/Tree/Tests.antt =====
-- The search tree at concrete inputs.
use libtxl.Prelude.{ℕ, [], ◌∷◌, ◌≡◌, refl, arith}
use libtxl.Prelude.Order.{nat_less}
use libtxl.Tree.Defs.{Tree, leaf, node, emplace, remove, remove_node, min_value}
use libtxl.Tree.Inorder.{to_list, IsOrdered, insert, erase}
use libtxl.Tree.Order.{emplace-IsOrdered}
use libtxl.Tree.Remove.{remove-IsOrdered}

-- 5 with 3 and 8 below it, and 7 below 8.
abbrev sample : Tree ℕ ℕ
sample = node (node leaf 3 30 leaf) 5 50 (node (node leaf 7 70 leaf) 8 80 leaf)

sample-IsOrdered : IsOrdered nat_less sample
unfolding nat_less
sample-IsOrdered = ground arith

remove_root : to_list (remove nat_less sample 5) ≡ (3, 30) ∷ (7, 70) ∷ (8, 80) ∷ []
unfolding remove remove_node min_value to_list nat_less
remove_root = refl

emplace-IsOrdered_example :
    IsOrdered nat_less (emplace nat_less sample 4 40)
    × (to_list (emplace nat_less sample 4 40) ≡ insert nat_less (to_list sample) 4 40)
emplace-IsOrdered_example = emplace-IsOrdered nat_less sample 4 40 sample-IsOrdered

remove-IsOrdered_example :
    IsOrdered nat_less (remove nat_less sample 5)
    × (to_list (remove nat_less sample 5) ≡ erase nat_less (to_list sample) 5)
remove-IsOrdered_example = remove-IsOrdered nat_less sample 5 sample-IsOrdered
