-- ===== src/Tree/Inorder.antt =====
-- The contract of include/txl/tree.h: an association list in the order of its keys, in which a later
-- entry with an equal key stands behind the earlier ones.
use libtxl.Prelude.{true, false, Option, none, some, List, [], ◌∷◌, ◌++◌, if◌then◌else◌, ◌≡◌}
use libtxl.Prelude.Order.{Less, same}
use libtxl.Tree.Defs.{Tree, leaf, node}

module _ {K V : Type 0} where
  unfoldable pub to_list : Tree K V → List (K × V)
  to_list leaf = []
  to_list (node l k v r) = to_list l ++ ((k, v) ∷ to_list r)

  abbrev pub AllKeys : (K → Type 0) → Tree K V → Type 0
  AllKeys P leaf = Unit
  AllKeys P (node l k v r) = P k × AllKeys P l × AllKeys P r

  module _ (o : Less K) where
    open o use {less}

    -- Left of a node stand smaller keys, right of it keys that are not smaller.
    abbrev pub IsOrdered : Tree K V → Type 0
    IsOrdered leaf = Unit
    IsOrdered (node l k v r) =
        AllKeys (λ x. less x k ≡ true) l
        × AllKeys (λ x. less x k ≡ false) r
        × IsOrdered l
        × IsOrdered r

    -- The entry stands before the first one with a greater key.
    unfoldable pub insert : List (K × V) → K → V → List (K × V)
    insert [] key value = (key, value) ∷ []
    insert ((k, v) ∷ xs) key value =
        let later = (k, v) ∷ insert xs key value in
        if less key k then (key, value) ∷ (k, v) ∷ xs else later

    -- The first entry with an equal key.
    unfoldable pub first : List (K × V) → K → Option (K × V)
    first [] key = none
    first ((k, v) ∷ xs) key =
        let later = first xs key in if same o key k then some (k, v) else later

    unfoldable pub erase : List (K × V) → K → List (K × V)
    erase [] key = []
    erase ((k, v) ∷ xs) key =
        let later = (k, v) ∷ erase xs key in if same o key k then xs else later
