-- ===== src/Tree/Find.antt =====
-- `find` of include/txl/tree.h.
use libtxl.Prelude.{
  true, false, none, some, List, [], ◌∷◌, ◌++◌, if◌then◌else◌, ◌≡◌, refl, arith, Bool-cases, inl,
  inr,
}
use libtxl.Prelude.Order.{Less, same, less-not_less, same_of_less, same_of_greater, same_of_neither}
use libtxl.Tree.Defs.{Tree, leaf, node, emplace, find}
use libtxl.Tree.Inorder.{to_list, AllKeys, IsOrdered, first}
use libtxl.Tree.Order.{AllEntries, AllEntries-to_list, AllEntries-mono}

module _ {K V : Type 0} (o : Less K) where
  open o use {less}

  pub first-append :
      (xs ys : List (K × V)) (key : K)
      → AllEntries (λ x. same o key x ≡ false) xs
      → first o (xs ++ ys) key ≡ first o ys key
  unfolding first
  first-append [] ys key a = refl
  first-append ((k, v) ∷ xs) ys key a = rw a.0 (first-append xs ys key a.1)

  first-none :
      (xs : List (K × V)) (key : K)
      → AllEntries (λ x. same o key x ≡ false) xs
      → first o xs key ≡ none
  unfolding first
  first-none [] key a = refl
  first-none ((k, v) ∷ xs) key a = rw a.0 (first-none xs key a.1)

  first-append_left :
      (xs ys : List (K × V)) (key : K)
      → AllEntries (λ x. same o key x ≡ false) ys
      → first o (xs ++ ys) key ≡ first o xs key
  unfolding first
  first-append_left [] ys key a = first-none ys key a
  first-append_left ((k, v) ∷ xs) ys key a = rw (first-append_left xs ys key a)

  -- Below a greater key, the node and what stands right of it do not match.
  pub right_differs :
      (k : K) (v : V) (r : Tree K V) (key : K)
      → less key k ≡ true
      → AllKeys (λ x. less x k ≡ false) r
      → AllEntries (λ x. same o key x ≡ false) ((k, v) ∷ to_list r)
  right_differs k v r key e a = (
    same_of_less o key k e,
    AllEntries-mono (to_list r) (λ x p. same_of_less o key x (less-not_less o key k x e p))
        (AllEntries-to_list (λ x. less x k ≡ false) r a),
  )

  -- Not below the node's key, what stands left of it does not match.
  pub left_differs :
      (k : K) (l : Tree K V) (key : K)
      → less key k ≡ false
      → AllKeys (λ x. less x k ≡ true) l
      → AllEntries (λ x. same o key x ≡ false) (to_list l)
  left_differs k l key e a =
      AllEntries-mono (to_list l) (λ x p. same_of_greater o key x (less-not_less o x k key p e))
        (AllEntries-to_list (λ x. less x k ≡ true) l a)

  -- In an ordered tree `find` returns the first entry of the ordered list with an equal key.
  pub find-first : (t : Tree K V) (key : K) → IsOrdered o t → find o t key ≡ first o (to_list t) key
  unfolding find to_list first
  find-first leaf key s = unfold first in refl
  find-first (node l k v r) key s = elim (Bool-cases (less key k)) [
    | inl e ↦
        rw
          (
            e,
            first-append_left (to_list l) ((k, v) ∷ to_list r) key (right_differs k v r key e s.1),
          )
          (find-first l key s.2)
    | inr e ↦
        rw (e, first-append (to_list l) ((k, v) ∷ to_list r) key (left_differs k l key e s.0))
          (elim (Bool-cases (less k key)) [
            | inl f ↦ rw (f, first, same_of_greater o key k f) (find-first r key s.3)
            | inr f ↦ rw (f, first, same_of_neither o key k e f)
          ])
  ]

  -- After `emplace`, a key that was found is found as before, and the new key is found if no equal
  -- key was there, in any tree.
  pub find-emplace :
      (t : Tree K V) (key j : K) (value : V)
      → find o (emplace o t key value) j ≡ (elim (find o t j) [
        | some e ↦ some e
        | none ↦ if same o j key then some (key, value) else none
      ])
  unfolding find emplace
  find-emplace leaf key j value =
      ground (arith, same_of_less o j key, same_of_greater o j key, same_of_neither o j key)
  find-emplace (node l k v r) key j value = ground (
    arith,
    find-emplace l key j value,
    find-emplace r key j value,
    same_of_less o j key,
    same_of_greater o j key,
    less-not_less o key k j,
    less-not_less o j k key,
  )
