-- ===== src/Tree/Remove.antt =====
-- `remove` and `min_value` of include/txl/tree.h.
use mathlib.Core.List.{append-nil}
use mathlib.Core.Path.{subst}
use libtxl.Prelude.{
  true, false, some, List, [], ◌∷◌, ◌++◌, ◌≡◌, refl, sym, ap, ◌∙◌, Bool-cases, inl, inr,
}
use libtxl.Prelude.Order.{
  Less, same, not_less_trans, less_asym, less-not_less, same_of_greater, same_of_neither,
}
use libtxl.Tree.Defs.{Tree, leaf, node, min_value, remove_node, remove}
use libtxl.Tree.Inorder.{to_list, AllKeys, IsOrdered, erase}
use libtxl.Tree.Order.{AllEntries, AllEntries-append, AllEntries-to_list, AllEntries-mono}
use libtxl.Tree.Find.{left_differs, right_differs}

module _ {K V : Type 0} where
  AllEntries-split :
      (P : K → Type 0) (xs ys : List (K × V))
      → AllEntries P (xs ++ ys)
      → AllEntries P xs × AllEntries P ys
  AllEntries-split P [] ys a = (tt, a)
  AllEntries-split P ((k, v) ∷ xs) ys a = let (b, c) = AllEntries-split P xs ys a.1 in ((a.0, b), c)

  AllKeys-of_entries : (P : K → Type 0) (t : Tree K V) → AllEntries P (to_list t) → AllKeys P t
  unfolding to_list
  AllKeys-of_entries P leaf a = tt
  AllKeys-of_entries P (node l k v r) a =
      let (b, c) = AllEntries-split P (to_list l) ((k, v) ∷ to_list r) a in
      (c.0, AllKeys-of_entries P l b, AllKeys-of_entries P r c.1)

  -- A property of all keys passes to the tree without its smallest entry, and to that entry.
  AllKeys-min :
      (P : K → Type 0) (t t' : Tree K V) {m : K} {y : V}
      → to_list t ≡ (m, y) ∷ to_list t'
      → AllKeys P t
      → P m × AllKeys P t'
  AllKeys-min P t t' e a =
      let b = subst (AllEntries P) e (AllEntries-to_list P t a) in
      (b.0, AllKeys-of_entries P t' b.1)

  module _ (o : Less K) where
    open o use {less}

    record IsLowest (t : Tree K V) (m : K) (y : V) (t' : Tree K V) : Type 0 where
      found : min_value t ≡ some ((m, y), t')
      listed : to_list t ≡ (m, y) ∷ to_list t'
      ordered : IsOrdered o t → IsOrdered o t' × AllKeys (λ x. less x m ≡ false) t'

    min_value-IsLowest :
        (l : Tree K V) (k : K) (v : V) (r : Tree K V)
        → (m : K) × (y : V) × (t' : Tree K V) × IsLowest (node l k v r) m y t'
    unfolding min_value to_list
    min_value-IsLowest leaf k v r =
        (k, v, r, record { found = refl; listed = refl; ordered = λ s. (s.3, s.1) })
    min_value-IsLowest (node a i w b) k v r =
        let (m, y, l, h) = min_value-IsLowest a i w b in
        (
          m,
          y,
          node l k v r,
          record {
            found = rw (h.found, min_value) refl;
            listed = ap (λ xs. xs ++ ((k, v) ∷ to_list r)) h.listed;
            ordered = λ s.
                let (below, left_ok) =
                  AllKeys-min (λ x. less x k ≡ true) (node a i w b) l h.listed s.0 in
                let (l_ok, above) = h.ordered s.2 in
                (
                  (left_ok, s.1, l_ok, s.3),
                  (
                    less_asym o m k below,
                    above,
                    AllKeys-of_entries (λ x. less x m ≡ false) r
                        (AllEntries-mono (to_list r)
                          (λ x p. not_less_trans o m k x (less_asym o m k below) p)
                          (AllEntries-to_list (λ x. less x k ≡ false) r s.1)),
                  ),
                );
          },
        )

    remove_node_lem :
        (l : Tree K V) (k : K) (v : V) (r : Tree K V)
        → IsOrdered o (node l k v r)
        → IsOrdered o (remove_node l k v r)
          × (to_list (remove_node l k v r) ≡ to_list l ++ to_list r)
    unfolding remove_node to_list
    remove_node_lem leaf k v r s = (s.3, refl)
    remove_node_lem (node a i w b) k v leaf s = (s.2, sym (append-nil (to_list (node a i w b))))
    remove_node_lem (node a i w b) k v (node c j x d) s =
        let (m, y, r, h) = min_value-IsLowest c j x d in
        let (above, _) = AllKeys-min (λ z. less z k ≡ false) (node c j x d) r h.listed s.1 in
        let (r_ok, r_above) = h.ordered s.3 in
        rw (h.found, remove_node)
          (
            (
              AllKeys-of_entries (λ z. less z m ≡ true) (node a i w b)
                  (AllEntries-mono (to_list (node a i w b)) (λ z p. less-not_less o z k m p above)
                    (AllEntries-to_list (λ z. less z k ≡ true) (node a i w b) s.0)),
              r_above,
              s.2,
              r_ok,
            ),
            ap (λ xs. to_list (node a i w b) ++ xs) (sym h.listed),
          )

    AllKeys-remove_node :
        (P : K → Type 0) (l : Tree K V) (k : K) (v : V) (r : Tree K V)
        → IsOrdered o (node l k v r)
        → AllKeys P l
        → AllKeys P r
        → AllKeys P (remove_node l k v r)
    AllKeys-remove_node P l k v r s a b = AllKeys-of_entries P (remove_node l k v r) (
        subst (AllEntries P) (sym (remove_node_lem l k v r s).1) (
          AllEntries-append P (to_list l) (to_list r) (AllEntries-to_list P l a)
            (AllEntries-to_list P r b)))

    AllKeys-remove :
        (P : K → Type 0) (t : Tree K V) (key : K)
        → IsOrdered o t
        → AllKeys P t
        → AllKeys P (remove o t key)
    unfolding remove
    AllKeys-remove P leaf key s a = tt
    AllKeys-remove P (node l k v r) key s a = elim (Bool-cases (less key k)) [
      | inl e ↦ rw e (a.0, AllKeys-remove P l key s.2 a.1, a.2)
      | inr e ↦ rw e (elim (Bool-cases (less k key)) [
        | inl f ↦ rw f (a.0, a.1, AllKeys-remove P r key s.3 a.2)
        | inr f ↦ rw f (AllKeys-remove_node P l k v r s a.1 a.2)
      ])
    ]

    remove-IsOrdered_lem : (t : Tree K V) (key : K) → IsOrdered o t → IsOrdered o (remove o t key)
    unfolding remove
    remove-IsOrdered_lem leaf key s = tt
    remove-IsOrdered_lem (node l k v r) key s = elim (Bool-cases (less key k)) [
      | inl e ↦ rw e (
        AllKeys-remove (λ x. less x k ≡ true) l key s.2 s.0,
        s.1,
        remove-IsOrdered_lem l key s.2,
        s.3,
      )
      | inr e ↦ rw e (elim (Bool-cases (less k key)) [
        | inl f ↦ rw f (
          s.0,
          AllKeys-remove (λ x. less x k ≡ false) r key s.3 s.1,
          s.2,
          remove-IsOrdered_lem r key s.3,
        )
        | inr f ↦ rw f (remove_node_lem l k v r s).0
      ])
    ]

    erase-append :
        (xs ys : List (K × V)) (key : K)
        → AllEntries (λ x. same o key x ≡ false) xs
        → erase o (xs ++ ys) key ≡ xs ++ erase o ys key
    unfolding erase
    erase-append [] ys key a = refl
    erase-append ((k, v) ∷ xs) ys key a = rw a.0 (ap (◌∷◌ (k, v)) (erase-append xs ys key a.1))

    erase_absent :
        (xs : List (K × V)) (key : K)
        → AllEntries (λ x. same o key x ≡ false) xs
        → erase o xs key ≡ xs
    unfolding erase
    erase_absent [] key a = refl
    erase_absent ((k, v) ∷ xs) key a = rw a.0 (ap (◌∷◌ (k, v)) (erase_absent xs key a.1))

    erase-append_left :
        (xs ys : List (K × V)) (key : K)
        → AllEntries (λ x. same o key x ≡ false) ys
        → erase o (xs ++ ys) key ≡ erase o xs key ++ ys
    unfolding erase
    erase-append_left [] ys key a = erase_absent ys key a
    erase-append_left ((k, v) ∷ xs) ys key a = elim (Bool-cases (same o key k)) [
      | inl e ↦ rw e
      | inr e ↦ rw e (ap (◌∷◌ (k, v)) (erase-append_left xs ys key a))
    ]

    to_list-remove :
        (t : Tree K V) (key : K)
        → IsOrdered o t
        → to_list (remove o t key) ≡ erase o (to_list t) key
    unfolding remove to_list
    to_list-remove leaf key s = unfold erase in refl
    to_list-remove (node l k v r) key s = elim (Bool-cases (less key k)) [
      | inl e ↦
          rw
            (
              e,
              erase-append_left (to_list l) ((k, v) ∷ to_list r) key
                  (right_differs o k v r key e s.1),
            )
            (ap (λ xs. xs ++ ((k, v) ∷ to_list r)) (to_list-remove l key s.2))
      | inr e ↦
          rw (e, erase-append (to_list l) ((k, v) ∷ to_list r) key (left_differs o k l key e s.0))
            (elim (Bool-cases (less k key)) [
              | inl f ↦ rw f (
                  ap (λ xs. to_list l ++ xs)
                    (ap (◌∷◌ (k, v)) (to_list-remove r key s.3) ∙ sym (kept f)))
              | inr f ↦
                  rw f ((remove_node_lem l k v r s).1 ∙ ap (λ xs. to_list l ++ xs) (sym (gone e f)))
            ])
    ]
      where
        kept :
            less k key ≡ true → erase o ((k, v) ∷ to_list r) key ≡ (k, v) ∷ erase o (to_list r) key
        kept f = unfold erase in rw (same_of_greater o key k f)

        gone :
            less key k ≡ false → less k key ≡ false → erase o ((k, v) ∷ to_list r) key ≡ to_list r
        gone e f = unfold erase in rw (same_of_neither o key k e f)

    -- `remove` keeps the order of the tree, and takes the first entry with an equal key out of its
    -- ordered list; all other entries stay.
    pub remove-IsOrdered :
        (t : Tree K V) (key : K)
        → IsOrdered o t
        → IsOrdered o (remove o t key) × (to_list (remove o t key) ≡ erase o (to_list t) key)
    remove-IsOrdered t key s = (remove-IsOrdered_lem t key s, to_list-remove t key s)
