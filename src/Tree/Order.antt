-- ===== src/Tree/Order.antt =====
-- `emplace` of include/txl/tree.h keeps the order, and is insertion into the ordered list.
use libtxl.Prelude.{true, false, List, [], ◌∷◌, ◌++◌, ◌≡◌, refl, ap, ◌∙◌, Bool-cases, inl, inr}
use libtxl.Prelude.Order.{Less, not_less_trans, less_asym}
use libtxl.Tree.Defs.{Tree, leaf, node, emplace}
use libtxl.Tree.Inorder.{to_list, AllKeys, IsOrdered, insert}

module _ {K V : Type 0} where
  abbrev pub AllEntries : (K → Type 0) → List (K × V) → Type 0
  AllEntries P [] = Unit
  AllEntries P ((k, v) ∷ xs) = P k × AllEntries P xs

  pub AllEntries-append :
      (P : K → Type 0) (xs ys : List (K × V))
      → AllEntries P xs
      → AllEntries P ys
      → AllEntries P (xs ++ ys)
  AllEntries-append P [] ys a b = b
  AllEntries-append P ((k, v) ∷ xs) ys a b = (a.0, AllEntries-append P xs ys a.1 b)

  pub AllEntries-to_list : (P : K → Type 0) (t : Tree K V) → AllKeys P t → AllEntries P (to_list t)
  unfolding to_list
  AllEntries-to_list P leaf a = tt
  AllEntries-to_list P (node l k v r) a =
      AllEntries-append P (to_list l) ((k, v) ∷ to_list r) (AllEntries-to_list P l a.1)
        (a.0, AllEntries-to_list P r a.2)

  pub AllEntries-mono :
      {P Q : K → Type 0} (xs : List (K × V))
      → ((k : K) → P k → Q k)
      → AllEntries P xs
      → AllEntries Q xs
  AllEntries-mono [] f a = tt
  AllEntries-mono ((k, v) ∷ xs) f a = (f k a.0, AllEntries-mono xs f a.1)

  module _ (o : Less K) where
    open o use {less}

    AllKeys-emplace :
        (P : K → Type 0) (t : Tree K V) (key : K) (value : V)
        → P key
        → AllKeys P t
        → AllKeys P (emplace o t key value)
    unfolding emplace
    AllKeys-emplace P leaf key value p a = (p, tt, tt)
    AllKeys-emplace P (node l k v r) key value p a = elim (Bool-cases (less key k)) [
      | inl e ↦ rw e (a.0, AllKeys-emplace P l key value p a.1, a.2)
      | inr e ↦ rw e (a.0, a.1, AllKeys-emplace P r key value p a.2)
    ]

    emplace-IsOrdered_lem :
        (t : Tree K V) (key : K) (value : V) → IsOrdered o t → IsOrdered o (emplace o t key value)
    unfolding emplace
    emplace-IsOrdered_lem leaf key value s = (tt, tt, tt, tt)
    emplace-IsOrdered_lem (node l k v r) key value s = elim (Bool-cases (less key k)) [
      | inl e ↦ rw e (
        AllKeys-emplace (λ x. less x k ≡ true) l key value e s.0,
        s.1,
        emplace-IsOrdered_lem l key value s.2,
        s.3,
      )
      | inr e ↦ rw e (
        s.0,
        AllKeys-emplace (λ x. less x k ≡ false) r key value e s.1,
        s.2,
        emplace-IsOrdered_lem r key value s.3,
      )
    ]

    -- Entries that are not greater than the key are passed over.
    insert-append :
        (xs ys : List (K × V)) (key : K) (value : V)
        → AllEntries (λ x. less key x ≡ false) xs
        → insert o (xs ++ ys) key value ≡ xs ++ insert o ys key value
    unfolding insert
    insert-append [] ys key value a = refl
    insert-append ((k, v) ∷ xs) ys key value a =
        rw a.0 (ap (◌∷◌ (k, v)) (insert-append xs ys key value a.1))

    -- An entry with a greater key stops the walk.
    insert-append_before :
        (xs : List (K × V)) (k : K) (v : V) (ys : List (K × V)) (key : K) (value : V)
        → less key k ≡ true
        → insert o (xs ++ ((k, v) ∷ ys)) key value ≡ insert o xs key value ++ ((k, v) ∷ ys)
    unfolding insert
    insert-append_before [] k v ys key value e = rw e
    insert-append_before ((j, w) ∷ xs) k v ys key value e = elim (Bool-cases (less key j)) [
      | inl b ↦ rw b
      | inr b ↦ rw b (ap (◌∷◌ (j, w)) (insert-append_before xs k v ys key value e))
    ]

    to_list-emplace :
        (t : Tree K V) (key : K) (value : V)
        → IsOrdered o t
        → to_list (emplace o t key value) ≡ insert o (to_list t) key value
    unfolding emplace to_list
    to_list-emplace leaf key value s = unfold insert in refl
    to_list-emplace (node l k v r) key value s = elim (Bool-cases (less key k)) [
      | inl e ↦
          rw (e, insert-append_before (to_list l) k v (to_list r) key value e)
            (ap (λ xs. xs ++ ((k, v) ∷ to_list r)) (to_list-emplace l key value s.2))
      | inr e ↦
          rw (e, insert-append (to_list l) ((k, v) ∷ to_list r) key value (passed e))
            (ap (λ xs. to_list l ++ xs)
              (ap (◌∷◌ (k, v)) (to_list-emplace r key value s.3) ∙ at_node e))
    ]
      where
        passed : less key k ≡ false → AllEntries (λ x. less key x ≡ false) (to_list l)
        passed e =
            AllEntries-mono (to_list l) (λ x p. not_less_trans o x k key (less_asym o x k p) e)
              (AllEntries-to_list (λ x. less x k ≡ true) l s.0)

        at_node :
            less key k ≡ false
            → (k, v) ∷ insert o (to_list r) key value ≡ insert o ((k, v) ∷ to_list r) key value
        at_node e = unfold insert in rw e

    -- `emplace` keeps the order of the tree, and is insertion into its ordered list behind the
    -- entries with an equal key.
    pub emplace-IsOrdered :
        (t : Tree K V) (key : K) (value : V)
        → IsOrdered o t
        → IsOrdered o (emplace o t key value)
          × (to_list (emplace o t key value) ≡ insert o (to_list t) key value)
    emplace-IsOrdered t key value s =
        (emplace-IsOrdered_lem t key value s, to_list-emplace t key value s)
