-- ===== src/BTree/Find.antt =====
-- `find` of include/txl/btree.h is the lookup in the ordered entries.
use libtxl.Prelude.{
  ℕ, ◌≡◌, ◌≢◌, true, Bool-cases, refl, sym, ap, inl, inr, Option, none, some, List, [], ◌∷◌, ◌++◌,
  append-nil,
}
use libtxl.BTree.Key.{Key, less_of_not, less_ne, ne-equal}
use libtxl.BTree.Sorted.{
  Below, IsSorted, lookup, lookup-left, lookup-right, lookup-Absent, IsSorted-Parts, Above-trans,
  Below-trans, Above-Absent, Below-Absent,
}
use libtxl.BTree.Defs.{
  Node, Children, nil, null, child, index_of, found_at, or_below, is_leaf, find, find_child,
}
use libtxl.BTree.Entries.{entries, weave, AllNull, IsFormed, leaf, inner, AreFormed, last, more}

module _ {K V : Type 0} where
  pub weave-AllNull : (cs : Children K V) (vs : List (K × V)) → AllNull cs → weave cs vs ≡ vs
  unfolding entries
  weave-AllNull nil vs h = refl
  weave-AllNull (null cs) [] h = weave-AllNull cs [] h
  weave-AllNull (null cs) (v ∷ vs) h = ap (λ ws. v ∷ ws) (weave-AllNull cs vs h)
  weave-AllNull (child n cs) vs h = elim h [ ]

  pub AllNull-leaf : (cs : Children K V) → AllNull cs → is_leaf cs ≡ true
  AllNull-leaf nil h = refl
  AllNull-leaf (null cs) h = refl
  AllNull-leaf (child n cs) h = elim h [ ]

module _ {K V : Type 0} (o : Key K) (k : K) where
  open o use {less, equal}

  found-lookup :
      (vs : List (K × V)) → IsSorted o vs → found_at o vs (index_of o vs k) k ≡ lookup o k vs
  unfolding lookup
  found-lookup [] s = refl
  found-lookup (v ∷ vs) (a, s) = elim (Bool-cases (less v.0 k)) [
    | inl p ↦ rw (p, ne-equal o v.0 k (less_ne o v.0 k p)) (found-lookup vs s)
    | inr p ↦ elim (Bool-cases (equal v.0 k)) [
      | inl e ↦ rw (p, e) refl
      | inr e ↦
          let ne : v.0 ≢ k = λ q. absurd (cc ((o.equal_iff v.0 k).1 q)) in
          rw (p, e)
            (sym (
              lookup-Absent o k vs
                (Above-Absent o k vs (Above-trans o k v.0 vs (less_of_not o v.0 k p ne) a))))
    ]
  ]

  or_below-none : (x : Option V) → or_below o x (some none) ≡ some x
  or_below-none none = refl
  or_below-none (some v) = refl

  mutual
    unfolding find entries lookup

    find_formed :
        (h margin : ℕ) (n : Node K V)
        → IsFormed h margin n
        → IsSorted o (entries n)
        → find o n k ≡ some (lookup o k (entries n))
    find_formed h margin n (leaf _ cs vs all_null room) s =
        let own : weave cs vs ≡ vs = weave-AllNull cs vs all_null in
        let s' : IsSorted o vs = rw (sym own) s in
        rw (AllNull-leaf cs all_null, own, found-lookup vs s') (or_below-none (lookup o k vs))
    find_formed h margin n (inner g _ m cs vs formed) s =
        find_child_formed g margin (child m cs) vs formed s

    find_child_formed :
        (h margin : ℕ) (cs : Children K V) (vs : List (K × V))
        → AreFormed h margin cs vs
        → IsSorted o (weave cs vs)
        → or_below o (found_at o vs (index_of o vs k) k) (find_child o cs (index_of o vs k) k)
          ≡ some (lookup o k (weave cs vs))
    find_child_formed h margin cs vs (last _ _ n f big) s =
        let own : entries n ++ [] ≡ entries n = append-nil (entries n) in
        rw (own) (find_formed h margin n f (rw (sym own) s))
    find_child_formed h margin cs vs (more _ _ n ds v ws f big fs) s =
        let p = IsSorted-Parts o (entries n) v (weave ds ws) s in
        elim (Bool-cases (less v.0 k)) [
          | inl l ↦
              let skipped =
                lookup-left o k (entries n) (v ∷ weave ds ws)
                  (Below-Absent o k (entries n) (Below-trans o v.0 k (entries n) l p.below)) in
              rw (l, skipped, ne-equal o v.0 k (less_ne o v.0 k l))
                (find_child_formed h margin ds ws fs p.right)
          | inr l ↦ elim (Bool-cases (equal v.0 k)) [
            | inl e ↦
                let same : v.0 ≡ k = (o.equal_iff v.0 k).0 e in
                let below : Below o k (entries n) = rw (sym same) p.below in
                rw
                  (
                    l,
                    e,
                    lookup-left o k (entries n) (v ∷ weave ds ws)
                        (Below-Absent o k (entries n) below),
                  )
                  (rw (e) refl)
            | inr e ↦
                let ne : v.0 ≢ k = λ q. absurd (cc ((o.equal_iff v.0 k).1 q)) in
                let g = less_of_not o v.0 k l ne in
                let above =
                  Above-Absent o k (weave ds ws) (Above-trans o k v.0 (weave ds ws) g p.above) in
                rw (l, e, lookup-right o k (entries n) (v ∷ weave ds ws) (ne, above))
                  (find_formed h 1 n f p.left)
          ]
        ]

  pub find-IsFormed :
      (h margin : ℕ) (n : Node K V)
      → IsFormed h margin n
      → IsSorted o (entries n)
      → find o n k ≡ some (lookup o k (entries n))
  find-IsFormed h margin n f s = find_formed h margin n f s
