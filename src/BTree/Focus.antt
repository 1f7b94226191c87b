-- ===== src/BTree/Focus.antt =====
-- Where `remove_from` of include/txl/btree.h goes on in a node, and what it finds in a leaf.
use libtxl.Prelude.{
  ℕ, zero, suc, ◌+◌, ◌≤◌, ◌≡◌, ◌≢◌, true, false, Bool-cases, inl, inr, refl, sym, ap, ◌∙◌, ◌⊎◌,
  none, some, List, [], ◌∷◌, ◌++◌, length, arith,
}
use libtxl.BTree.Key.{Key, less_of_not, ne-equal, less_ne}
use libtxl.BTree.Sorted.{
  All_right, Below, Above-trans, Below-Absent, Above-Absent, Absent, IsSorted, IsSorted_right,
  IsSorted-Parts, delete, delete-left, delete-right, delete-Absent,
}
use libtxl.BTree.Defs.{
  Node, node, Children, nil, child, values, num_children, index_of, found_at, children, null,
}
use libtxl.BTree.Rebalance.{erase_at}
use libtxl.BTree.Remove.{RemoveResult, not_found, removed, remove_from, remove_from_child}
use libtxl.BTree.Entries.{entries, AllNull, IsFormed, leaf, AreFormed}
use libtxl.BTree.Find.{weave-AllNull, AllNull-leaf}
use libtxl.BTree.Balanced.{Lone}
use libtxl.BTree.Zipper.{at, before, behind, flat, PreFormed}

module _ {K V : Type 0} (o : Key K) (k : K) where
  open o use {less, equal}

  -- The key in the values of a leaf
  pub leaf_erased :
      (vs : List (K × V))
      → IsSorted o vs
      → ((found_at o vs (index_of o vs k) k ≡ none) × (delete o k vs ≡ vs))
        ⊎ ((x : V) × (found_at o vs (index_of o vs k) k ≡ some x)
            × (erase_at (index_of o vs k) vs ≡ some (delete o k vs))
            × (length (delete o k vs) ≤ length vs))
  unfolding delete
  leaf_erased [] s = inl (refl, refl)
  leaf_erased (v ∷ vs) (a, s) = elim (Bool-cases (less v.0 k)) [
    | inl p ↦
        let different = ne-equal o v.0 k (less_ne o v.0 k p) in
        elim (leaf_erased vs s) [
          | inl e ↦ inl (rw (p) e.0, rw (different) (ap (λ ws. v ∷ ws) e.1))
          | inr e ↦
              inr
                (e.0, rw (p) e.1, rw (p, different, e.2) refl, rw (different) (omega (arith, e.3)))
        ]
    | inr p ↦ elim (Bool-cases (equal v.0 k)) [
      | inl e ↦ inr (v.1, rw (p, e) refl, rw (p, e) refl, rw (e) (omega arith))
      | inr e ↦
          let ne : v.0 ≢ k = λ q. absurd (cc ((o.equal_iff v.0 k).1 q)) in
          inl (
            rw (p, e) refl,
            delete-Absent o k (v ∷ vs)
                (ne, Above-Absent o k vs (Above-trans o k v.0 vs (less_of_not o v.0 k p ne) a)),
          )
    ]
  ]

  pub index_of-behind :
      (ps : List (Node K V × (K × V))) (vs : List (K × V))
      → Below o k (flat ps)
      → index_of o (behind ps vs) k ≡ at ps (index_of o vs k)
  unfolding flat
  index_of-behind [] vs low = refl
  index_of-behind ((n, v) ∷ ps) vs low =
      let b : (less v.0 k ≡ true) × Below o k (flat ps) =
        All_right (λ e. less e.0 k ≡ true) (entries n) (v ∷ flat ps) low in
      rw (b.0) (ap suc (index_of-behind ps vs b.1))

  pub found_at-behind :
      (ps : List (Node K V × (K × V))) (vs : List (K × V)) (j : ℕ)
      → found_at o (behind ps vs) (at ps j) k ≡ found_at o vs j k
  found_at-behind [] vs j = refl
  found_at-behind ((n, v) ∷ ps) vs j = found_at-behind ps vs j

  pub delete-mid :
      (xs es : List (K × V)) (v : K × V) (ys : List (K × V))
      → Below o k xs
      → less v.0 k ≡ false
      → equal v.0 k ≡ false
      → IsSorted o (xs ++ (es ++ (v ∷ ys)))
      → delete o k (xs ++ (es ++ (v ∷ ys))) ≡ xs ++ (delete o k es ++ (v ∷ ys))
  delete-mid xs es v ys low stop other s =
      let ne : v.0 ≢ k = λ q. absurd (cc ((o.equal_iff v.0 k).1 q, other)) in
      let p = IsSorted-Parts o es v ys (IsSorted_right o xs (es ++ (v ∷ ys)) s) in
      let absent : Absent o k (v ∷ ys) =
        (ne, Above-Absent o k ys (Above-trans o k v.0 ys (less_of_not o v.0 k stop ne) p.above)) in
      delete-left o k xs (es ++ (v ∷ ys)) (Below-Absent o k xs low)
      ∙ ap (λ zs. xs ++ zs) (delete-right o k es (v ∷ ys) absent)

  pub delete-found :
      (xs es : List (K × V)) (v : K × V) (ys : List (K × V))
      → Below o k xs
      → equal v.0 k ≡ true
      → IsSorted o (xs ++ (es ++ (v ∷ ys)))
      → delete o k (xs ++ (es ++ (v ∷ ys))) ≡ xs ++ (es ++ ys)
  unfolding delete
  delete-found xs es v ys low same s =
      let p = IsSorted-Parts o es v ys (IsSorted_right o xs (es ++ (v ∷ ys)) s) in
      let low_es : Below o k es = rw (sym ((o.equal_iff v.0 k).0 same)) p.below in
      let first : delete o k (v ∷ ys) ≡ ys = rw (same) refl in
      delete-left o k xs (es ++ (v ∷ ys)) (Below-Absent o k xs low)
      ∙ ap (λ zs. xs ++ zs)
          (delete-left o k es (v ∷ ys) (Below-Absent o k es low_es) ∙ ap (λ zs. es ++ zs) first)

module _ {K V : Type 0} (o : Key K) (degree : ℕ) (k : K) where
  open o use {less, equal}

  pub remove_from_child-before :
      (ps : List (Node K V × (K × V))) (cs : Children K V) (j : ℕ)
      → remove_from_child o degree (before ps cs) (at ps j) k ≡ remove_from_child o degree cs j k
  unfolding remove_from
  remove_from_child-before [] cs j = refl
  remove_from_child-before ((n, v) ∷ ps) cs j = remove_from_child-before ps cs j

  -- What `remove_from` returns: the node without the key
  pub record Removed (h margin : ℕ) (n : Node K V) : Type 0 where
    pub to : Node K V
    pub res : RemoveResult
    pub result : remove_from o degree n k ≡ some (to, res)
    pub formed : IsFormed h margin to
    pub same : entries to ≡ delete o k (entries n)
    pub unchanged : res.rebalance_after ≡ false → to ≡ n
    pub lone : Lone (children to)

  -- What `remove_from` returns for a leaf, whose children it keeps
  pub record LeafRemoved (cs : Children K V) (vs : List (K × V)) : Type 0 where
    pub res : RemoveResult
    pub result : remove_from o degree (node cs vs) k ≡ some (node cs (delete o k vs), res)
    pub smaller : length (delete o k vs) ≤ length vs
    pub unchanged : res.rebalance_after ≡ false → delete o k vs ≡ vs

  pub leaf-LeafRemoved :
      (cs : Children K V) (vs : List (K × V)) → AllNull cs → IsSorted o vs → LeafRemoved cs vs
  unfolding remove_from
  leaf-LeafRemoved cs vs g s =
      let is_leaf_eq = AllNull-leaf cs g in
      elim (leaf_erased o k vs s) [
        | inl e ↦ record {
          res = not_found;
          result = rw (remove_from, is_leaf_eq, e.0, e.1) refl;
          smaller = rw (e.1) (omega arith);
          unchanged = λ q. e.1;
        }
        | inr e ↦ record {
          res = removed;
          result = rw (remove_from, is_leaf_eq, e.1, e.2) refl;
          smaller = e.3;
          unchanged = λ q. absurd (cc q);
        }
      ]

  AllNull-Lone : (cs : Children K V) → AllNull cs → Lone cs
  AllNull-Lone nil g = tt
  AllNull-Lone (null cs) g = tt
  AllNull-Lone (child n cs) g = elim g [ ]

  pub leaf-Removed :
      (margin : ℕ) (cs : Children K V) (vs : List (K × V))
      → AllNull cs
      → length vs + margin ≤ num_children cs
      → IsSorted o vs
      → Removed zero margin (node cs vs)
  unfolding entries
  leaf-Removed margin cs vs g room s =
      let r = leaf-LeafRemoved cs vs g s in
      record {
        to = node cs (delete o k vs);
        res = r.res;
        result = r.result;
        formed = leaf margin cs (delete o k vs) g (omega (arith, room, r.smaller));
        same =
            weave-AllNull cs (delete o k vs) g
            ∙ ap (λ es. delete o k es) (sym (weave-AllNull cs vs g));
        unchanged = λ q. ap (λ ws. node cs ws) (r.unchanged q);
        lone = AllNull-Lone cs g;
      }

  -- The child with the key, if it has a value behind it that is not below the key
  pub record FocusMid (h margin : ℕ) (cs : Children K V) (vs : List (K × V)) : Type 0 where
    pub ps : List (Node K V × (K × V))
    pub n : Node K V
    pub v : K × V
    pub next : Node K V
    pub rest : Children K V
    pub ws : List (K × V)
    pub last_margin : ℕ
    pub children_eq : cs ≡ before ps (child n (child next rest))
    pub values_eq : vs ≡ behind ps (v ∷ ws)
    pub pre : PreFormed h ps
    pub formed : IsFormed h 1 n
    pub big : 1 ≤ length (values n)
    pub formed_next : IsFormed h last_margin next
    pub big_next : 1 ≤ length (values next)
    pub tail :
        (m : Node K V)
        → IsFormed h last_margin m
        → 1 ≤ length (values m)
        → AreFormed h margin (child m rest) ws
    pub low : Below o k (flat ps)
    pub stop : less v.0 k ≡ false
    pub inside : Removed h 1 n

  -- The child with the key, if it is the last one
  pub record FocusEnd (h margin : ℕ) (cs : Children K V) (vs : List (K × V)) : Type 0 where
    pub ps : List (Node K V × (K × V))
    pub n : Node K V
    pub children_eq : cs ≡ before ps (child n nil)
    pub values_eq : vs ≡ behind ps []
    pub pre : PreFormed h ps
    pub formed : IsFormed h margin n
    pub big : 1 ≤ length (values n)
    pub low : Below o k (flat ps)
    pub inside : Removed h margin n

  pub data Focus (h margin : ℕ) (cs : Children K V) (vs : List (K × V)) : Type 0 where
    mid : FocusMid h margin cs vs → Focus h margin cs vs
    end : FocusEnd h margin cs vs → Focus h margin cs vs
