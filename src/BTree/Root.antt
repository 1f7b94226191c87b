-- ===== src/BTree/Root.antt =====
-- `insert` and `find` of the whole tree of include/txl/btree.h.
use libtxl.Prelude.{
  ℕ, zero, suc, ◌≤◌, ◌≡◌, Bool, true, false, refl, sym, ap, ◌∙◌, Option, none, some, List, [], ◌∷◌,
  ◌++◌, append-nil, length, arith,
}
use libtxl.BTree.Key.{Key}
use libtxl.BTree.Sorted.{IsSorted, Absent, put, put-IsSorted, lookup}
use libtxl.BTree.Defs.{
  Node, node, Children, nil, null, child, values, num_children, find_root, insert_into, split_into,
  root_of, grown, insert, children,
}
use libtxl.BTree.Entries.{entries, AllNull, IsFormed, leaf, inner, AreFormed, last, more}
use libtxl.BTree.Find.{weave-AllNull, find-IsFormed, AllNull-leaf}
use libtxl.BTree.Split.{AreFormed-IsFormed, halves-IsHalved, AreFormed-num_children}
use libtxl.BTree.Inserted.{Inserted}
use libtxl.BTree.Slots.{length-put}
use libtxl.BTree.Insert.{insert_into_leaf-Inserted}

module _ {K V : Type 0} where
  -- A root that has children has a value too.
  pub data IsTree : Option (Node K V) → Type 0 where
    no_root : IsTree none
    leaf_root :
        (cs : Children K V) (vs : List (K × V))
        → AllNull cs
        → length vs ≤ num_children cs
        → IsTree (some (node cs vs))
    inner_root :
        (h : ℕ) (n : Node K V) (cs : Children K V) (vs : List (K × V))
        → AreFormed h zero (child n cs) vs
        → 1 ≤ length vs
        → IsTree (some (node (child n cs) vs))

  abbrev pub tree_entries : Option (Node K V) → List (K × V)
  tree_entries none = []
  tree_entries (some n) = entries n

  -- Whether `remove` keeps the root: not when its `children` are one null pointer
  abbrev pub keeps_root : Option (Node K V) → Bool
  keeps_root (some (node (null nil) vs)) = false
  keeps_root root = true

  abbrev pub slots : Option (Node K V) → ℕ
  slots none = 0
  slots (some n) = num_children (children n)

  pub slots-keeps_root : (root : Option (Node K V)) → 2 ≤ slots root → keeps_root root ≡ true
  slots-keeps_root none h = refl
  slots-keeps_root (some (node nil vs)) h = refl
  slots-keeps_root (some (node (null nil) vs)) h = absurd (omega (arith, h))
  slots-keeps_root (some (node (null (null cs)) vs)) h = refl
  slots-keeps_root (some (node (null (child m cs)) vs)) h = refl
  slots-keeps_root (some (node (child m cs) vs)) h = refl

  pub slots-IsFormed :
      (h : ℕ) (n : Node K V) → IsFormed h zero n → length (values n) ≤ num_children (children n)
  slots-IsFormed h n (leaf _ cs vs g room) = omega (arith, room)
  slots-IsFormed h n (inner g _ m cs vs f) = omega (arith, AreFormed-num_children f)

  inner_slots :
      (h : ℕ) (n : Node K V)
      → IsFormed (suc h) zero n
      → num_children (children n) ≡ suc (length (values n))
  inner_slots h n (inner _ _ m cs vs f) = AreFormed-num_children f

  pub IsFormed-IsTree :
      (h : ℕ) (n : Node K V) → IsFormed h zero n → 1 ≤ length (values n) → IsTree (some n)
  IsFormed-IsTree h n (leaf _ cs vs g room) big = leaf_root cs vs g (omega (arith, room))
  IsFormed-IsTree h n (inner g _ m cs vs f) big = inner_root g m cs vs f big

module _ {K V : Type 0} (o : Key K) where
  -- The tree is well-formed and holds these entries, in order.
  pub record IsBTree (root : Option (Node K V)) (es : List (K × V)) : Type 0 where
    pub tree : IsTree root
    pub sorted : IsSorted o es
    pub same : tree_entries root ≡ es

  root_find :
      (root : Option (Node K V)) (k : K)
      → IsTree root
      → IsSorted o (tree_entries root)
      → find_root o root k ≡ some (lookup o k (tree_entries root))
  unfolding lookup
  root_find root k no_root s = refl
  root_find root k (leaf_root cs vs g room) s =
      find-IsFormed o k zero zero (node cs vs) (leaf zero cs vs g (omega (arith, room))) s
  root_find root k (inner_root h n cs vs f big) s =
      find-IsFormed o k (suc h) zero (node (child n cs) vs) (AreFormed-IsFormed f) s

  -- `find` returns what a lookup in the entries finds, and no access of it is out of range.
  pub find_root-IsBTree :
      {root : Option (Node K V)} {es : List (K × V)} (k : K)
      → IsBTree root es
      → find_root o root k ≡ some (lookup o k es)
  find_root-IsBTree {root} {es} k t =
      rw (sym t.same) (root_find root k t.tree (rw (t.same) t.sorted))

  -- A tree with these entries, as a result
  pub record Becomes (root result : Option (Node K V)) (es : List (K × V)) : Type 0 where
    pub to : Node K V
    pub result_eq : result ≡ some to
    pub holds : IsBTree (some to) es
    pub roomy : 1 ≤ slots root → 2 ≤ slots (some to)

  grown-Becomes :
      (degree h : ℕ) (root : Option (Node K V)) (n : Node K V) (ok : Bool) (es : List (K × V))
      → 3 ≤ degree
      → IsFormed h zero n
      → 1 ≤ length (values n)
      → (ok ≡ false → degree ≤ length (values n))
      → IsSorted o es
      → entries n ≡ es
      → (1 ≤ slots root → 2 ≤ num_children (children n))
      → Becomes root (grown o degree (n, ok)) es
  unfolding grown split_into insert_into entries
  grown-Becomes degree h root n true es wide f big full s same room = record {
    to = n;
    result_eq = refl;
    holds = record { tree = IsFormed-IsTree h n f big; sorted = s; same = same };
    roomy = room;
  }
  grown-Becomes degree h root n false es wide f big full s same room =
      let deep = full refl in
      let b = halves-IsHalved h zero n f (omega (arith, deep, wide)) in
      record {
        to = node (child b.left (child b.right nil)) (b.mid ∷ []);
        result_eq = rw (split_into, b.result) refl;
        roomy = λ q. omega arith;
        holds = record {
          tree =
              inner_root h b.left (child b.right nil) (b.mid ∷ [])
                (more h zero b.left (child b.right nil) b.mid [] b.left_formed b.left_big
                  (last h zero b.right b.right_formed b.right_big))
                (omega arith);
          sorted = s;
          same =
              ap (λ xs. entries b.left ++ (b.mid ∷ xs)) (append-nil (entries b.right))
              ∙ b.joined
              ∙ same;
        };
      }

  leaf_length : (n : Node K V) → IsFormed zero zero n → length (values n) ≡ length (entries n)
  unfolding entries
  leaf_length n (leaf _ cs vs g room) = ap length (sym (weave-AllNull cs vs g))

  Inserted-Becomes :
      (degree h : ℕ) (root : Option (Node K V)) (n : Node K V) (e : K × V) (es : List (K × V))
      → 3 ≤ degree
      → root_of o degree root ≡ n
      → Absent o e.0 es
      → IsSorted o es
      → entries n ≡ es
      → (r : Inserted o degree h zero n e) → 1 ≤ length (values r.to)
      → (1 ≤ slots root → 2 ≤ num_children (children r.to))
      → Becomes root (insert o degree root e) (put o e es)
  unfolding insert
  Inserted-Becomes degree h root n e es wide root_eq absent s same r big room =
      let b =
        grown-Becomes degree h root r.to r.ok (put o e es) wide r.formed big r.full
          (put-IsSorted o e es absent s) (r.same ∙ ap (λ xs. put o e xs) same) room in
      record {
        roomy = b.roomy;
        to = b.to;
        result_eq = rw (insert, root_eq, r.result) b.result_eq;
        holds = b.holds;
      }

  root_inserted :
      (degree : ℕ) (root : Option (Node K V)) (e : K × V) (es : List (K × V))
      → 3 ≤ degree
      → Absent o e.0 es
      → IsTree root
      → IsSorted o es
      → tree_entries root ≡ es
      → Becomes root (insert o degree root e) (put o e es)
  unfolding entries
  root_inserted degree none e es wide absent no_root s same =
      let f : IsFormed {K = K} {V = V} zero zero (node nil []) =
        leaf zero nil [] tt (omega arith) in
      let r = insert_into_leaf-Inserted o degree zero zero e (node nil []) wide f tt tt in
      Inserted-Becomes degree zero none (node nil []) e es wide refl absent s same r
        (omega (
          arith,
          leaf_length r.to r.formed,
          ap length r.same,
          length-put o e (entries (node nil [])),
        ))
        (λ q. absurd (omega (arith, q)))
  root_inserted degree root e es wide absent (leaf_root cs vs g room) s same =
      let f = leaf zero cs vs g (omega (arith, room)) in
      let r =
        insert_into_leaf-Inserted o degree zero zero e (node cs vs) wide f (rw (same) s)
          (rw (same) absent) in
      Inserted-Becomes degree zero root (node cs vs) e es wide refl absent s same r
        (omega (
          arith,
          leaf_length r.to r.formed,
          ap length r.same,
          length-put o e (entries (node cs vs)),
        ))
        (λ q. omega (arith, q, r.wider (AllNull-leaf cs g)))
  root_inserted degree root e es wide absent (inner_root h n cs vs f big) s same =
      let r =
        insert_into_leaf-Inserted o degree (suc h) zero e (node (child n cs) vs) wide
          (AreFormed-IsFormed f) (rw (same) s) (rw (same) absent) in
      Inserted-Becomes degree (suc h) root (node (child n cs) vs) e es wide refl absent s same r
        (omega (arith, big, r.grew)) (λ q. omega (arith, big, r.grew, inner_slots h r.to r.formed))

  -- With a degree of 3 or more, `insert` of a new key returns, and puts the entry at its place.
  pub insert-IsBTree :
      {root : Option (Node K V)} {es : List (K × V)} (degree : ℕ) (e : K × V)
      → 3 ≤ degree
      → IsBTree root es
      → Absent o e.0 es
      → Becomes root (insert o degree root e) (put o e es)
  insert-IsBTree {root} {es} degree e wide t absent =
      root_inserted degree root e es wide absent t.tree t.sorted t.same
