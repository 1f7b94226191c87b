-- ===== src/BTree/Insert.antt =====
-- `insert` of include/txl/btree.h puts a new key into the ordered entries.
use libtxl.Prelude.{
  ℕ, zero, suc, ◌+◌, ◌≤◌, ◌≡◌, ◌≢◌, true, false, Bool-cases, refl, sym, ap, ◌∙◌, inl, inr, some,
  List, [], ◌∷◌, ◌++◌, append-nil, length, ltb, arith,
}
use libtxl.BTree.Key.{Key, less_of_not}
use libtxl.BTree.Sorted.{All_left, All_right, IsSorted, Absent, put, IsSorted-Parts}
use libtxl.BTree.Defs.{
  Node, node, Children, child, num_children, emplace_at, halves, index_of, insert_into, split_into,
  inserted_below, insert_into_leaf,
}
use libtxl.BTree.Entries.{entries, weave, AllNull, IsFormed, leaf, inner, AreFormed, last, more}
use libtxl.BTree.Find.{weave-AllNull, AllNull-leaf}
use libtxl.BTree.Split.{AreFormed-IsFormed, halves-IsHalved}
use libtxl.BTree.Slots.{emplace-index_of, length-put, index_of-le-length, emplace_null-Nulled}
use libtxl.BTree.Inserted.{Inserted, Spliced, ChildInserted, last_child, first_child, later_child}

module _ {K V : Type 0} (o : Key K) where
  open o use {less}

  emplaced_length :
      (i : ℕ) (x : K × V) (vs : List (K × V)) → length (emplace_at i x vs) ≡ suc (length vs)
  emplaced_length zero x vs = omega arith
  emplaced_length (suc i) x [] = omega arith
  emplaced_length (suc i) x (v ∷ vs) = ap suc (emplaced_length i x vs)

  below_split :
      (degree h margin i : ℕ) (cs : Children K V) (vs : List (K × V)) (e : K × V)
      (to left : Node K V) (m : K × V) (right : Node K V)
      (x : Spliced o i h margin cs vs e to left m right)
      → halves to ≡ some (left, m, right)
      → inserted_below o degree cs vs i (to, false)
        ≡ some (node x.with_both (emplace_at i m vs), ltb (length (emplace_at i m vs)) degree)
  unfolding inserted_below split_into insert_into
  below_split degree h margin i cs vs e to left m right x q =
      rw (x.hollowed_eq, split_into, q, x.index_eq, x.room_eq, x.left_eq, x.both_eq) refl

  -- An insertion below the node
  inner-Inserted :
      (degree h margin : ℕ) (m : Node K V) (cs : Children K V) (vs : List (K × V)) (e : K × V)
      → 3 ≤ degree
      → ChildInserted o degree h margin (child m cs) vs e
      → Inserted o degree (suc h) margin (node (child m cs) vs) e
  unfolding insert_into_leaf entries inserted_below
  inner-Inserted degree h margin m cs vs e wide c = elim (Bool-cases c.ok) [
    | inl yes_ok ↦ record {
      to = node c.kept vs;
      ok = true;
      result = rw (insert_into_leaf, c.result, yes_ok) (rw (c.kept_eq) refl);
      formed = AreFormed-IsFormed c.kept_formed;
      same = c.kept_same;
      grew = omega arith;
      full = λ q. cc;
      wider = λ q. cc;
    }
    | inr not_ok ↦
        let deep = c.full not_ok in
        let b = halves-IsHalved h c.at c.to c.child_formed (omega (arith, deep, wide)) in
        let x =
          c.spliced b.left b.mid b.right b.left_formed b.left_big b.right_formed b.right_big
            b.joined in
        let i = index_of o vs e.0 in
        record {
          to = node x.with_both (emplace_at i b.mid vs);
          ok = ltb (length (emplace_at i b.mid vs)) degree;
          result =
              rw (insert_into_leaf, c.result, not_ok)
                (below_split degree h margin i (child m cs) vs e c.to b.left b.mid b.right x
                  b.result);
          formed = AreFormed-IsFormed x.formed;
          same = x.same;
          grew = let g = emplaced_length i b.mid vs in omega (arith, g);
          full = λ q. ground (arith, q);
          wider = λ q. cc;
        }
  ]

  leaf-Inserted :
      (degree margin : ℕ) (cs : Children K V) (vs : List (K × V)) (e : K × V)
      → AllNull cs
      → length vs + margin ≤ num_children cs
      → Inserted o degree zero margin (node cs vs) e
  unfolding insert_into_leaf insert_into entries
  leaf-Inserted degree margin cs vs e h room =
      let i = index_of o vs e.0 in
      let r = emplace_null-Nulled o i cs (omega (arith, room, index_of-le-length o vs e.0)) h in
      let put_eq : emplace_at i e vs ≡ put o e vs = emplace-index_of o e vs in
      let len : length (emplace_at i e vs) ≡ suc (length vs) =
        ap length put_eq ∙ length-put o e vs in
      record {
        to = node r.to (emplace_at i e vs);
        ok = ltb (length (emplace_at i e vs)) degree;
        result = rw (insert_into_leaf, AllNull-leaf cs h, r.result) refl;
        formed =
            leaf margin r.to (emplace_at i e vs) r.all_null (omega (arith, len, room, r.counted));
        wider = λ q. r.counted;
        same = rw (weave-AllNull r.to (emplace_at i e vs) r.all_null, weave-AllNull cs vs h) put_eq;
        grew = omega (arith, len);
        full = λ q. ground (arith, q);
      }

  mutual
    unfolding entries

    node-Inserted :
        (degree h margin : ℕ) (e : K × V) (n : Node K V)
        → 3 ≤ degree
        → IsFormed h margin n
        → IsSorted o (entries n)
        → Absent o e.0 (entries n)
        → Inserted o degree h margin n e
    node-Inserted degree h margin e n wide (leaf _ cs vs all_null room) s a =
        leaf-Inserted degree margin cs vs e all_null room
    node-Inserted degree h margin e n wide (inner g _ m cs vs formed) s a =
        inner-Inserted degree g margin m cs vs e wide
          (child_inserted degree g margin e (child m cs) vs wide formed s a)

    child_inserted :
        (degree h margin : ℕ) (e : K × V) (cs : Children K V) (vs : List (K × V))
        → 3 ≤ degree
        → AreFormed h margin cs vs
        → IsSorted o (weave cs vs)
        → Absent o e.0 (weave cs vs)
        → ChildInserted o degree h margin cs vs e
    child_inserted degree h margin e cs vs wide (last _ _ n f big) s a =
        let own : entries n ++ [] ≡ entries n = append-nil (entries n) in
        last_child o degree h margin e n big
          (node-Inserted degree h margin e n wide f (rw (sym own) s) (rw (sym own) a))
    child_inserted degree h margin e cs vs wide (more _ _ n ds v ws f big fs) s a =
        let p = IsSorted-Parts o (entries n) v (weave ds ws) s in
        let absent : (v.0 ≢ e.0) × Absent o e.0 (weave ds ws) =
          All_right (λ x. x.0 ≢ e.0) (entries n) (v ∷ weave ds ws) a in
        elim (Bool-cases (less v.0 e.0)) [
          | inl l ↦
              later_child o degree h margin e n ds v ws f big s l
                (child_inserted degree h margin e ds ws wide fs p.right absent.1)
          | inr l ↦
              first_child o degree h margin e n ds v ws fs s l (less_of_not o v.0 e.0 l absent.0)
                big
                (node-Inserted degree h 1 e n wide f p.left
                  (All_left (λ x. x.0 ≢ e.0) (entries n) (v ∷ weave ds ws) a))
        ]

  pub insert_into_leaf-Inserted :
      (degree h margin : ℕ) (e : K × V) (n : Node K V)
      → 3 ≤ degree
      → IsFormed h margin n
      → IsSorted o (entries n)
      → Absent o e.0 (entries n)
      → Inserted o degree h margin n e
  insert_into_leaf-Inserted degree h margin e n wide f s a =
      node-Inserted degree h margin e n wide f s a
