-- ===== src/BTree/Inserted.antt =====
-- What `insert_into_leaf` of include/txl/btree.h makes of one child.
use libtxl.Prelude.{
  ℕ, suc, ◌≤◌, ◌≡◌, Bool, true, false, refl, sym, ap, ◌∙◌, some, List, [], ◌∷◌, ◌++◌, append-nil,
  append_assoc, length, arith,
}
use libtxl.BTree.Key.{Key, less_asym}
use libtxl.BTree.Sorted.{
  All_left, All_right, All-put, Above, Below, IsSorted, put, put-left, put-right, IsSorted-Parts,
  Above-trans, Below-trans,
}
use libtxl.BTree.Defs.{
  Node, Children, nil, null, child, emplace_null, emplace_at, set_child, values, hollow, index_of,
  insert_into_leaf, insert_into_child, is_leaf, children, num_children,
}
use libtxl.BTree.Entries.{entries, weave, IsFormed, AreFormed, last, more}

module _ {K V : Type 0} (o : Key K) where
  open o use {less}

  -- What the insertion into a node gives
  pub record Inserted (degree h margin : ℕ) (n : Node K V) (e : K × V) : Type 0 where
    pub to : Node K V
    pub ok : Bool
    pub result : insert_into_leaf o degree n e ≡ some (to, ok)
    pub formed : IsFormed h margin to
    pub same : entries to ≡ put o e (entries n)
    pub grew : length (values n) ≤ length (values to)
    pub full : ok ≡ false → degree ≤ length (values to)
    pub wider :
        is_leaf (children n) ≡ true → num_children (children to) ≡ suc (num_children (children n))

  -- A child that was split, and its parent's children with the two halves
  pub record Spliced (i h margin : ℕ) (cs : Children K V) (vs : List (K × V)) (e : K × V)
      (to left : Node K V) (m : K × V) (right : Node K V) : Type 0 where
    pub hollowed : Children K V
    pub room : Children K V
    pub with_left : Children K V
    pub with_both : Children K V
    pub index_eq : index_of o vs m.0 ≡ i
    pub hollowed_eq : set_child i (hollow to) cs ≡ some hollowed
    pub room_eq : emplace_null i hollowed ≡ some room
    pub left_eq : set_child i left room ≡ some with_left
    pub both_eq : set_child (suc i) right with_left ≡ some with_both
    pub formed : AreFormed h margin with_both (emplace_at i m vs)
    pub same : weave with_both (emplace_at i m vs) ≡ put o e (weave cs vs)

  -- What the insertion into the child for a key gives
  pub record ChildInserted (degree h margin : ℕ) (cs : Children K V) (vs : List (K × V)) (e : K × V)
      : Type 0 where
    pub to : Node K V
    pub ok : Bool
    pub at : ℕ
    pub result : insert_into_child o degree cs (index_of o vs e.0) e ≡ some (to, ok)
    pub child_formed : IsFormed h at to
    pub full : ok ≡ false → degree ≤ length (values to)
    pub within : (b : K) → less b e.0 ≡ true → Above o b (weave cs vs) → Above o b (entries to)
    pub kept : Children K V
    pub kept_eq : set_child (index_of o vs e.0) to cs ≡ some kept
    pub kept_formed : AreFormed h margin kept vs
    pub kept_same : weave kept vs ≡ put o e (weave cs vs)
    pub spliced :
        (left : Node K V) (m : K × V) (right : Node K V)
        → IsFormed h 1 left
        → 1 ≤ length (values left)
        → IsFormed h at right
        → 1 ≤ length (values right)
        → entries left ++ (m ∷ entries right) ≡ entries to
        → Spliced (index_of o vs e.0) h margin cs vs e to left m right

  -- The child stands before the last value, or there is none.
  module _ (degree h margin : ℕ) (e : K × V) where
    pub last_child :
        (n : Node K V)
        → 1 ≤ length (values n)
        → Inserted degree h margin n e
        → ChildInserted degree h margin (child n nil) [] e
    unfolding entries insert_into_leaf insert_into_child
    last_child n big r = record {
      to = r.to;
      ok = r.ok;
      at = margin;
      result = r.result;
      child_formed = r.formed;
      full = r.full;
      within = λ b p q. rw (r.same) (
          All-put o (λ x. less b x.0 ≡ true) e (entries n) p
            (All_left (λ x. less b x.0 ≡ true) (entries n) [] q));
      kept = child r.to nil;
      kept_eq = refl;
      kept_formed = last h margin r.to r.formed (let g = r.grew in omega (arith, g, big));
      kept_same = rw (append-nil (entries r.to), append-nil (entries n)) r.same;
      spliced = λ left m right f fb g gb j. record {
        hollowed = child (hollow r.to) nil;
        room = null (child (hollow r.to) nil);
        with_left = child left (child (hollow r.to) nil);
        with_both = child left (child right nil);
        index_eq = refl;
        hollowed_eq = refl;
        room_eq = refl;
        left_eq = refl;
        both_eq = refl;
        formed = more h margin left (child right nil) m [] f fb (last h margin right g gb);
        same = rw (append-nil (entries right), append-nil (entries n)) (j ∙ r.same);
      };
    }

    pub first_child :
        (n : Node K V) (cs : Children K V) (v : K × V) (vs : List (K × V))
        → AreFormed h margin cs vs
        → IsSorted o (entries n ++ (v ∷ weave cs vs))
        → less v.0 e.0 ≡ false
        → less e.0 v.0 ≡ true
        → 1 ≤ length (values n)
        → Inserted degree h 1 n e
        → ChildInserted degree h margin (child n cs) (v ∷ vs) e
    unfolding entries insert_into_leaf insert_into_child
    first_child n cs v vs fs s not_less greater big r =
        let p = IsSorted-Parts o (entries n) v (weave cs vs) s in
        let above : Above o e.0 (v ∷ weave cs vs) =
          (greater, Above-trans o e.0 v.0 (weave cs vs) greater p.above) in
        let put_first : entries r.to ++ (v ∷ weave cs vs)
            ≡ put o e (entries n ++ (v ∷ weave cs vs)) =
          ap (λ es. es ++ (v ∷ weave cs vs)) r.same
          ∙ sym (put-right o e (entries n) (v ∷ weave cs vs) above) in
        let below : Below o v.0 (entries r.to) =
          rw (r.same) (All-put o (λ x. less x.0 v.0 ≡ true) e (entries n) greater p.below) in
        record {
          to = r.to;
          ok = r.ok;
          at = 1;
          result = rw (not_less) r.result;
          child_formed = r.formed;
          full = r.full;
          within = λ b q z. rw (r.same) (
              All-put o (λ x. less b x.0 ≡ true) e (entries n) q
                (All_left (λ x. less b x.0 ≡ true) (entries n) (v ∷ weave cs vs) z));
          kept = child r.to cs;
          kept_eq = rw (not_less) refl;
          kept_formed =
              more h margin r.to cs v vs r.formed (let g = r.grew in omega (arith, g, big)) fs;
          kept_same = put_first;
          spliced = λ left m right f fb g gb j.
              let m_below =
                All_right (λ x. less x.0 v.0 ≡ true) (entries left) (m ∷ entries right)
                  (rw (j) below) in
              record {
                hollowed = child (hollow r.to) cs;
                room = null (child (hollow r.to) cs);
                with_left = child left (child (hollow r.to) cs);
                with_both = child left (child right cs);
                index_eq = rw (less_asym o m.0 v.0 m_below.0, not_less) refl;
                hollowed_eq = rw (not_less) refl;
                room_eq = rw (not_less) refl;
                left_eq = rw (not_less) refl;
                both_eq = rw (not_less) refl;
                formed = rw (not_less) (
                    more h margin left (child right cs) m (v ∷ vs) f fb
                      (more h margin right cs v vs g gb fs));
                same = rw (not_less) (
                    sym (append_assoc (entries left) (m ∷ entries right) (v ∷ weave cs vs))
                    ∙ ap (λ es. es ++ (v ∷ weave cs vs)) j
                    ∙ put_first);
              };
        }

    pub later_child :
        (n : Node K V) (cs : Children K V) (v : K × V) (vs : List (K × V))
        → IsFormed h 1 n
        → 1 ≤ length (values n)
        → IsSorted o (entries n ++ (v ∷ weave cs vs))
        → less v.0 e.0 ≡ true
        → ChildInserted degree h margin cs vs e
        → ChildInserted degree h margin (child n cs) (v ∷ vs) e
    unfolding entries put insert_into_child
    later_child n cs v vs formed big s l r =
        let p = IsSorted-Parts o (entries n) v (weave cs vs) s in
        let below : Below o e.0 (entries n) = Below-trans o v.0 e.0 (entries n) l p.below in
        let put_later : entries n ++ (v ∷ put o e (weave cs vs))
            ≡ put o e (entries n ++ (v ∷ weave cs vs)) =
          rw (put-left o e (entries n) (v ∷ weave cs vs) below, l) refl in
        record {
          to = r.to;
          ok = r.ok;
          at = r.at;
          result = rw (l) r.result;
          child_formed = r.child_formed;
          full = r.full;
          within = λ b q z.
              r.within b q (All_right (λ x. less b x.0 ≡ true) (entries n) (v ∷ weave cs vs) z).1;
          kept = child n r.kept;
          kept_eq = rw (l, r.kept_eq) refl;
          kept_formed = more h margin n r.kept v vs formed big r.kept_formed;
          kept_same = ap (λ es. entries n ++ (v ∷ es)) r.kept_same ∙ put_later;
          spliced = λ left m right f fb g gb j.
              let x = r.spliced left m right f fb g gb j in
              let above =
                All_right (λ y. less v.0 y.0 ≡ true) (entries left) (m ∷ entries right)
                  (rw (j) (r.within v.0 l p.above)) in
              record {
                hollowed = child n x.hollowed;
                room = child n x.room;
                with_left = child n x.with_left;
                with_both = child n x.with_both;
                index_eq = rw (above.0, x.index_eq, l) refl;
                hollowed_eq = rw (l, x.hollowed_eq) refl;
                room_eq = rw (l, x.room_eq) refl;
                left_eq = rw (l, x.left_eq) refl;
                both_eq = rw (l, x.both_eq) refl;
                formed = rw (l) (more h margin n x.with_both v _ formed big x.formed);
                same = rw (l) (ap (λ es. entries n ++ (v ∷ es)) x.same ∙ put_later);
              };
        }
