-- ===== src/BTree/RotateRight.antt =====
-- What `rotate_right` of include/txl/btree.h makes of two neighbours.
use libtxl.Prelude.{
  ℕ, zero, suc, ◌+◌, ◌≤◌, ◌<◌, ◌≡◌, refl, sym, ap, ◌∙◌, some, List, [], ◌∷◌, ◌++◌, append-nil,
  append_assoc, length, arith,
}
use libtxl.BTree.Defs.{Node, node, Children, nil, null, child, children, values, num_children}
use libtxl.BTree.Rebalance.{pop_back, remove_child_at, ◌+++◌, back_child}
use libtxl.BTree.Entries.{entries, weave, AllNull, IsFormed, leaf, inner, AreFormed, last, more}
use libtxl.BTree.Split.{AreFormed-IsFormed}
use libtxl.BTree.Rotate.{leaf-entries}

module _ {K V : Type 0} where
  -- The right node with the parent's value and the left node's last child
  pub record RightRotated (h margin : ℕ) (l r : Node K V) (v : K × V) : Type 0 where
    pub up : K × V
    pub kept : List (K × V)
    pub moved : Children K V
    pub left_over : Children K V
    pub up_eq : pop_back (values l) ≡ some (kept, up)
    pub moved_eq : back_child (children l) ≡ some moved
    pub left_over_eq : remove_child_at (length (values l)) (children l) ≡ some left_over
    pub left_formed : IsFormed h 1 (node left_over kept)
    pub left_big : 1 ≤ length kept
    pub right_formed : IsFormed h margin (node (moved +++ children r) (v ∷ values r))
    pub same :
        entries (node left_over kept) ++ (up ∷ entries (node (moved +++ children r) (v ∷ values r)))
        ≡ entries l ++ (v ∷ entries r)

  pub record IsPopped (vs : List (K × V)) : Type 0 where
    pub front : List (K × V)
    pub back : K × V
    pub result : pop_back vs ≡ some (front, back)
    pub joined : front ++ (back ∷ []) ≡ vs
    pub counted : suc (length front) ≡ length vs

  pub pop_back-IsPopped : (vs : List (K × V)) → 1 ≤ length vs → IsPopped vs
  pop_back-IsPopped [] h = absurd (omega (arith, h))
  pop_back-IsPopped (v ∷ []) h = record {
    front = [];
    back = v;
    result = refl;
    joined = refl;
    counted = refl;
  }
  pop_back-IsPopped (v ∷ w ∷ ws) h =
      let p = pop_back-IsPopped (w ∷ ws) (omega arith) in
      record {
        front = v ∷ p.front;
        back = p.back;
        result = rw (p.result) refl;
        joined = ap (λ us. v ∷ us) p.joined;
        counted = ap suc p.counted;
      }

  record NullPopped (i : ℕ) (cs : Children K V) : Type 0 where
    left_over : Children K V
    back_eq : back_child cs ≡ some (null nil)
    left_over_eq : remove_child_at i cs ≡ some left_over
    all_null : AllNull left_over
    counted : suc (num_children left_over) ≡ num_children cs

  nulls-NullPopped :
      (i : ℕ) (cs : Children K V) → AllNull cs → i < num_children cs → NullPopped i cs
  nulls-NullPopped i nil g l = absurd (omega (arith, l))
  nulls-NullPopped i (child n cs) g l = elim g [ ]
  nulls-NullPopped zero (null nil) g l = record {
    left_over = nil;
    back_eq = refl;
    left_over_eq = refl;
    all_null = tt;
    counted = refl;
  }
  nulls-NullPopped (suc i) (null nil) g l = absurd (omega (arith, l))
  nulls-NullPopped i (null (child n cs)) g l = elim g [ ]
  nulls-NullPopped zero (null (null cs)) g l =
      let p = nulls-NullPopped zero (null cs) g (omega arith) in
      record {
        left_over = null cs;
        back_eq = p.back_eq;
        left_over_eq = refl;
        all_null = g;
        counted = refl;
      }
  nulls-NullPopped (suc i) (null (null cs)) g l =
      let p = nulls-NullPopped i (null cs) g (omega (arith, l)) in
      record {
        left_over = null p.left_over;
        back_eq = p.back_eq;
        left_over_eq = rw (p.left_over_eq) refl;
        all_null = p.all_null;
        counted = ap suc p.counted;
      }

  right_leaves :
      (margin : ℕ) (cs ds : Children K V) (vs ws : List (K × V)) (v : K × V)
      → AllNull cs
      → length vs + 1 ≤ num_children cs
      → AllNull ds
      → length ws + margin ≤ num_children ds
      → 2 ≤ length vs
      → RightRotated zero margin (node cs vs) (node ds ws) v
  right_leaves margin cs ds vs ws v g room gr room_r big =
      let p = pop_back-IsPopped vs (omega (arith, big)) in
      let q = nulls-NullPopped (length vs) cs g (omega (arith, room)) in
      let popped = p.counted in
      let counted = q.counted in
      record {
        up = p.back;
        kept = p.front;
        moved = null nil;
        left_over = q.left_over;
        up_eq = p.result;
        moved_eq = q.back_eq;
        left_over_eq = q.left_over_eq;
        left_formed = leaf 1 _ _ q.all_null (omega (arith, room, popped, counted));
        left_big = omega (arith, big, popped);
        right_formed = leaf margin (null ds) (v ∷ ws) gr (omega (arith, room_r));
        same =
            rw
              (
                leaf-entries q.left_over p.front q.all_null,
                leaf-entries (null ds) (v ∷ ws) gr,
                leaf-entries cs vs g,
                leaf-entries ds ws gr,
              )
              (sym (append_assoc p.front (p.back ∷ []) (v ∷ ws))
                ∙ ap (λ us. us ++ (v ∷ ws)) p.joined);
      }

  -- Without the last value and the last child
  pub record IsUnsnoc (h : ℕ) (cs : Children K V) (vs : List (K × V)) : Type 0 where
    pub front : List (K × V)
    pub back : K × V
    pub front_children : Children K V
    pub back_node : Node K V
    pub popped : pop_back vs ≡ some (front, back)
    pub moved : back_child cs ≡ some (child back_node nil)
    pub cut : remove_child_at (length vs) cs ≡ some front_children
    pub counted : suc (length front) ≡ length vs
    pub node_formed : IsFormed h 1 back_node
    pub node_big : 1 ≤ length (values back_node)
    pub front_formed : AreFormed h 1 front_children front
    pub same : weave front_children front ++ (back ∷ entries back_node) ≡ weave cs vs

  unsnoc :
      (h : ℕ) (cs : Children K V) (vs : List (K × V))
      → AreFormed h 1 cs vs
      → 1 ≤ length vs
      → IsUnsnoc h cs vs
  unfolding entries
  unsnoc h cs vs (last _ _ n f big) l = absurd (omega (arith, l))
  unsnoc h cs vs (more _ _ n es u us f big (last _ _ m g mb)) l = record {
    front = [];
    back = u;
    front_children = child n nil;
    back_node = m;
    popped = refl;
    moved = refl;
    cut = refl;
    counted = refl;
    node_formed = g;
    node_big = mb;
    front_formed = last h 1 n f big;
    same = rw (append-nil (entries n), append-nil (entries m)) refl;
  }
  unsnoc h cs vs (more _ _ n es u us f big (more _ _ m ds w ws g mb gs)) l =
      let p = unsnoc h es us (more h 1 m ds w ws g mb gs) (omega arith) in
      record {
        front = u ∷ p.front;
        back = p.back;
        front_children = child n p.front_children;
        back_node = p.back_node;
        popped = rw (p.popped) refl;
        moved = p.moved;
        cut = rw (p.cut) refl;
        counted = ap suc p.counted;
        node_formed = p.node_formed;
        node_big = p.node_big;
        front_formed = more h 1 n p.front_children u p.front f big p.front_formed;
        same =
            append_assoc (entries n) (u ∷ weave p.front_children p.front)
              (p.back ∷ entries p.back_node)
            ∙ ap (λ es. entries n ++ (u ∷ es)) p.same;
      }

  right_inners :
      (h margin : ℕ) (cs ds : Children K V) (vs ws : List (K × V)) (v : K × V)
      → AreFormed h 1 cs vs
      → AreFormed h margin ds ws
      → 2 ≤ length vs
      → RightRotated (suc h) margin (node cs vs) (node ds ws) v
  unfolding entries
  right_inners h margin cs ds vs ws v fl fr big =
      let p = unsnoc h cs vs fl (omega (arith, big)) in
      let counted = p.counted in
      record {
        up = p.back;
        kept = p.front;
        moved = child p.back_node nil;
        left_over = p.front_children;
        up_eq = p.popped;
        moved_eq = p.moved;
        left_over_eq = p.cut;
        left_formed = AreFormed-IsFormed p.front_formed;
        left_big = omega (arith, big, counted);
        right_formed =
            AreFormed-IsFormed (more h margin p.back_node ds v ws p.node_formed p.node_big fr);
        same =
            sym (
              append_assoc (weave p.front_children p.front) (p.back ∷ entries p.back_node)
                (v ∷ weave ds ws))
            ∙ ap (λ es. es ++ (v ∷ weave ds ws)) p.same;
      }

  pub right-RightRotated :
      (h margin : ℕ) (l r : Node K V) (v : K × V)
      → IsFormed h 1 l
      → IsFormed h margin r
      → 2 ≤ length (values l)
      → RightRotated h margin l r v
  right-RightRotated h margin l r v (leaf _ cs vs g room) (leaf _ ds ws gr room_r) big =
      right_leaves margin cs ds vs ws v g room gr room_r big
  right-RightRotated h margin l r v (inner g _ m cs vs fl) (inner _ _ n ds ws fr) big =
      right_inners g margin (child m cs) (child n ds) vs ws v fl fr big
