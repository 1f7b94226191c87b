-- ===== src/BTree/Rotate.antt =====
-- What `rotate_left` of include/txl/btree.h makes of two neighbours.
use libtxl.Prelude.{
  ℕ, zero, suc, ◌+◌, ◌≤◌, ◌≡◌, refl, sym, ap, ◌∙◌, some, List, [], ◌∷◌, ◌++◌, append-nil,
  append_assoc, length, length-append, get_elem?, arith,
}
use libtxl.BTree.Defs.{Node, node, Children, nil, null, child, children, values, num_children}
use libtxl.BTree.Rebalance.{erase_at, remove_child_at, ◌+++◌, front_child}
use libtxl.BTree.Entries.{entries, weave, AllNull, IsFormed, leaf, inner, AreFormed, last, more}
use libtxl.BTree.Find.{weave-AllNull}
use libtxl.BTree.Split.{AreFormed-IsFormed}

module _ {K V : Type 0} where
  pub AllNull-append : (cs ds : Children K V) → AllNull cs → AllNull ds → AllNull (cs +++ ds)
  AllNull-append nil ds h g = g
  AllNull-append (null cs) ds h g = AllNull-append cs ds h g
  AllNull-append (child n cs) ds h g = elim h [ ]

  pub num_children-append :
      (cs ds : Children K V) → num_children (cs +++ ds) ≡ num_children cs + num_children ds
  num_children-append nil ds = omega arith
  num_children-append (null cs) ds = omega (arith, num_children-append cs ds)
  num_children-append (child n cs) ds = omega (arith, num_children-append cs ds)

  pub AreFormed-append :
      (h margin : ℕ) (cs ds : Children K V) (v : K × V) (vs ws : List (K × V))
      → AreFormed h 1 cs vs
      → AreFormed h margin ds ws
      → AreFormed h margin (cs +++ ds) (vs ++ (v ∷ ws))
  AreFormed-append h margin cs ds v vs ws (last _ _ n f big) g = more h margin n ds v ws f big g
  AreFormed-append h margin cs ds v vs ws (more _ _ n es u us f big fs) g =
      more h margin n (es +++ ds) u (us ++ (v ∷ ws)) f big
        (AreFormed-append h margin es ds v us ws fs g)

  pub weave-append :
      (h : ℕ) (cs ds : Children K V) (v : K × V) (vs ws : List (K × V))
      → AreFormed h 1 cs vs
      → weave (cs +++ ds) (vs ++ (v ∷ ws)) ≡ weave cs vs ++ (v ∷ weave ds ws)
  unfolding entries
  weave-append h cs ds v vs ws (last _ _ n f big) =
      ap (λ es. es ++ (v ∷ weave ds ws)) (sym (append-nil (entries n)))
  weave-append h cs ds v vs ws (more _ _ n es u us f big fs) =
      ap (λ xs. entries n ++ (u ∷ xs)) (weave-append h es ds v us ws fs)
      ∙ sym (append_assoc (entries n) (u ∷ weave es us) (v ∷ weave ds ws))

  pub leaf-entries :
      (cs : Children K V) (vs : List (K × V)) → AllNull cs → entries (node cs vs) ≡ vs
  unfolding entries
  leaf-entries cs vs h = weave-AllNull cs vs h

  -- The left node with the parent's value and the right node's first child
  pub record LeftRotated (h margin : ℕ) (l r : Node K V) (v : K × V) : Type 0 where
    pub up : K × V
    pub kept : List (K × V)
    pub moved : Children K V
    pub left_over : Children K V
    pub up_eq : get_elem? (values r) 0 ≡ some up
    pub kept_eq : erase_at 0 (values r) ≡ some kept
    pub moved_eq : front_child (children r) ≡ some moved
    pub left_over_eq : remove_child_at 0 (children r) ≡ some left_over
    pub left_formed : IsFormed h 1 (node (children l +++ moved) (values l ++ (v ∷ [])))
    pub right_formed : IsFormed h margin (node left_over kept)
    pub right_big : 1 ≤ length kept
    pub same :
        entries (node (children l +++ moved) (values l ++ (v ∷ [])))
          ++ (up ∷ entries (node left_over kept))
        ≡ entries l ++ (v ∷ entries r)

  left_leaves :
      (margin : ℕ) (cs ds : Children K V) (vs ws : List (K × V)) (v : K × V)
      → AllNull cs
      → length vs + 1 ≤ num_children cs
      → AllNull ds
      → length ws + margin ≤ num_children ds
      → 2 ≤ length ws
      → LeftRotated zero margin (node cs vs) (node ds ws) v
  left_leaves margin cs ds vs [] v g room gr room_r big = absurd (omega (arith, big))
  left_leaves margin cs nil vs (w ∷ ws) v g room gr room_r big = absurd (omega (arith, room_r))
  left_leaves margin cs (child n ds) vs (w ∷ ws) v g room gr room_r big = elim gr [ ]
  left_leaves margin cs (null ds) vs (w ∷ ws) v g room gr room_r big =
      let nulls_more = AllNull-append cs (null nil) g tt in
      record {
        up = w;
        kept = ws;
        moved = null nil;
        left_over = ds;
        up_eq = refl;
        kept_eq = refl;
        moved_eq = refl;
        left_over_eq = refl;
        left_formed =
            leaf 1 _ _ nulls_more
              (omega (arith, room, length-append vs (v ∷ []), num_children-append cs (null nil)));
        right_formed = leaf margin ds ws gr (omega (arith, room_r));
        right_big = omega (arith, big);
        same =
            rw
              (
                leaf-entries _ (vs ++ (v ∷ [])) nulls_more,
                leaf-entries ds ws gr,
                leaf-entries cs vs g,
                leaf-entries (null ds) (w ∷ ws) gr,
              )
              (append_assoc vs (v ∷ []) (w ∷ ws));
      }

  left_inners :
      (h margin : ℕ) (cs ds : Children K V) (vs ws : List (K × V)) (v : K × V)
      → AreFormed h 1 cs vs
      → AreFormed h margin ds ws
      → 2 ≤ length ws
      → LeftRotated (suc h) margin (node cs vs) (node ds ws) v
  unfolding entries
  left_inners h margin cs ds vs ws v fl (last _ _ n f nb) big = absurd (omega (arith, big))
  left_inners h margin cs ds vs ws v fl (more _ _ n es u us f nb fs) big = record {
    up = u;
    kept = us;
    moved = child n nil;
    left_over = es;
    up_eq = refl;
    kept_eq = refl;
    moved_eq = refl;
    left_over_eq = refl;
    left_formed =
        AreFormed-IsFormed (AreFormed-append h 1 cs (child n nil) v vs [] fl (last h 1 n f nb));
    right_formed = AreFormed-IsFormed fs;
    right_big = omega (arith, big);
    same =
        rw (weave-append h cs (child n nil) v vs [] fl, append-nil (entries n))
          (append_assoc (weave cs vs) (v ∷ entries n) (u ∷ weave es us));
  }

  pub left-LeftRotated :
      (h margin : ℕ) (l r : Node K V) (v : K × V)
      → IsFormed h 1 l
      → IsFormed h margin r
      → 2 ≤ length (values r)
      → LeftRotated h margin l r v
  left-LeftRotated h margin l r v (leaf _ cs vs g room) (leaf _ ds ws gr room_r) big =
      left_leaves margin cs ds vs ws v g room gr room_r big
  left-LeftRotated h margin l r v (inner g _ m cs vs fl) (inner _ _ n ds ws fr) big =
      left_inners g margin (child m cs) (child n ds) vs ws v fl fr big
