-- ===== src/BTree/Split.antt =====
-- `split_into` of include/txl/btree.h makes two formed nodes of one.
use libtxl.Prelude.{
  ℕ, zero, suc, ◌-◌, ◌/◌, min, ◌≤◌, ◌<◌, ◌≡◌, true, refl, ap, ◌∙◌, some, List, [], ◌∷◌, ◌++◌,
  append-nil, append_assoc, length, length-take, length-drop, take, drop, get_elem?, ltb, arith,
}
use libtxl.BTree.Defs.{
  Node, node, Children, nil, null, child, num_children, take_children, drop_children, values,
  halves,
}
use libtxl.BTree.Entries.{entries, weave, AllNull, IsFormed, leaf, inner, AreFormed, last, more}
use libtxl.BTree.Find.{weave-AllNull}

parted :
    {A : Type 0} (vs : List A) (i : ℕ)
    → i < length vs
    → (m : A) × (get_elem? vs i ≡ some m) × (take i vs ++ (m ∷ drop (suc i) vs) ≡ vs)
parted [] i h = absurd (omega (arith, h))
parted (v ∷ vs) zero h = (v, refl, refl)
parted (v ∷ vs) (suc i) h =
    let (m, e, p) = parted vs i (omega (arith, h)) in (m, e, ap (λ ws. v ∷ ws) p)

module _ {K V : Type 0} where
  AllNull-take : (i : ℕ) (cs : Children K V) → AllNull cs → AllNull (take_children i cs)
  AllNull-take zero cs h = tt
  AllNull-take (suc i) nil h = tt
  AllNull-take (suc i) (null cs) h = AllNull-take i cs h
  AllNull-take (suc i) (child n cs) h = elim h [ ]

  AllNull-drop : (i : ℕ) (cs : Children K V) → AllNull cs → AllNull (drop_children i cs)
  AllNull-drop zero cs h = h
  AllNull-drop (suc i) nil h = tt
  AllNull-drop (suc i) (null cs) h = AllNull-drop i cs h
  AllNull-drop (suc i) (child n cs) h = elim h [ ]

  num_children-take :
      (i : ℕ) (cs : Children K V) → num_children (take_children i cs) ≡ min i (num_children cs)
  num_children-take zero cs = omega arith
  num_children-take (suc i) nil = omega arith
  num_children-take (suc i) (null cs) = omega (arith, num_children-take i cs)
  num_children-take (suc i) (child n cs) = omega (arith, num_children-take i cs)

  num_children-drop :
      (i : ℕ) (cs : Children K V) → num_children (drop_children i cs) ≡ num_children cs - i
  num_children-drop zero cs = omega arith
  num_children-drop (suc i) nil = omega arith
  num_children-drop (suc i) (null cs) = omega (arith, num_children-drop i cs)
  num_children-drop (suc i) (child n cs) = omega (arith, num_children-drop i cs)

  pub AreFormed-IsFormed :
      {h margin : ℕ} {cs : Children K V} {vs : List (K × V)}
      → AreFormed h margin cs vs
      → IsFormed (suc h) margin (node cs vs)
  AreFormed-IsFormed (last h margin n f big) = inner h margin n nil [] (last h margin n f big)
  AreFormed-IsFormed (more h margin n cs v vs f big fs) =
      inner h margin n cs (v ∷ vs) (more h margin n cs v vs f big fs)

  pub AreFormed-num_children :
      {h margin : ℕ} {cs : Children K V} {vs : List (K × V)}
      → AreFormed h margin cs vs
      → num_children cs ≡ suc (length vs)
  AreFormed-num_children (last h margin n f big) = refl
  AreFormed-num_children (more h margin n cs v vs f big fs) = ap suc (AreFormed-num_children fs)

  -- The two halves and what stands between them
  pub record IsHalved (h margin : ℕ) (n : Node K V) : Type 0 where
    pub left : Node K V
    pub mid : K × V
    pub right : Node K V
    pub result : halves n ≡ some (left, mid, right)
    pub left_formed : IsFormed h 1 left
    pub right_formed : IsFormed h margin right
    pub left_big : 1 ≤ length (values left)
    pub right_big : 1 ≤ length (values right)
    pub joined : entries left ++ (mid ∷ entries right) ≡ entries n

  record IsCut (h margin : ℕ) (cs : Children K V) (vs : List (K × V)) (i : ℕ) : Type 0 where
    mid : K × V
    there : get_elem? vs i ≡ some mid
    front : AreFormed h 1 (take_children (suc i) cs) (take i vs)
    back : AreFormed h margin (drop_children (suc i) cs) (drop (suc i) vs)
    joined :
        weave (take_children (suc i) cs) (take i vs)
          ++ (mid ∷ weave (drop_children (suc i) cs) (drop (suc i) vs))
        ≡ weave cs vs

  cut :
      (h margin i : ℕ) (cs : Children K V) (vs : List (K × V))
      → AreFormed h margin cs vs
      → i < length vs
      → IsCut h margin cs vs i
  unfolding entries
  cut h margin i cs vs (last _ _ n f big) l = absurd (omega (arith, l))
  cut h margin zero cs vs (more _ _ n ds v ws f big fs) l = record {
    mid = v;
    there = refl;
    front = last h 1 n f big;
    back = fs;
    joined = ap (λ es. es ++ (v ∷ weave ds ws)) (append-nil (entries n));
  }
  cut h margin (suc i) cs vs (more _ _ n ds v ws f big fs) l =
      let c = cut h margin i ds ws fs (omega (arith, l)) in
      record {
        mid = c.mid;
        there = c.there;
        front = more h 1 n (take_children (suc i) ds) v (take i ws) f big c.front;
        back = c.back;
        joined =
            append_assoc (entries n) (v ∷ weave (take_children (suc i) ds) (take i ws)) _
            ∙ ap (λ es. entries n ++ (v ∷ es)) c.joined;
      }

  halves_at :
      (cs : Children K V) (vs : List (K × V)) (mid : K × V)
      → length vs / 2 < num_children cs
      → get_elem? vs (length vs / 2) ≡ some mid
      → halves (node cs vs)
        ≡ some (
          node (take_children (suc (length vs / 2)) cs) (take (length vs / 2) vs),
          mid,
          node (drop_children (suc (length vs / 2)) cs) (drop (suc (length vs / 2)) vs),
        )
  unfolding halves
  halves_at cs vs mid h e =
      let l : ltb (length vs / 2) (num_children cs) ≡ true = ground (arith, h) in rw (l, e) refl

  pub halves-IsHalved :
      (h margin : ℕ) (n : Node K V)
      → IsFormed h margin n
      → 3 ≤ length (values n)
      → IsHalved h margin n
  unfolding entries
  halves-IsHalved h margin n (leaf _ cs vs all_null room) l =
      let i = length vs / 2 in
      let (m, there, joined) = parted vs i (omega (arith, l)) in
      record {
        left = node (take_children (suc i) cs) (take i vs);
        mid = m;
        right = node (drop_children (suc i) cs) (drop (suc i) vs);
        result = halves_at cs vs m (omega (arith, l, room)) there;
        left_formed =
            leaf 1 _ _ (AllNull-take (suc i) cs all_null)
              (omega (arith, l, room, length-take i vs, num_children-take (suc i) cs));
        right_formed =
            leaf margin _ _ (AllNull-drop (suc i) cs all_null)
              (omega (arith, l, room, length-drop (suc i) vs, num_children-drop (suc i) cs));
        left_big = omega (arith, l, length-take i vs);
        right_big = omega (arith, l, length-drop (suc i) vs);
        joined =
            rw
              (
                weave-AllNull _ (take i vs) (AllNull-take (suc i) cs all_null),
                weave-AllNull _ (drop (suc i) vs) (AllNull-drop (suc i) cs all_null),
                weave-AllNull cs vs all_null,
              )
              joined;
      }
  halves-IsHalved h margin n (inner g _ m cs vs formed) l =
      let i = length vs / 2 in
      let c = cut g margin i (child m cs) vs formed (omega (arith, l)) in
      record {
        left = node (take_children (suc i) (child m cs)) (take i vs);
        mid = c.mid;
        right = node (drop_children (suc i) (child m cs)) (drop (suc i) vs);
        result =
            halves_at (child m cs) vs c.mid (omega (arith, l, AreFormed-num_children formed))
              c.there;
        left_formed = AreFormed-IsFormed c.front;
        right_formed = AreFormed-IsFormed c.back;
        left_big = omega (arith, l, length-take i vs);
        right_big = omega (arith, l, length-drop (suc i) vs);
        joined = c.joined;
      }
