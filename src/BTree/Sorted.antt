-- ===== src/BTree/Sorted.antt =====
-- The contract of include/txl/btree.h: the entries in the order of their keys.
use libtxl.Prelude.{
  true, Bool-cases, Option, none, some, List, [], ◌∷◌, ◌++◌, ◌≡◌, ◌≢◌, refl, sym, ap, inl, inr,
  if◌then◌else◌,
}
use libtxl.BTree.Key.{Key, less_asym, less_of_not, less_ne, ne-equal}

module _ {A : Type 0} where
  abbrev pub All : (A → Type 0) → List A → Type 0
  All P [] = Unit
  All P (x ∷ xs) = P x × All P xs

  pub All-mono : {P Q : A → Type 0} (xs : List A) → ((x : A) → P x → Q x) → All P xs → All Q xs
  All-mono [] f h = tt
  All-mono (x ∷ xs) f (h, hs) = (f x h, All-mono xs f hs)

  pub All-append : (P : A → Type 0) (xs ys : List A) → All P xs → All P ys → All P (xs ++ ys)
  All-append P [] ys h g = g
  All-append P (x ∷ xs) ys (h, hs) g = (h, All-append P xs ys hs g)

  pub All_left : (P : A → Type 0) (xs ys : List A) → All P (xs ++ ys) → All P xs
  All_left P [] ys h = tt
  All_left P (x ∷ xs) ys (h, hs) = (h, All_left P xs ys hs)

  pub All_right : (P : A → Type 0) (xs ys : List A) → All P (xs ++ ys) → All P ys
  All_right P [] ys h = h
  All_right P (x ∷ xs) ys (h, hs) = All_right P xs ys hs

module _ {K V : Type 0} (o : Key K) where
  open o use {less, equal}

  abbrev pub Above : K → List (K × V) → Type 0
  Above k es = All (λ e. less k e.0 ≡ true) es

  abbrev pub Below : K → List (K × V) → Type 0
  Below k es = All (λ e. less e.0 k ≡ true) es

  abbrev pub IsSorted : List (K × V) → Type 0
  IsSorted [] = Unit
  IsSorted (e ∷ es) = Above e.0 es × IsSorted es

  abbrev pub Absent : K → List (K × V) → Type 0
  Absent k es = All (λ e. e.0 ≢ k) es

  -- Insertion before the first key that is not smaller
  unfoldable pub put : K × V → List (K × V) → List (K × V)
  put x [] = x ∷ []
  put x (e ∷ es) = let later = e ∷ put x es in if less e.0 x.0 then later else x ∷ e ∷ es

  unfoldable pub lookup : K → List (K × V) → Option V
  lookup k [] = none
  lookup k (e ∷ es) = let later = lookup k es in if equal e.0 k then some e.1 else later

  -- Without the entry of a key
  unfoldable pub delete : K → List (K × V) → List (K × V)
  delete k [] = []
  delete k (e ∷ es) = let later = e ∷ delete k es in if equal e.0 k then es else later

  pub Above-trans : (j k : K) (es : List (K × V)) → less j k ≡ true → Above k es → Above j es
  Above-trans j k es p h = All-mono es (λ e q. o.trans j k e.0 p q) h

  pub Below-trans : (j k : K) (es : List (K × V)) → less j k ≡ true → Below j es → Below k es
  Below-trans j k es p h = All-mono es (λ e q. o.trans e.0 j k q p) h

  pub Above-Absent : (k : K) (es : List (K × V)) → Above k es → Absent k es
  Above-Absent k es h = All-mono es (λ e q same. less_ne o k e.0 q (sym same)) h

  pub Below-Absent : (k : K) (es : List (K × V)) → Below k es → Absent k es
  Below-Absent k es h = All-mono es (λ e q. less_ne o e.0 k q) h

  -- A sorted list in parts around one entry
  pub record Parts (xs : List (K × V)) (e : K × V) (ys : List (K × V)) : Type 0 where
    pub below : Below e.0 xs
    pub above : Above e.0 ys
    pub left : IsSorted xs
    pub right : IsSorted ys

  pub IsSorted-Parts :
      (xs : List (K × V)) (e : K × V) (ys : List (K × V))
      → IsSorted (xs ++ (e ∷ ys))
      → Parts xs e ys
  IsSorted-Parts [] e ys (a, s) = record { below = tt; above = a; left = tt; right = s }
  IsSorted-Parts (x ∷ xs) e ys (a, s) =
      let p = IsSorted-Parts xs e ys s in
      record {
        below = ((All_right (λ y. less x.0 y.0 ≡ true) xs (e ∷ ys) a).0, p.below);
        above = p.above;
        left = (All_left (λ y. less x.0 y.0 ≡ true) xs (e ∷ ys) a, p.left);
        right = p.right;
      }

  pub Parts-IsSorted :
      (xs : List (K × V)) (e : K × V) (ys : List (K × V))
      → Parts xs e ys
      → IsSorted (xs ++ (e ∷ ys))
  Parts-IsSorted [] e ys p = (p.above, p.right)
  Parts-IsSorted (x ∷ xs) e ys p =
      let (less_e, below) = p.below in
      let (a, s) = p.left in
      (
        All-append (λ y. less x.0 y.0 ≡ true) xs (e ∷ ys) a
            (less_e, Above-trans x.0 e.0 ys less_e p.above),
        Parts-IsSorted xs e ys
            (record { below = below; above = p.above; left = s; right = p.right }),
      )

  pub put-left :
      (x : K × V) (xs ys : List (K × V)) → Below x.0 xs → put x (xs ++ ys) ≡ xs ++ put x ys
  unfolding put
  put-left x [] ys h = refl
  put-left x (e ∷ xs) ys (p, h) = rw (p, put-left x xs ys h) refl

  pub put-right :
      (x : K × V) (xs ys : List (K × V)) → Above x.0 ys → put x (xs ++ ys) ≡ put x xs ++ ys
  unfolding put
  put-right x [] [] h = refl
  put-right x [] (y ∷ ys) (p, h) = rw (less_asym o x.0 y.0 p) refl
  put-right x (e ∷ xs) ys h = elim (Bool-cases (less e.0 x.0)) [
    | inl p ↦ rw (p, put-right x xs ys h) refl
    | inr p ↦ rw (p) refl
  ]

  pub All-put :
      (P : K × V → Type 0) (x : K × V) (es : List (K × V)) → P x → All P es → All P (put x es)
  unfolding put
  All-put P x [] p h = (p, tt)
  All-put P x (e ∷ es) p (q, h) = elim (Bool-cases (less e.0 x.0)) [
    | inl l ↦ rw (l) (q, All-put P x es p h)
    | inr l ↦ rw (l) (p, (q, h))
  ]

  pub put-IsSorted :
      (x : K × V) (es : List (K × V)) → Absent x.0 es → IsSorted es → IsSorted (put x es)
  unfolding put
  put-IsSorted x [] h s = (tt, tt)
  put-IsSorted x (e ∷ es) (ne, h) (a, s) = elim (Bool-cases (less e.0 x.0)) [
    | inl l ↦ rw (l) (All-put (λ y. less e.0 y.0 ≡ true) x es l a, put-IsSorted x es h s)
    | inr l ↦ let g = less_of_not o e.0 x.0 l ne in rw (l) ((g, Above-trans x.0 e.0 es g a), (a, s))
  ]

  pub lookup-left : (k : K) (xs ys : List (K × V)) → Absent k xs → lookup k (xs ++ ys) ≡ lookup k ys
  unfolding lookup
  lookup-left k [] ys h = refl
  lookup-left k (e ∷ xs) ys (ne, h) = rw (ne-equal o e.0 k ne) (lookup-left k xs ys h)

  pub lookup-Absent : (k : K) (es : List (K × V)) → Absent k es → lookup k es ≡ none
  unfolding lookup
  lookup-Absent k [] h = refl
  lookup-Absent k (e ∷ es) (ne, h) = rw (ne-equal o e.0 k ne) (lookup-Absent k es h)

  pub lookup-right :
      (k : K) (xs ys : List (K × V)) → Absent k ys → lookup k (xs ++ ys) ≡ lookup k xs
  unfolding lookup
  lookup-right k [] ys h = lookup-Absent k ys h
  lookup-right k (e ∷ xs) ys h = rw (lookup-right k xs ys h) refl

  pub IsSorted_right : (xs ys : List (K × V)) → IsSorted (xs ++ ys) → IsSorted ys
  IsSorted_right [] ys s = s
  IsSorted_right (x ∷ xs) ys (a, s) = IsSorted_right xs ys s

  pub IsSorted_left : (xs ys : List (K × V)) → IsSorted (xs ++ ys) → IsSorted xs
  IsSorted_left [] ys s = tt
  IsSorted_left (x ∷ xs) ys (a, s) =
      (All_left (λ e. less x.0 e.0 ≡ true) xs ys a, IsSorted_left xs ys s)

  pub delete-left :
      (k : K) (xs ys : List (K × V)) → Absent k xs → delete k (xs ++ ys) ≡ xs ++ delete k ys
  unfolding delete
  delete-left k [] ys h = refl
  delete-left k (e ∷ xs) ys (ne, h) =
      rw (ne-equal o e.0 k ne) (ap (λ es. e ∷ es) (delete-left k xs ys h))

  pub delete-Absent : (k : K) (es : List (K × V)) → Absent k es → delete k es ≡ es
  unfolding delete
  delete-Absent k [] h = refl
  delete-Absent k (e ∷ es) (ne, h) =
      rw (ne-equal o e.0 k ne) (ap (λ xs. e ∷ xs) (delete-Absent k es h))

  pub delete-right :
      (k : K) (xs ys : List (K × V)) → Absent k ys → delete k (xs ++ ys) ≡ delete k xs ++ ys
  unfolding delete
  delete-right k [] ys h = delete-Absent k ys h
  delete-right k (e ∷ xs) ys h = elim (Bool-cases (equal e.0 k)) [
    | inl p ↦ rw (p) refl
    | inr p ↦ rw (p) (ap (λ es. e ∷ es) (delete-right k xs ys h))
  ]

  pub All-delete : (P : K × V → Type 0) (k : K) (es : List (K × V)) → All P es → All P (delete k es)
  unfolding delete
  All-delete P k [] h = tt
  All-delete P k (e ∷ es) (p, h) = elim (Bool-cases (equal e.0 k)) [
    | inl q ↦ rw (q) h
    | inr q ↦ rw (q) (p, All-delete P k es h)
  ]

  pub delete-IsSorted : (k : K) (es : List (K × V)) → IsSorted es → IsSorted (delete k es)
  unfolding delete
  delete-IsSorted k [] s = tt
  delete-IsSorted k (e ∷ es) (a, s) = elim (Bool-cases (equal e.0 k)) [
    | inl q ↦ rw (q) s
    | inr q ↦ rw (q) (All-delete (λ x. less e.0 x.0 ≡ true) k es a, delete-IsSorted k es s)
  ]
