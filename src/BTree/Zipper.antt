-- ===== src/BTree/Zipper.antt =====
-- The children of a node of include/txl/btree.h in front of one index.
use libtxl.Prelude.{
  ℕ, suc, ◌≤◌, ◌≡◌, refl, sym, ap, ◌∙◌, some, List, [], ◌∷◌, ◌++◌, append_assoc, length, get_elem?,
  set,
}
use libtxl.BTree.Defs.{Node, Children, child, values, num_children, emplace_at, set_child}
use libtxl.BTree.Rebalance.{child_at, erase_at, remove_child_at}
use libtxl.BTree.Entries.{entries, weave, IsFormed, AreFormed, more}

-- An index behind so many others
abbrev pub at : {A : Type 0} → List A → ℕ → ℕ
at [] j = j
at (p ∷ ps) j = suc (at ps j)

pub at-suc : {A : Type 0} (ps : List A) (j : ℕ) → suc (at ps j) ≡ at ps (suc j)
at-suc [] j = refl
at-suc (p ∷ ps) j = ap suc (at-suc ps j)

module _ {K V : Type 0} where
  -- Children, each with the value behind it, in front of others
  abbrev pub before : List (Node K V × (K × V)) → Children K V → Children K V
  before [] cs = cs
  before ((n, v) ∷ ps) cs = child n (before ps cs)

  abbrev pub behind : List (Node K V × (K × V)) → List (K × V) → List (K × V)
  behind [] vs = vs
  behind ((n, v) ∷ ps) vs = v ∷ behind ps vs

  unfoldable pub flat : List (Node K V × (K × V)) → List (K × V)
  flat [] = []
  flat ((n, v) ∷ ps) = entries n ++ (v ∷ flat ps)

  abbrev pub PreFormed : ℕ → List (Node K V × (K × V)) → Type 0
  PreFormed h [] = Unit
  PreFormed h ((n, v) ∷ ps) = IsFormed h 1 n × (1 ≤ length (values n)) × PreFormed h ps

  -- What stands behind a child
  unfoldable pub rest_entries : Children K V → List (K × V) → List (K × V)
  rest_entries cs [] = weave cs []
  rest_entries cs (v ∷ vs) = v ∷ weave cs vs

  pub weave-child :
      (n : Node K V) (cs : Children K V) (vs : List (K × V))
      → weave (child n cs) vs ≡ entries n ++ rest_entries cs vs
  unfolding entries rest_entries
  weave-child n cs [] = refl
  weave-child n cs (v ∷ vs) = refl

  pub weave-before :
      (ps : List (Node K V × (K × V))) (cs : Children K V) (vs : List (K × V))
      → weave (before ps cs) (behind ps vs) ≡ flat ps ++ weave cs vs
  unfolding entries flat
  weave-before [] cs vs = refl
  weave-before ((n, v) ∷ ps) cs vs =
      ap (λ es. entries n ++ (v ∷ es)) (weave-before ps cs vs)
      ∙ sym (append_assoc (entries n) (v ∷ flat ps) (weave cs vs))

  pub AreFormed-before :
      (h margin : ℕ) (ps : List (Node K V × (K × V))) (cs : Children K V) (vs : List (K × V))
      → PreFormed h ps
      → AreFormed h margin cs vs
      → AreFormed h margin (before ps cs) (behind ps vs)
  AreFormed-before h margin [] cs vs p f = f
  AreFormed-before h margin ((n, v) ∷ ps) cs vs (g, big, p) f =
      more h margin n (before ps cs) v (behind ps vs) g big (AreFormed-before h margin ps cs vs p f)

  pub num_children-before :
      (ps : List (Node K V × (K × V))) (cs : Children K V)
      → num_children (before ps cs) ≡ at ps (num_children cs)
  num_children-before [] cs = refl
  num_children-before ((n, v) ∷ ps) cs = ap suc (num_children-before ps cs)

  pub length-behind :
      (ps : List (Node K V × (K × V))) (vs : List (K × V))
      → length (behind ps vs) ≡ at ps (length vs)
  length-behind [] vs = refl
  length-behind ((n, v) ∷ ps) vs = ap suc (length-behind ps vs)

  pub get_elem?-behind :
      (ps : List (Node K V × (K × V))) (vs : List (K × V)) (j : ℕ)
      → get_elem? (behind ps vs) (at ps j) ≡ get_elem? vs j
  get_elem?-behind [] vs j = refl
  get_elem?-behind ((n, v) ∷ ps) vs j = get_elem?-behind ps vs j

  pub set-behind :
      (ps : List (Node K V × (K × V))) (vs : List (K × V)) (j : ℕ) (x : K × V)
      → set (behind ps vs) (at ps j) x ≡ behind ps (set vs j x)
  set-behind [] vs j x = refl
  set-behind ((n, v) ∷ ps) vs j x = ap (λ ws. v ∷ ws) (set-behind ps vs j x)

  pub emplace_at-behind :
      (ps : List (Node K V × (K × V))) (vs : List (K × V)) (j : ℕ) (x : K × V)
      → emplace_at (at ps j) x (behind ps vs) ≡ behind ps (emplace_at j x vs)
  emplace_at-behind [] vs j x = refl
  emplace_at-behind ((n, v) ∷ ps) vs j x = ap (λ ws. v ∷ ws) (emplace_at-behind ps vs j x)

  pub erase_at-behind :
      (ps : List (Node K V × (K × V))) (vs ws : List (K × V)) (j : ℕ)
      → erase_at j vs ≡ some ws
      → erase_at (at ps j) (behind ps vs) ≡ some (behind ps ws)
  erase_at-behind [] vs ws j e = e
  erase_at-behind ((n, v) ∷ ps) vs ws j e = rw (erase_at-behind ps vs ws j e) refl

  pub child_at-before :
      (ps : List (Node K V × (K × V))) (cs : Children K V) (j : ℕ)
      → child_at (at ps j) (before ps cs) ≡ child_at j cs
  child_at-before [] cs j = refl
  child_at-before ((n, v) ∷ ps) cs j = child_at-before ps cs j

  pub set_child-before :
      (ps : List (Node K V × (K × V))) (cs ds : Children K V) (j : ℕ) (m : Node K V)
      → set_child j m cs ≡ some ds
      → set_child (at ps j) m (before ps cs) ≡ some (before ps ds)
  set_child-before [] cs ds j m e = e
  set_child-before ((n, v) ∷ ps) cs ds j m e = rw (set_child-before ps cs ds j m e) refl

  pub remove_child_at-before :
      (ps : List (Node K V × (K × V))) (cs ds : Children K V) (j : ℕ)
      → remove_child_at j cs ≡ some ds
      → remove_child_at (at ps j) (before ps cs) ≡ some (before ps ds)
  remove_child_at-before [] cs ds j e = e
  remove_child_at-before ((n, v) ∷ ps) cs ds j e = rw (remove_child_at-before ps cs ds j e) refl
