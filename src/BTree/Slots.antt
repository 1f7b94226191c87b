-- ===== src/BTree/Slots.antt =====
-- Where `insert_into` of include/txl/btree.h puts an entry.
use libtxl.Prelude.{
  ℕ, zero, suc, ◌≤◌, ◌≡◌, Bool-cases, refl, ap, inl, inr, some, List, [], ◌∷◌, length, arith,
}
use libtxl.BTree.Key.{Key}
use libtxl.BTree.Sorted.{put}
use libtxl.BTree.Defs.{Children, nil, null, child, num_children, emplace_null, emplace_at, index_of}
use libtxl.BTree.Entries.{AllNull}

module _ {K V : Type 0} (o : Key K) where
  open o use {less}

  pub emplace-index_of :
      (e : K × V) (vs : List (K × V)) → emplace_at (index_of o vs e.0) e vs ≡ put o e vs
  unfolding put
  emplace-index_of e [] = refl
  emplace-index_of e (v ∷ vs) = elim (Bool-cases (less v.0 e.0)) [
    | inl p ↦ rw (p, emplace-index_of e vs) refl
    | inr p ↦ rw (p) refl
  ]

  pub length-put : (e : K × V) (vs : List (K × V)) → length (put o e vs) ≡ suc (length vs)
  unfolding put
  length-put e [] = refl
  length-put e (v ∷ vs) = elim (Bool-cases (less v.0 e.0)) [
    | inl p ↦ rw (p) (ap suc (length-put e vs))
    | inr p ↦ rw (p) refl
  ]

  pub index_of-le-length : (vs : List (K × V)) (k : K) → index_of o vs k ≤ length vs
  index_of-le-length [] k = omega arith
  index_of-le-length (v ∷ vs) k = elim (Bool-cases (less v.0 k)) [
    | inl p ↦ rw (p) (omega (arith, index_of-le-length vs k))
    | inr p ↦ rw (p) (omega arith)
  ]

  -- One more null child
  pub record Nulled (i : ℕ) (cs : Children K V) : Type 0 where
    pub to : Children K V
    pub result : emplace_null i cs ≡ some to
    pub all_null : AllNull to
    pub counted : num_children to ≡ suc (num_children cs)

  pub emplace_null-Nulled :
      (i : ℕ) (cs : Children K V) → i ≤ num_children cs → AllNull cs → Nulled i cs
  emplace_null-Nulled zero cs l h = record {
    to = null cs;
    result = refl;
    all_null = h;
    counted = refl;
  }
  emplace_null-Nulled (suc i) nil l h = absurd (omega (arith, l))
  emplace_null-Nulled (suc i) (null cs) l h =
      let r = emplace_null-Nulled i cs (omega (arith, l)) h in
      record {
        to = null r.to;
        result = rw (r.result) refl;
        all_null = r.all_null;
        counted = ap suc r.counted;
      }
  emplace_null-Nulled (suc i) (child n cs) l h = elim h [ ]
