-- ===== src/FlatMap/Emplace.antt =====
-- What `emplace` of include/txl/flat_map.h stores, and what it does not.
use mathlib.Core.Option.{none-ne-some, some-ne-none, some-injective}
use libtxl.Prelude.{
  ℕ, zero, suc, ◌+◌, ◌-◌, ◌%◌, ◌≤◌, ◌<◌, ◌≡◌, refl, sym, ap, ◌∙◌, inl, inr, Bool-cases, true, false,
  none, some, [], ◌∷◌, length, length-set, get_elem?, get_elem?-set_self, set, leb, arith, size_mod,
}
use libtxl.FlatMap.Defs.{
  Hash, Buckets, FlatMap, placed, place, max_tries, counted, emplace, probe, linear_find, find,
}
use libtxl.FlatMap.Probes.{Probe, place-probed, probe-probed, set-Probe}

same_self : {K : Type 0} (h : Hash K) (k : K) → h.same k k ≡ true
same_self h k = (h.same_iff k k).1 refl

module _ {K V : Type 0} (h : Hash K) where
  linear_find-found :
      (e : K × V) (bs : Buckets K V) (k : K)
      → h.same e.0 k ≡ true
      → linear_find h (some e ∷ bs) k ≡ some e
  linear_find-found e bs k same = rw (linear_find, same) refl

  linear_find-passed :
      (e : K × V) (bs : Buckets K V) (k : K)
      → h.same e.0 k ≡ false
      → linear_find h (some e ∷ bs) k ≡ linear_find h bs k
  linear_find-passed e bs k other = rw (linear_find, other) refl

  linear_find-set :
      (bs : Buckets K V) (q : ℕ) (k : K) (v : V)
      → get_elem? bs q ≡ some none
      → linear_find h bs k ≡ none
      → linear_find h (set bs q (some (k, v))) k ≡ some (k, v)
  linear_find-set [] q k v free absent = absurd (none-ne-some _ free)
  linear_find-set (none ∷ bs) zero k v free absent = rw (linear_find, same_self h k) refl
  linear_find-set (none ∷ bs) (suc q) k v free absent = linear_find-set bs q k v free absent
  linear_find-set (some e ∷ bs) zero k v free absent =
      absurd (some-ne-none e (some-injective _ _ free))
  linear_find-set (some e ∷ bs) (suc q) k v free absent = elim (Bool-cases (h.same e.0 k)) [
    | inl same ↦ absurd (some-ne-none e (sym (linear_find-found e bs k same) ∙ absent))
    | inr other ↦
        linear_find-passed e (set bs q (some (k, v))) k other
        ∙ linear_find-set bs q k v free (sym (linear_find-passed e bs k other) ∙ absent)
  ]

  linear_find-set_other :
      (bs : Buckets K V) (q : ℕ) (k k' : K) (v : V)
      → get_elem? bs q ≡ some none
      → h.same k k' ≡ false
      → linear_find h (set bs q (some (k, v))) k' ≡ linear_find h bs k'
  linear_find-set_other [] q k k' v free other = refl
  linear_find-set_other (none ∷ bs) zero k k' v free other = rw (linear_find, other) refl
  linear_find-set_other (none ∷ bs) (suc q) k k' v free other =
      linear_find-set_other bs q k k' v free other
  linear_find-set_other (some e ∷ bs) zero k k' v free other =
      absurd (some-ne-none e (some-injective _ _ free))
  linear_find-set_other (some e ∷ bs) (suc q) k k' v free other =
      rw (linear_find, linear_find-set_other bs q k k' v free other) refl

  place-free :
      (bs : Buckets K V) (k : K) (v : V) (p d q : ℕ)
      → Probe h bs k p d q
      → d < max_tries
      → get_elem? bs q ≡ some none
      → place h max_tries bs p k v ≡ some (placed (set bs q (some (k, v))))
  place-free bs k v p d q probed less free =
      let one_more : place h (suc (15 - d)) bs q k v ≡ some (placed (set bs q (some (k, v)))) =
        rw (place, free) refl in
      place-probed h bs k v p d q (suc (15 - d)) max_tries probed (omega (arith, less)) ∙ one_more

  probe-stored :
      (bs : Buckets K V) (k : K) (v : V) (p d q size : ℕ)
      → Probe h bs k p d q
      → d < size
      → get_elem? bs q ≡ some none
      → probe h size (set bs q (some (k, v))) p k ≡ some (some (k, v))
  probe-stored bs k v p d q size probed less free =
      let bs' = set bs q (some (k, v)) in
      let one_more : probe h (suc (size - d - 1)) bs' q k ≡ some (some (k, v)) =
        rw (probe, get_elem?-set_self bs q (some (k, v)) none free, same_self h k) refl in
      probe-probed h bs' k p d q (suc (size - d - 1)) size
        (set-Probe h bs k p d q q (some (k, v)) free probed) (omega (arith, less))
      ∙ one_more

  -- A key that is not in the map, with a free slot within 16 tries from its hash, and fewer than
  -- 2^64 - 1 entries counted: `emplace` stores it and counts it; afterwards `find` returns the
  -- new entry, whichever of its two searches it takes. For every other key the search through all
  -- buckets, which is the one of `find` below 20 entries, gives what it gave before. Keys and values
  -- are of types that may be moved by copying their bytes, as the code does.
  pub find-emplace :
      (m : FlatMap K V) (k : K) (v : V) (d q : ℕ)
      → Probe h m.buckets k (h.hash k % length m.buckets) d q
      → d < max_tries
      → get_elem? m.buckets q ≡ some none
      → linear_find h m.buckets k ≡ none
      → m.size + 1 < size_mod
      → (m' : FlatMap K V) × (emplace h m k v ≡ some m')
        × (m'.size ≡ m.size + 1)
        × (find h m' k ≡ some (some (k, v)))
        × ((k' : K)
            → h.same k k' ≡ false
            → linear_find h m'.buckets k' ≡ linear_find h m.buckets k')
  unfolding emplace find
  find-emplace m k v d q probed less free absent bound =
      let bs' = set m.buckets q (some (k, v)) in
      let m' : FlatMap K V = record { buckets = bs'; size = (m.size + 1) % size_mod } in
      let grown : m'.size ≡ m.size + 1 = omega (arith, bound) in
      (
        m',
        ap (counted h m) (place-free m.buckets k v _ d q probed less free),
        grown,
        elim (Bool-cases (leb 20 m'.size)) [
          | inl big ↦
              let many : 20 ≤ m'.size = ground (arith, big) in
              let reached : d < m'.size = omega (arith, less, many) in
              rw (find, big, length-set m.buckets q (some (k, v)))
                (probe-stored m.buckets k v _ d q m'.size probed reached free)
          | inr small ↦ rw (find, small, linear_find-set m.buckets q k v free absent) refl
        ],
        λ k' other. linear_find-set_other m.buckets q k k' v free other,
      )

  -- When the 16 slots from the hash of a key on all have entries with other keys, `emplace` stores
  -- nothing and returns, and counts an entry all the same: with fewer than 19 entries counted, a
  -- key that was not in the map is not found afterwards.
  pub emplace_dropped :
      (m : FlatMap K V) (k : K) (v : V) (q : ℕ)
      → Probe h m.buckets k (h.hash k % length m.buckets) max_tries q
      → linear_find h m.buckets k ≡ none
      → m.size < 19
      → (m' : FlatMap K V) × (emplace h m k v ≡ some m')
        × (m'.buckets ≡ m.buckets)
        × (m'.size ≡ m.size + 1)
        × (find h m' k ≡ some none)
  unfolding emplace find
  emplace_dropped m k v q probed absent less =
      let m' : FlatMap K V = record m { size = (m.size + 1) % size_mod } in
      let small : leb 20 m'.size ≡ false = ground (arith, less) in
      (
        m',
        ap (counted h m)
            (place-probed h m.buckets k v _ max_tries q 0 max_tries probed (omega arith)),
        refl,
        omega (arith, less),
        rw (find, small, absent) refl,
      )
