-- ===== src/FlatMap/Defs.antt =====
-- `flat_map` of include/txl/flat_map.h. The two flags of a bucket are set together, so a bucket is
-- an entry or none. The code copies the bytes of a bucket where it stores one; keys and values are of
-- types for which that makes a copy, so an entry is a value here. `none` for a result is an access outside of the buckets.
use libtxl.Prelude.{
  ℕ, zero, suc, ◌+◌, ◌%◌, ◌≡◌, ◌↔◌, Bool, true, false, Option, none, some, List, [], ◌∷◌, length,
  get_elem?, set, replicate, leb, ◌==◌, if◌then◌else◌, size_mod,
}

-- What the code uses of `std::hash<K>` and of the equality of keys
pub record Hash {ℓ} (K : Type ℓ) : Type ℓ where
  pub hash : K → ℕ
  pub same : K → K → Bool
  pub same_iff : (a b : K) → (same a b ≡ true) ↔ (a ≡ b)

module _ {ℓ} (K V : Type ℓ) where
  abbrev pub Buckets : Type ℓ
  Buckets = List (Option (K × V))

  pub record FlatMap : Type ℓ where
    pub buckets : Buckets
    pub size : ℕ

  -- How the private `emplace` ends: with `true`, `false` or `-1`
  pub data Placed : Type ℓ where
    placed : Buckets → Placed
    replaced : Buckets → Placed
    too_many_tries : Placed

abbrev pub max_tries : ℕ
max_tries = 16

module _ {ℓ} {K V : Type ℓ} (h : Hash K) where
  abbrev pub next_slot : Buckets K V → ℕ → ℕ
  next_slot bs p = if p + 1 == length bs then 0 else p + 1

  -- The loop of the private `emplace`, on the tries that are left
  abbrev pub place : ℕ → Buckets K V → ℕ → K → V → Option (Placed K V)
  place zero bs p k v = some too_many_tries
  place (suc tries) bs p k v =
      let rest = place tries bs (next_slot bs p) k v in
      elim (get_elem? bs p) [
        | none ↦ none
        | some none ↦ some (placed (set bs p (some (k, v))))
        | some (some e) ↦ if h.same e.0 k then some (replaced (set bs p (some (e.0, v)))) else rest
      ]

  -- What `emplace` makes of the end of the private one. It returns a `bool`, so its `-1` is 1, and
  -- the loop that would call `resize` ends.
  abbrev pub counted : FlatMap K V → Option (Placed K V) → Option (FlatMap K V)
  counted m none = none
  counted m (some (placed bs)) = some (record { buckets = bs; size = (m.size + 1) % size_mod })
  counted m (some (replaced bs)) = some (record { buckets = bs; size = m.size })
  counted m (some too_many_tries) = some (record m { size = (m.size + 1) % size_mod })

  unfoldable pub emplace : FlatMap K V → K → V → Option (FlatMap K V)
  emplace m k v = counted m (place max_tries m.buckets (h.hash k % length m.buckets) k v)

  abbrev pub probe : ℕ → Buckets K V → ℕ → K → Option (Option (K × V))
  probe zero bs p k = some none
  probe (suc tries) bs p k =
      let rest = probe tries bs (next_slot bs p) k in
      elim (get_elem? bs p) [
        | none ↦ none
        | some none ↦ some none
        | some (some e) ↦ if h.same e.0 k then some (some e) else rest
      ]

  abbrev pub hash_find : FlatMap K V → K → Option (Option (K × V))
  hash_find m k = probe m.size m.buckets (h.hash k % length m.buckets) k

  abbrev pub linear_find : Buckets K V → K → Option (K × V)
  linear_find [] k = none
  linear_find (none ∷ bs) k = linear_find bs k
  linear_find (some e ∷ bs) k = let rest = linear_find bs k in if h.same e.0 k then some e else rest

  unfoldable pub find : FlatMap K V → K → Option (Option (K × V))
  find m k = if leb 20 m.size then hash_find m k else some (linear_find m.buckets k)

  -- `erase`: a key that is not there is reported. Of one that is there nothing is erased, and the
  -- end of the function is reached without a result, which is the outer `none`.
  abbrev pub erase : FlatMap K V → K → Option Bool
  erase m k = elim (find m k) [ none ↦ none | some none ↦ some false | some (some e) ↦ none ]

abbrev pub flat_map {ℓ} : {K V : Type ℓ} → ℕ → FlatMap K V
flat_map s = record { buckets = replicate s none; size = 0 }
