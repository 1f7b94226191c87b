-- ===== src/FlatMap/Probes.antt =====
-- The slots that the loops of include/txl/flat_map.h go along.
use mathlib.Core.Option.{some-ne-none, some-injective}
use libtxl.Prelude.{
  ℕ, zero, suc, ◌+◌, ◌≡◌, ◌≢◌, refl, sym, ap, ap₂, ◌∙◌, false, Option, none, some, length-set,
  get_elem?, get_elem?-set_other, set, arith,
}
use libtxl.FlatMap.Defs.{Hash, Buckets, next_slot, place, probe}

module _ {K V : Type 0} (h : Hash K) where
  -- From the slot `p` on, `d` slots have entries with other keys, and `q` is the slot behind them.
  abbrev pub Probe : Buckets K V → K → ℕ → ℕ → ℕ → Type 0
  Probe bs k p zero q = p ≡ q
  Probe bs k p (suc d) q =
      (e : K × V) × (get_elem? bs p ≡ some (some e))
      × (h.same e.0 k ≡ false)
      × Probe bs k (next_slot h bs p) d q

  pub place-probed :
      (bs : Buckets K V) (k : K) (v : V) (p d q t tries : ℕ)
      → Probe bs k p d q
      → tries ≡ d + t
      → place h tries bs p k v ≡ place h t bs q k v
  place-probed bs k v p zero q t tries e n =
      ap₂ (λ i j. place h i bs j k v) {x = tries} {y = t} {u = p} {v = q} (omega (arith, n)) e
  place-probed bs k v p (suc d) q t zero (e, there, other, r) n = absurd (omega (arith, n))
  place-probed bs k v p (suc d) q t (suc tries) (e, there, other, r) n =
      rw (place, there, other)
        (place-probed bs k v (next_slot h bs p) d q t tries r (omega (arith, n)))

  pub probe-probed :
      (bs : Buckets K V) (k : K) (p d q t tries : ℕ)
      → Probe bs k p d q
      → tries ≡ d + t
      → probe h tries bs p k ≡ probe h t bs q k
  probe-probed bs k p zero q t tries e n =
      ap₂ (λ i j. probe h i bs j k) {x = tries} {y = t} {u = p} {v = q} (omega (arith, n)) e
  probe-probed bs k p (suc d) q t zero (e, there, other, r) n = absurd (omega (arith, n))
  probe-probed bs k p (suc d) q t (suc tries) (e, there, other, r) n =
      rw (probe, there, other)
        (probe-probed bs k (next_slot h bs p) d q t tries r (omega (arith, n)))

  -- A write to a slot that was free
  pub set-Probe :
      (bs : Buckets K V) (k : K) (p d q i : ℕ) (x : Option (K × V))
      → get_elem? bs i ≡ some none
      → Probe bs k p d q
      → Probe (set bs i x) k p d q
  set-Probe bs k p zero q i x free e = e
  set-Probe bs k p (suc d) q i x free (e, there, other, r) =
      let ne : p ≢ i =
        λ same. some-ne-none e (some-injective _ _ (sym there ∙ ap (get_elem? bs) same ∙ free)) in
      let slot : next_slot h (set bs i x) p ≡ next_slot h bs p = rw (length-set bs i x) refl in
      (
        e,
        get_elem?-set_other bs i p x ne ∙ there,
        other,
        rw (slot) (set-Probe bs k (next_slot h bs p) d q i x free r),
      )
