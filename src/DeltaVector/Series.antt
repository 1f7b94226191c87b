-- ===== src/DeltaVector/Series.antt =====
-- The values that a vector of include/txl/delta_vector.h gives back.
use mathlib.Core.Path.{subst}
use native.Mathlib.Nat.{mod-eq_of_lt, add-mod_right}
use libtxl.Prelude.{
  ℕ, ◌+◌, ◌-◌, ◌%◌, ◌≤◌, ◌<◌, ◌≡◌, refl, sym, ap, ◌∙◌, List, [], ◌∷◌, ◌++◌, append_assoc,
  append-nil, arith,
}
use libtxl.DeltaVector.Defs.{
  DeltaVector, delta_vector, push_back, push_back_delta, push_all, values, values_from,
}

module _ (base_mod delta_mod : ℕ) where
  -- Each value is at least the one before it, by less than a `Delta` holds.
  abbrev pub Rises : ℕ → List ℕ → Type 0
  Rises last [] = Unit
  Rises last (v ∷ vs) = (last ≤ v) × (v - last < delta_mod) × (v < base_mod) × Rises v vs

  unfoldable pub final : ℕ → List ℕ → ℕ
  final last [] = last
  final last (delta ∷ deltas) = final ((last + delta) % base_mod) deltas

  values_from-append :
      (last : ℕ) (ds : List ℕ) (d : ℕ)
      → values_from base_mod delta_mod last (ds ++ (d ∷ []))
        ≡ values_from base_mod delta_mod last ds ++ ((final last ds + d) % base_mod ∷ [])
  unfolding values_from final
  values_from-append last [] d = refl
  values_from-append last (e ∷ ds) d =
      ap (λ vs. (last + e) % base_mod ∷ vs) (values_from-append ((last + e) % base_mod) ds d)

  final-append :
      (last : ℕ) (ds : List ℕ) (d : ℕ)
      → final last (ds ++ (d ∷ [])) ≡ (final last ds + d) % base_mod
  unfolding final
  final-append last [] d = refl
  final-append last (e ∷ ds) d = final-append ((last + e) % base_mod) ds d

  sum_back : (last v : ℕ) → last ≤ v → last + (v - last) ≡ v
  sum_back last v h = omega arith

  wrapped_difference :
      (last v : ℕ) → last ≤ v → v < base_mod → (v + base_mod - last) % base_mod ≡ v - last
  wrapped_difference last v low small =
      let moved : v + base_mod - last ≡ (v - last) + base_mod = omega arith in
      let below : v - last < base_mod = omega arith in
      ap (λ k. k % base_mod) moved ∙ add-mod_right (v - last) base_mod ∙ mod-eq_of_lt below

  -- The difference that `push_back` keeps leads to the value.
  kept_difference :
      (last v : ℕ)
      → last ≤ v
      → v - last < delta_mod
      → v < base_mod
      → (last + (v + base_mod - last) % base_mod % delta_mod) % base_mod ≡ v
  kept_difference last v low fits small =
      rw (wrapped_difference last v low small, mod-eq_of_lt fits, sum_back last v low)
        (mod-eq_of_lt small)

  push_back_lem :
      (d : DeltaVector) (v : ℕ)
      → d.last ≡ final d.base d.deltas
      → d.last ≤ v
      → v - d.last < delta_mod
      → v < base_mod
      → values base_mod delta_mod (push_back base_mod delta_mod d v)
        ≡ values base_mod delta_mod d ++ (v ∷ [])
  unfolding values push_back push_back_delta
  push_back_lem d v e low fits small =
      values_from-append d.base d.deltas ((v + base_mod - d.last) % base_mod % delta_mod)
      ∙ ap (λ k. values_from base_mod delta_mod d.base d.deltas ++ (k ∷ []))
          (ap (λ l. (l + (v + base_mod - d.last) % base_mod % delta_mod) % base_mod) (sym e)
            ∙ kept_difference d.last v low fits small)

  push_back_last :
      (d : DeltaVector) (v : ℕ)
      → d.last ≤ v
      → v - d.last < delta_mod
      → v < base_mod
      → (push_back base_mod delta_mod d v).last ≡ v
  unfolding push_back push_back_delta
  push_back_last d v low fits small = kept_difference d.last v low fits small

  push_back-final :
      (d : DeltaVector) (v : ℕ)
      → d.last ≡ final d.base d.deltas
      → (push_back base_mod delta_mod d v).last
        ≡ final d.base (push_back base_mod delta_mod d v).deltas
  unfolding push_back push_back_delta
  push_back-final d v e =
      ap (λ l. (l + (v + base_mod - d.last) % base_mod % delta_mod) % base_mod) e
      ∙ sym (final-append d.base d.deltas ((v + base_mod - d.last) % base_mod % delta_mod))

  push_all_lem :
      (d : DeltaVector) (vs : List ℕ)
      → d.last ≡ final d.base d.deltas
      → Rises d.last vs
      → values base_mod delta_mod (push_all base_mod delta_mod d vs)
        ≡ values base_mod delta_mod d ++ vs
  unfolding push_all push_back push_back_delta
  push_all_lem d [] e r = sym (append-nil (values base_mod delta_mod d))
  push_all_lem d (v ∷ vs) e (low, fits, small, r) =
      let d' = push_back base_mod delta_mod d v in
      push_all_lem d' vs (push_back-final d v e)
        (subst (λ l. Rises l vs) (sym (push_back_last d v low fits small)) r)
      ∙ ap (λ ws. ws ++ vs) (push_back_lem d v e low fits small)
      ∙ append_assoc (values base_mod delta_mod d) (v ∷ []) vs

  -- Values pushed one by one on a vector with a base give back the base followed by exactly those
  -- values, in order, if the base is below the range of `Base` and each value is at least the one
  -- before it, by less than the range of `Delta`, and below the range of `Base`.
  pub values-push_all :
      (base : ℕ) (vs : List ℕ)
      → base < base_mod
      → Rises base vs
      → values base_mod delta_mod
          (push_all base_mod delta_mod (delta_vector base_mod delta_mod base) vs)
        ≡ base ∷ vs
  unfolding delta_vector push_back_delta values values_from final
  values-push_all base vs small r =
      let start = delta_vector base_mod delta_mod base in
      let zero_step : (base + 0) % base_mod ≡ base =
        ap (λ k. k % base_mod) (omega arith) ∙ mod-eq_of_lt small in
      push_all_lem start vs refl (subst (λ l. Rises l vs) (sym zero_step) r)
      ∙ ap (λ k. k ∷ vs) zero_step
