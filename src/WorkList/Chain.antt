-- ===== src/WorkList/Chain.antt =====
-- How often a `work_chain` of include/txl/work_list.h executes its units, when they are lambda units.
use libtxl.Prelude.{
  ℕ, zero, suc, ◌+◌, ◌-◌, ◌≤◌, ◌<◌, ◌≡◌, ◌≢◌, Bool, Bool-cases, inl, inr, ◌⊎◌, refl, ap, Option,
  none, some, List, [], ◌∷◌, ◌++◌, ltb, arith,
}
use libtxl.WorkList.Defs.{Job, Chain, lambda_execute, chain_execute}

pub Option-cases : {X : Type 0} (o : Option X) → (o ≡ none) ⊎ ((x : X) × (o ≡ some x))
Option-cases none = inl refl
Option-cases (some x) = inr (x, refl)

module _ {A : Type 0} where
  -- The calls that the units may take: one each, and one for each retry
  unfoldable pub budget : List (Job A) → ℕ
  budget [] = 0
  budget (j ∷ js) = suc j.retries + budget js

  budget-append : (js ks : List (Job A)) → budget (js ++ ks) ≡ budget js + budget ks
  unfolding budget
  budget-append [] ks = omega arith
  budget-append (j ∷ js) ks = omega (arith, budget-append js ks)

module _ {A W X : Type 0} (work : A → W → W × Option X) where
  -- The chain and the world after some calls of `execute`
  unfoldable pub calls : ℕ → Chain (Job A) → W → Chain (Job A) × W
  unfolding chain_execute
  calls zero c w = (c, w)
  calls (suc n) c w = let r = chain_execute (lambda_execute work) c w in calls n r.0.0 r.1

  -- A call for a unit that throws uses one of the calls that the units may take, and one for a unit
  -- that returns uses all of the unit's.
  chain_execute-thrown :
      (j : Job A) (js : List (Job A)) (rotate : Bool) (w : W) (x : X)
      → (work j.action w).1 ≡ some x
      → suc (
          budget
            (chain_execute
              (lambda_execute work)
              (record { units = j ∷ js; rotate = rotate })
              w).0.0.units)
        ≡ budget (j ∷ js)
  unfolding chain_execute lambda_execute budget
  chain_execute-thrown j js rotate w x e = elim (Bool-cases (ltb 0 j.retries)) [
    | inl r ↦
        let some_left : 1 ≤ j.retries = ground (arith, r) in
        elim (Bool-cases rotate) [
          | inl t ↦
              rw (chain_execute, lambda_execute, e, r, t, budget-append js)
                (omega (arith, some_left))
          | inr t ↦ rw (chain_execute, lambda_execute, e, r, t) (omega (arith, some_left))
        ]
    | inr r ↦
        let none_left : j.retries ≡ 0 = ground (arith, r) in
        rw (chain_execute, lambda_execute, e, r) (omega (arith, none_left))
  ]

  chain_execute-returned :
      (j : Job A) (js : List (Job A)) (rotate : Bool) (w : W)
      → (work j.action w).1 ≡ none
      → budget
          (chain_execute
            (lambda_execute work)
            (record { units = j ∷ js; rotate = rotate })
            w).0.0.units
        ≡ budget js
  unfolding chain_execute lambda_execute budget
  chain_execute-returned j js rotate w e = rw (chain_execute, lambda_execute, e) refl

  chain_execute-less :
      (j : Job A) (js : List (Job A)) (rotate : Bool) (w : W)
      → budget
          (chain_execute
            (lambda_execute work)
            (record { units = j ∷ js; rotate = rotate })
            w).0.0.units
        < budget (j ∷ js)
  unfolding budget
  chain_execute-less j js rotate w = elim (Option-cases (work j.action w).1) [
    | inl e ↦ omega (arith, chain_execute-returned j js rotate w e)
    | inr (x, e) ↦ omega (arith, chain_execute-thrown j js rotate w x e)
  ]

  budget-positive : (js : List (Job A)) → budget js ≡ 0 → js ≡ []
  unfolding budget
  budget-positive [] e = refl
  budget-positive (j ∷ js) e = absurd (omega (arith, e))

  calls_at_most :
      (n : ℕ) (js : List (Job A)) (rotate : Bool) (w : W)
      → budget (calls n (record { units = js; rotate = rotate }) w).0.units ≤ budget js - n
  unfolding calls chain_execute budget
  calls_at_most zero js rotate w = omega arith
  calls_at_most (suc n) [] rotate w = omega (arith, calls_at_most n [] rotate w)
  calls_at_most (suc n) (j ∷ js) rotate w =
      let r = chain_execute (lambda_execute work) (record { units = j ∷ js; rotate = rotate }) w in
      omega (arith, chain_execute-less j js rotate w, calls_at_most n r.0.0.units r.0.0.rotate r.1)

  calls_exactly :
      (n : ℕ) (js : List (Job A)) (rotate : Bool) (w : W)
      → ((a : A) (v : W) → (work a v).1 ≢ none)
      → budget (calls n (record { units = js; rotate = rotate }) w).0.units ≡ budget js - n
  unfolding calls chain_execute budget
  calls_exactly zero js rotate w t = omega arith
  calls_exactly (suc n) [] rotate w t = omega (arith, calls_exactly n [] rotate w t)
  calls_exactly (suc n) (j ∷ js) rotate w t =
      let r = chain_execute (lambda_execute work) (record { units = j ∷ js; rotate = rotate }) w in
      elim (Option-cases (work j.action w).1) [
        | inl e ↦ absurd (t j.action w e)
        | inr (x, e) ↦ omega (
          arith,
          chain_execute-thrown j js rotate w x e,
          calls_exactly n r.0.0.units r.0.0.rotate r.1 t,
        )
      ]

  -- A chain of lambda units is empty after as many calls of `execute` as it has units and retries in all, whatever
  -- the units do.
  pub calls-budget :
      (c : Chain (Job A)) (w : W) (n : ℕ) → budget c.units ≤ n → (calls n c w).0.units ≡ []
  calls-budget c w n h =
      budget-positive (calls n c w).0.units (omega (arith, h, calls_at_most n c.units c.rotate w))

  -- When every unit always throws, fewer calls are not enough.
  calls_too_few :
      (c : Chain (Job A)) (w : W) (n : ℕ)
      → ((a : A) (v : W) → (work a v).1 ≢ none)
      → n < budget c.units
      → (calls n c w).0.units ≢ []
  unfolding budget
  calls_too_few c w n t h e =
      absurd (omega (arith, h, calls_exactly n c.units c.rotate w t, ap budget e))
