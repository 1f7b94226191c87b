-- ===== src/WorkList/Distributor.antt =====
-- `work_distributor` of include/txl/work_list.h with inline workers.
use libtxl.Prelude.{
  ℕ, zero, suc, ◌-◌, ◌≤◌, ◌<◌, ◌≡◌, true, false, refl, sym, ap, ◌∙◌, none, some, List, [], ◌∷◌,
  ◌++◌, append-nil, length, get_elem?, set, replicate, length-replicate, ◌==◌, if◌then◌else◌, arith,
}
use libtxl.WorkList.Defs.{
  inline, WorkerState, Distributor, Ran, finished, pop_front, add, counted, Status, inline_execute,
  worker_execute, Turn, turn, run_from, run,
}

module _ {U : Type 0} where
  abbrev pub idle : WorkerState U
  idle = record { worker = inline none; busy = false }

  -- A distributor with this many inline workers, none of which has a unit
  abbrev pub idle_workers : ℕ → Distributor U
  idle_workers n = record { workers = replicate n idle; num_busy = 0 }

  get_elem?-idle : (n i : ℕ) → i < n → get_elem? (replicate n idle) i ≡ some idle
  get_elem?-idle zero i h = absurd (omega (arith, h))
  get_elem?-idle (suc n) zero h = refl
  get_elem?-idle (suc n) (suc i) h = get_elem?-idle n i (omega (arith, h))

  set-idle : (n i : ℕ) → set (replicate n idle) i idle ≡ replicate n idle
  set-idle zero i = refl
  set-idle (suc n) zero = refl
  set-idle (suc n) (suc i) = ap (λ ss. idle ∷ ss) (set-idle n i)

module _ {U W X : Type 0} (execute : U → W → (U × Status U X) × W) where
  -- The world after one call of `execute` on each of the units, in order
  abbrev pub worked : List U → W → W
  worked [] w = w
  worked (j ∷ js) w = worked js (execute j w).1

  -- Each of them is complete after that call.
  abbrev pub Completing : List U → W → Type 0
  Completing [] w = Unit
  Completing (j ∷ js) w = ((execute j w).0.1.complete ≡ true) × Completing js (execute j w).1

  turn-idle :
      (n i : ℕ) (j : U) (js : List U) (w : W)
      → (execute j w).0.1.complete ≡ true
      → turn execute (idle_workers n) i idle j js w ≡ record {
        distributor = idle_workers n;
        index = if suc i == n then 0 else suc i;
        unit = (pop_front js).0;
        jobs = (pop_front js).1;
        world = (execute j w).1;
      }
  unfolding turn add counted worker_execute inline_execute
  turn-idle n i j js w e =
      rw (turn, worker_execute, inline_execute, e, set-idle n i, length-replicate n idle) refl

  -- Fuel for one round for each unit, and more
  fuel_for : List U → ℕ → ℕ
  fuel_for [] fuel = fuel
  fuel_for (j ∷ js) fuel = suc (fuel_for js fuel)

  fuel_for-eq : (js : List U) (fuel : ℕ) → length js ≤ fuel → fuel ≡ fuel_for js (fuel - length js)
  unfolding fuel_for
  fuel_for-eq [] fuel h = omega arith
  fuel_for-eq (j ∷ js) fuel h = omega (
    arith,
    h,
    fuel_for-eq js (fuel - 1) (omega (arith, h)),
    ap (λ x. fuel_for js x) (less_one fuel (length js)),
  )
    where
      less_one : (a b : ℕ) → a - 1 - b ≡ a - suc b
      less_one a b = omega arith

  run_from-idle :
      (n i : ℕ) (j : U) (js : List U) (w : W) (fuel : ℕ)
      → i < n
      → (execute j w).0.1.complete ≡ true
      → run_from execute (suc fuel) (idle_workers n) i (some j) js w
        ≡ run_from execute fuel
            (idle_workers n)
            (if suc i == n then 0 else suc i)
            (pop_front js).0
            (pop_front js).1
            (execute j w).1
  unfolding run_from
  run_from-idle n i j js w fuel h e =
      let go : Turn execute → Ran U W =
        λ t. run_from execute fuel t.distributor t.index t.unit t.jobs t.world in
      let first : run_from execute (suc fuel) (idle_workers n) i (some j) js w
          ≡ go (turn execute (idle_workers n) i idle j js w) =
        rw (run_from, get_elem?-idle n i h) refl in
      first ∙ ap go (turn-idle n i j js w e)

  -- The rounds of the units in front, which are complete at once
  run_from-Completing :
      (n i : ℕ) (js ks : List U) (w : W) (fuel : ℕ)
      → i < n
      → Completing js w
      → (m : ℕ) × (m < n)
        × (run_from execute
              (fuel_for js fuel)
              (idle_workers n)
              i
              (pop_front (js ++ ks)).0
              (pop_front (js ++ ks)).1
              w
            ≡ run_from execute fuel
                (idle_workers n)
                m
                (pop_front ks).0
                (pop_front ks).1
                (worked js w))
  unfolding run_from fuel_for
  run_from-Completing n i [] ks w fuel h r = (i, h, refl)
  run_from-Completing n i (j ∷ js) ks w fuel h (e, r) =
      let (m, below, rest) =
        run_from-Completing n (if suc i == n then 0 else suc i) js ks (execute j w).1 fuel
          (ground (arith, h)) r in
      (m, below, run_from-idle n i j (js ++ ks) w (fuel_for js fuel) h e ∙ rest)

  -- The loop up to the last units
  run-first :
      (n : ℕ) (js ks : List U) (w : W) (fuel : ℕ)
      → 0 < n
      → Completing js w
      → length js ≤ fuel
      → (m : ℕ) × (m < n)
        × (run execute fuel (idle_workers n) (js ++ ks) w
            ≡ run_from execute
                (fuel - length js)
                (idle_workers n)
                m
                (pop_front ks).0
                (pop_front ks).1
                (worked js w))
  unfolding run
  run-first n js ks w fuel h r enough =
      let some_workers : (length (replicate n (idle {U = U})) == 0) ≡ false =
        ground (arith, h, length-replicate n (idle {U = U})) in
      let (m, below, rest) = run_from-Completing n 0 js ks w (fuel - length js) h r in
      let started : run execute fuel (idle_workers n) (js ++ ks) w
          ≡ run_from execute fuel (idle_workers n) 0 (pop_front (js ++ ks)).0
              (pop_front (js ++ ks)).1 w =
        rw (some_workers) refl in
      (
        m,
        below,
        started
            ∙ ap
                (λ f.
                  run_from execute f (idle_workers n) 0 (pop_front (js ++ ks)).0
                    (pop_front (js ++ ks)).1 w)
                (fuel_for-eq js fuel enough)
            ∙ rest,
      )

  run_from-end :
      (n m fuel : ℕ) (w : W)
      → 0 < fuel
      → run_from execute fuel (idle_workers n) m none [] w ≡ finished (idle_workers n) [] w
  unfolding run_from
  run_from-end n m zero w h = absurd (omega (arith, h))
  run_from-end n m (suc fuel) w h = refl

  -- On a distributor with one inline worker or more, none of which has a unit, and none busy: when
  -- each unit of the list, executed once and in order, is complete, then `run` executes them so and
  -- returns, with all workers free and the list empty; fuel for one round for each unit and one more
  -- is enough.
  pub run-Completing :
      (n : ℕ) (js : List U) (w : W) (fuel : ℕ)
      → 0 < n
      → Completing js w
      → length js < fuel
      → run execute fuel (idle_workers n) js w ≡ finished (idle_workers n) [] (worked js w)
  run-Completing n js w fuel h r enough =
      let (m, below, e) = run-first n js [] w fuel h r (omega (arith, enough)) in
      ap (λ xs. run execute fuel (idle_workers n) xs w) (sym (append-nil js))
      ∙ e
      ∙ run_from-end n m (fuel - length js) (worked js w) (omega (arith, enough))
