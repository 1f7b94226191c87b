-- ===== src/WorkList/Tests.antt =====
-- Workers and their distributor at concrete inputs.
use libtxl.Prelude.{ℕ, ◌+◌, ◌≡◌, true, Option, none, some, [], ◌∷◌, refl, arith, ltb, if◌then◌else◌}
use libtxl.WorkList.Defs.{
  Job, Chain, Status, finished, lambda_execute, chain_execute, inline_execute, worker_execute, add,
  counted, turn, run_from, run,
}
use libtxl.WorkList.Chain.{budget, calls, calls-budget}
use libtxl.WorkList.Distributor.{idle_workers, worked, run-Completing}

-- An action counts its call, and throws while the count is below a number.
abbrev flaky : ℕ → ℕ → ℕ × Option ℕ
flaky limit count = (count + 1, if ltb count limit then some count else none)

abbrev job : ℕ → ℕ → Job ℕ
job limit retries = record { action = limit; retries = retries }

abbrev two_jobs : Chain (Job ℕ)
two_jobs = record { units = job 9 1 ∷ job 0 2 ∷ []; rotate = true }

budget-two_jobs : budget two_jobs.units ≡ 5
unfolding budget
budget-two_jobs = refl

-- The first unit throws, the second returns, and the first throws again: 3 calls.
calls-two_jobs : calls flaky 3 two_jobs 0 ≡ (record { units = []; rotate = true }, 3)
unfolding calls chain_execute lambda_execute
calls-two_jobs = refl

calls-budget_example : (calls flaky 5 two_jobs 0).0.units ≡ []
calls-budget_example = calls-budget flaky two_jobs 0 5 (omega (arith, budget-two_jobs))

-- Units of two kinds: a lambda unit, or a chain of lambda units
data Work : Type 0 where
  lambda : Job ℕ → Work
  chain : Chain (Job ℕ) → Work

abbrev lift : (Job ℕ → Work) → Status (Job ℕ) ℕ → Status Work ℕ
lift f s = record {
  finished_unit = elim s.finished_unit [ none ↦ none | some j ↦ some (f j) ];
  exception = s.exception;
  executed = s.executed;
  success = s.success;
  complete = s.complete;
}

abbrev execute : Work → ℕ → (Work × Status Work ℕ) × ℕ
execute (lambda j) w =
    let ((k, status), next) = lambda_execute flaky j w in ((lambda k, lift lambda status), next)
execute (chain c) w =
    let ((d, status), next) = chain_execute (lambda_execute flaky) c w in
    ((chain d, lift lambda status), next)

abbrev steps : Work
steps = chain (record { units = job 0 0 ∷ job 0 0 ∷ job 0 0 ∷ []; rotate = true })

abbrev one_step : Work
one_step = chain (record { units = job 0 0 ∷ []; rotate = true })

-- A lambda unit, and a chain of one, which is complete when its unit is
run-Completing_example :
    run execute 3 (idle_workers 2) (lambda (job 0 0) ∷ one_step ∷ []) 0
    ≡ finished (idle_workers 2) [] (worked execute (lambda (job 0 0) ∷ one_step ∷ []) 0)
unfolding lambda_execute chain_execute
run-Completing_example =
    run-Completing execute 2 (lambda (job 0 0) ∷ one_step ∷ []) 0 3 (omega arith) (refl, (refl, tt))
      (omega arith)

-- The unit in front is tried again while another one waits.
run-retried :
    run (lambda_execute flaky) 9 (idle_workers 1) (job 1 1 ∷ job 0 0 ∷ []) 0
    ≡ finished (idle_workers 1) [] 3
unfolding run run_from turn add counted worker_execute inline_execute lambda_execute
run-retried = refl
