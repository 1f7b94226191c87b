-- ===== src/WorkList/Defs.antt =====
-- `work_chain`, `inline_worker`, `lambda_work_unit` and `work_distributor` of
-- include/txl/work_list.h, for any type `U` of units. Their virtual `execute` is a parameter: from a
-- unit and a state of the world, the unit and its status after the call, and the next state. The
-- `execute` of a `lambda_work_unit` is one of them.
use libtxl.Prelude.{
  ℕ, zero, suc, ◌+◌, ◌-◌, Bool, true, false, not, Option, none, some, List, [], ◌∷◌, ◌++◌, length,
  get_elem?, set, ltb, ◌==◌, if◌then◌else◌,
}

pub record Status (U X : Type 0) : Type 0 where
  pub finished_unit : Option U
  pub exception : Option X
  pub executed : Bool
  pub success : Bool
  pub complete : Bool

-- A `lambda_work_unit`
pub record Job (A : Type 0) : Type 0 where
  pub action : A
  pub retries : ℕ

-- A `work_chain`: its `work_list`, and whether a unit that is not complete goes to the end
pub record Chain (U : Type 0) : Type 0 where
  pub units : List U
  pub rotate : Bool

-- A worker is a `work_chain`, or an `inline_worker` with its unit.
pub data Worker (U : Type 0) : Type 0 where
  chain : Chain U → Worker U
  inline : Option U → Worker U

pub record WorkerState (U : Type 0) : Type 0 where
  pub worker : Worker U
  pub busy : Bool

pub record Distributor (U : Type 0) : Type 0 where
  pub workers : List (WorkerState U)
  pub num_busy : ℕ

-- How `run` ends: it returns, or it reads an optional that is empty, or it still runs when the fuel
-- is out
pub data Ran (U W : Type 0) : Type 0 where
  finished : Distributor U → List U → W → Ran U W
  undefined : Ran U W
  running : Ran U W

module _ {U : Type 0} where
  abbrev pub pop_front : List U → Option U × List U
  pop_front [] = (none, [])
  pop_front (j ∷ js) = (some j, js)

  -- A worker that is given a unit: whether it takes it, and the worker after that
  abbrev pub chain_add : Chain U → U → Bool × Chain U
  chain_add c j = (true, record c { units = c.units ++ (j ∷ []) })

  abbrev pub inline_add : Option U → U → Bool × Option U
  inline_add none j = (true, some j)
  inline_add (some k) j = (false, some k)

  unfoldable pub add : Worker U → U → Bool × Worker U
  add (chain c) j = let (added, d) = chain_add c j in (added, chain d)
  add (inline u) j = let (added, v) = inline_add u j in (added, inline v)

  -- `set_busy` and `set_not_busy` return whether they changed it.
  abbrev pub set_busy : WorkerState U → Bool × WorkerState U
  set_busy s = (not s.busy, record s { busy = true })

  abbrev pub set_not_busy : WorkerState U → Bool × WorkerState U
  set_not_busy s = (s.busy, record s { busy = false })

  -- What `run` counts after a call of `execute`
  unfoldable pub counted : Bool → ℕ → WorkerState U → ℕ × WorkerState U
  counted complete n s =
      let (was_busy, free) = set_not_busy s in
      let (was_free, taken) = set_busy s in
      if complete
      then (if was_busy then n - 1 else n, free)
      else (if was_free then n + 1 else n, taken)

module _ {A W X : Type 0} (work : A → W → W × Option X) where
  -- `lambda_work_unit::execute`, where `work` is what the callable does: from an action and a state
  -- of the world, the next state and the exception thrown, if there is one
  unfoldable pub lambda_execute : Job A → W → (Job A × Status (Job A) X) × W
  lambda_execute j w =
      let (next, thrown) = work j.action w in
      elim thrown [
        | none ↦ (
          (
            j,
            record {
              finished_unit = none;
              exception = none;
              executed = true;
              success = true;
              complete = true;
            },
          ),
          next,
        )
        | some x ↦
            let retry = ltb 0 j.retries in
            (
              (
                record j { retries = j.retries - 1 },
                record {
                  finished_unit = none;
                  exception = some x;
                  executed = true;
                  success = false;
                  complete = not retry;
                },
              ),
              next,
            )
      ]

module _ {U W X : Type 0} (execute : U → W → (U × Status U X) × W) where
  unfoldable pub chain_execute : Chain U → W → (Chain U × Status U X) × W
  chain_execute c w = elim c.units [
    | [] ↦ (
      (
        c,
        record {
          finished_unit = none;
          exception = none;
          executed = false;
          success = true;
          complete = true;
        },
      ),
      w,
    )
    | j ∷ js ↦
        let ((unit, status), next) = execute j w in
        let left =
          if status.complete then js else if c.rotate then js ++ (unit ∷ []) else unit ∷ js in
        let completed = if status.complete then some unit else none in
        (
          (
            record c { units = left },
            record status { finished_unit = completed; complete = length left == 0 },
          ),
          next,
        )
  ]

  -- `inline_worker::execute`. A unit that is complete is set to null before it is returned.
  unfoldable pub inline_execute : Option U → W → (Option U × Status U X) × W
  inline_execute none w = (
    (
      none,
      record {
        finished_unit = none;
        exception = none;
        executed = false;
        success = true;
        complete = true;
      },
    ),
    w,
  )
  inline_execute (some j) w =
      let ((unit, status), next) = execute j w in
      ((if status.complete then none else some unit, status), next)

  unfoldable pub worker_execute : Worker U → W → (Worker U × Status U X) × W
  unfolding chain_execute inline_execute
  worker_execute (chain c) w =
      let ((d, status), next) = chain_execute c w in ((chain d, status), next)
  worker_execute (inline u) w =
      let ((v, status), next) = inline_execute u w in ((inline v, status), next)

  -- One round of the loop of `run`, once its `*unit` is read
  pub record Turn : Type 0 where
    pub distributor : Distributor U
    pub index : ℕ
    pub unit : Option U
    pub jobs : List U
    pub world : W

  unfoldable pub turn : Distributor U → ℕ → WorkerState U → U → List U → W → Turn
  unfolding add counted worker_execute
  turn d index state j js w =
      let (added, holder) = add state.worker j in
      let (unit, left) = if added then pop_front js else (some j, js) in
      let ((worker, status), next) = worker_execute holder w in
      let (n, after) = counted status.complete d.num_busy (record state { worker = worker }) in
      record {
        distributor = record { workers = set d.workers index after; num_busy = n };
        index = if suc index == length d.workers then 0 else suc index;
        unit = unit;
        jobs = left;
        world = next;
      }

  -- The loop of `run`, from the worker at `index`
  unfoldable pub run_from : ℕ → Distributor U → ℕ → Option U → List U → W → Ran U W
  unfolding turn
  run_from zero d index unit js w = running
  run_from (suc fuel) d index none js w = if d.num_busy == 0 then finished d js w else undefined
  run_from (suc fuel) d index (some j) js w = elim (get_elem? d.workers index) [
    | none ↦ undefined
    | some state ↦
        let t = turn d index state j js w in
        run_from fuel t.distributor t.index t.unit t.jobs t.world
  ]

  unfoldable pub run : ℕ → Distributor U → List U → W → Ran U W
  unfolding run_from
  run fuel d js w =
      let (unit, left) = pop_front js in
      if length d.workers == 0 then finished d js w else run_from fuel d 0 unit left w
