-- ===== src/Runtime/Ended.antt =====
-- How the loop of `_run` in argus/runtime/runtime.py ends with any dispatcher, also one that calls
-- the runtime back.
use argus_os.Prelude.{
  ℕ, zero, suc, ◌+◌, ◌<◌, String, true, false, ◌≡◌, refl, ap, ◌∙◌, some, List, [], ◌∷◌, Result, ok,
  err, arith, ◌⊎◌, inl, inr, string_eq, eq_iff, is_some, Bool-cases, Option-cases,
}
use argus_os.Prelude.Lists.{length, get_elem?}
use argus_os.Prelude.Dict.{Dict, lookup, insert, lookup-insert}
use argus_os.Events.{Value}
use argus_os.Planner.{Plan, PlanStep}
use argus_os.Runtime.{
  ExecutionStatus, is_running, Execution, AgentRuntime, RuntimeError, step_execution_error,
  StepCall, Dispatch, step_call, run,
}
use argus_os.Runtime.Loop.{
  at_call, after_step, completed, run-stopped, run-completed, run-next, run-fails,
}

-- The end of a run: an execution that is not RUNNING any more, as it is stored, or the error of a
-- step, with a stored execution that is FAILED.
abbrev pub Ended : String → Result RuntimeError Execution × AgentRuntime → Type 0
Ended id (ok x, r) = (lookup id r.executions ≡ some x) × (is_running x.status ≡ false)
Ended id (err e, r) =
    (e ≡ step_execution_error)
    × ((x : Execution) × ((lookup id r.executions ≡ some x) × (x.status ≡ ExecutionStatus.failed)))

-- The dispatcher takes no execution out of the runtime, as no method of the runtime does.
abbrev pub Keeps : (StepCall → Dispatch) → String → Type 0
Keeps dispatch id =
    (c : StepCall) (r : AgentRuntime)
    → is_some (lookup id r.executions) ≡ true
    → is_some (lookup id (dispatch c r).1.executions) ≡ true

pub get_elem?-lt :
    {A : Type 0} (xs : List A) (i : ℕ) (a : A) → get_elem? xs i ≡ some a → i < length xs
get_elem?-lt [] i a h = cc
get_elem?-lt (x ∷ xs) zero a h = omega arith
get_elem?-lt (x ∷ xs) (suc i) a h = omega (arith, get_elem?-lt xs i a h)

pair_eq : {A B : Type 0} {p : A × B} {a : A} → p.0 ≡ a → p ≡ (a, p.1)
pair_eq {p = p} e = ap (λ a. (a, p.1)) e

pub Result-cases :
    {E A : Type 0} (x : Result E A) → ((a : A) × (x ≡ ok a)) ⊎ ((e : E) × (x ≡ err e))
Result-cases (ok a) = inl (a, refl)
Result-cases (err e) = inr (e, refl)

pub lookup_here :
    (id : String) (x : Execution) (d : Dict String Execution) → lookup id (insert id x d) ≡ some x
lookup_here id x d = ground (arith, lookup-insert id id x d, eq_iff id id)

completed-not_running : is_running ExecutionStatus.completed ≡ false
unfolding is_running
completed-not_running = refl

module _ (dispatch : StepCall → Dispatch) (id : String) (plan : Plan) (now : ℕ)
    (keeps : Keeps dispatch id) where
  stored_after :
      (c : StepCall) (r : AgentRuntime) (x : Execution)
      → lookup id r.executions ≡ some x
      → (y : Execution) × (lookup id (dispatch c r).1.executions ≡ some y)
  stored_after c r x found = elim (Option-cases (lookup id (dispatch c r).1.executions)) [
    | inl n ↦ ground (arith, keeps c r)
    | inr s ↦ s
  ]

  -- For any dispatcher that takes no execution out of the runtime, a stored execution, and more
  -- fuel than there are steps left (at least one): the loop ends. The execution that it answers is
  -- stored and not RUNNING any more, or a step raised and the stored execution is FAILED.
  pub run-Ended :
      (fuel : ℕ) (r : AgentRuntime) (x : Execution)
      → lookup id r.executions ≡ some x
      → length plan.steps < fuel + x.current_step
      → 0 < fuel
      → Ended id (run dispatch id plan now fuel r)
  run-Ended zero r x found enough h = absurd (omega arith)
  run-Ended (suc fuel) r x found enough h = elim (Bool-cases (is_running x.status)) [
    | inr e ↦ rw (run-stopped dispatch id plan now fuel r x found e) (found, e)
    | inl e ↦ elim (Option-cases (get_elem? plan.steps x.current_step)) [
      | inl n ↦
          rw (run-completed dispatch id plan now fuel r x found e n)
            (lookup_here id (completed dispatch id plan now x) r.executions, completed-not_running)
      | inr (step, n) ↦
          let c = step_call id plan step in
          let r' = (dispatch c (at_call dispatch id plan now step r)).1 in
          let (y, kept) = stored_after c (at_call dispatch id plan now step r) x found in
          elim (Result-cases (dispatch c (at_call dispatch id plan now step r)).0) [
            | inr (error, p) ↦
                rw
                  (run-fails dispatch id plan now fuel r x found step e n r' y kept error
                    (pair_eq p))
                  (refl, (_, (lookup_here id _ r'.executions, refl)))
            | inl (v, p) ↦
                rw (run-next dispatch id plan now fuel r x found step e n r' y kept v (pair_eq p)) (
                  run-Ended fuel (after_step dispatch id plan now step x.current_step v y r') _
                    (lookup_here id _ r'.executions) (omega arith)
                    (omega (arith, get_elem?-lt plan.steps x.current_step step n)))
          ]
    ]
  ]

module _ (dispatch : StepCall → Dispatch) (id : String) (plan : Plan) (now fuel : ℕ)
    (r : AgentRuntime) (x : Execution) (found : lookup id r.executions ≡ some x) (step : PlanStep)
    (e : is_running x.status ≡ true) (n : get_elem? plan.steps x.current_step ≡ some step)
    (r' : AgentRuntime) (y : Execution) (kept : lookup id r'.executions ≡ some y) where
  -- A step of a RUNNING execution during whose dispatch the execution gets another status, as by
  -- a pause or a cancellation, and which then returns: its result is kept, no other step is
  -- dispatched (with fuel for two turns), and the execution keeps that status.
  pub run-reentrant :
      (v : Value)
      → dispatch (step_call id plan step) (at_call dispatch id plan now step r) ≡ (ok v, r')
      → is_running y.status ≡ false
      → run dispatch id plan now (suc (suc fuel)) r ≡ (
        ok (record y { current_step = x.current_step + 1; results = insert step.id v y.results }),
        after_step dispatch id plan now step x.current_step v y r',
      )
  run-reentrant v p stopped =
      run-next dispatch id plan now (suc fuel) r x found step e n r' y kept v p
      ∙ run-stopped dispatch id plan now fuel
          (after_step dispatch id plan now step x.current_step v y r') _
          (lookup_here id _ r'.executions) stopped
