-- ===== src/Runtime/Played.antt =====
-- An execution from its start to its end (start_execution and _run of argus/runtime/runtime.py)
-- with a dispatcher that does not call the runtime back, against a plain fold over the steps.
use argus_os.Prelude.{
  ℕ, zero, suc, ◌+◌, ◌<◌, String, true, ◌≡◌, refl, ap, ◌∙◌, some, none, List, [], ◌∷◌, Result, ok,
  err, arith, inl, inr, string_eq, eq_iff,
}
use argus_os.Prelude.Lists.{length, get_elem?}
use argus_os.Prelude.Dict.{Dict, lookup, insert, lookup-insert, insert-insert}
use argus_os.Lifecycle.{LifecycleState}
use argus_os.Events.{EventType, Event, Value}
use argus_os.Planner.{Planner, Plan, PlanStep, PlanStatus}
use argus_os.Runtime.{
  ExecutionStatus, is_running, Execution, AgentRuntime, RuntimeError, step_execution_error,
  StepCall, Dispatch, step_call, run, start_execution, plan_payload, step_payload, error_payload,
}
use argus_os.Runtime.Loop.{from_runtime, at_call, after_step, run-completed, run-next, run-fails}
use argus_os.Runtime.Ended.{lookup_here, Result-cases}

-- How the steps end, with the index and the results that are reached.
pub data Played : Type 0 where
  all_done : (index : ℕ) (results : Dict String Value) → Played
  step_failed :
      (step : PlanStep) (error : String) (index : ℕ) (results : Dict String Value) → Played

module _ (answer : StepCall → Result String Value) (id : String) (plan : Plan) (now : ℕ) where
  -- A dispatcher that answers from the call alone and leaves the runtime as it is.
  abbrev pub quiet : StepCall → Dispatch
  quiet c r = (answer c, r)

  pub play : List PlanStep → ℕ → Dict String Value → Played
  play [] index results = all_done index results
  play (s ∷ ss) index results = elim (answer (step_call id plan s)) [
    | ok v ↦ play ss (index + 1) (insert s.id v results)
    | err error ↦ step_failed s error index results
  ]

  -- The events of the steps, on top of those before.
  pub step_events : List PlanStep → List Event → List Event
  step_events [] log = from_runtime EventType.execution_completed (plan_payload id plan) ∷ log
  step_events (s ∷ ss) log =
      let started = from_runtime EventType.step_started (step_payload id plan s) ∷ log in
      elim (answer (step_call id plan s)) [
        | ok v ↦
            step_events ss
              (from_runtime EventType.step_completed (step_payload id plan s) ∷ started)
        | err error ↦
            from_runtime EventType.execution_failed (error_payload id plan s error) ∷ started
      ]

  abbrev pub closed : Played → Execution → Execution
  closed (all_done index results) x = record x {
    status = ExecutionStatus.completed;
    current_step = index;
    results = results;
    completed_at = some now;
  }
  closed (step_failed step error index results) x = record x {
    status = ExecutionStatus.failed;
    current_step = index;
    results = results;
    completed_at = some now;
  }

  abbrev pub reply : Played → Execution → Result RuntimeError Execution
  reply (all_done index results) x = ok (closed (all_done index results) x)
  reply (step_failed step error index results) x = err step_execution_error

  -- `rest` are the steps of the plan from `index` on.
  abbrev pub IsRest : List PlanStep → ℕ → Type 0
  IsRest rest index = (j : ℕ) → get_elem? plan.steps (index + j) ≡ get_elem? rest j

  IsRest-suc :
      (s : PlanStep) (ss : List PlanStep) (index : ℕ)
      → IsRest (s ∷ ss) index
      → IsRest ss (index + 1)
  IsRest-suc s ss index h j = ap (get_elem? plan.steps) (omega arith) ∙ h (suc j)

  IsRest-head :
      (rest : List PlanStep) (index : ℕ)
      → IsRest rest index
      → get_elem? plan.steps index ≡ get_elem? rest 0
  IsRest-head rest index h = ap (get_elem? plan.steps) (omega arith) ∙ h 0

  abbrev outcome :
      Played
      → List PlanStep
      → Execution
      → AgentRuntime
      → Result RuntimeError Execution × AgentRuntime
  outcome p rest x r = (
    reply p x,
    record r {
      executions = insert id (closed p x) r.executions;
      published = step_events rest r.published;
    },
  )

  -- What the end makes of an execution does not depend on how far it was.
  pub outcome_after :
      (p : Played) (rest : List PlanStep) (index : ℕ) (results : Dict String Value) (x : Execution)
      (r : AgentRuntime) (log : List Event)
      → outcome p rest
          (record x { current_step = index; results = results })
          (record r {
            executions =
                insert id (record x { current_step = index; results = results }) r.executions;
            published = log;
          })
        ≡ (
          reply p x,
          record r {
            executions = insert id (closed p x) r.executions;
            published = step_events rest log;
          },
        )
  outcome_after (all_done i d) rest index results x r log = ground (
    arith,
    insert-insert id (closed (all_done i d) x)
        (record x { current_step = index; results = results }) r.executions,
  )
  outcome_after (step_failed s error i d) rest index results x r log = ground (
    arith,
    insert-insert id (closed (step_failed s error i d) x)
        (record x { current_step = index; results = results }) r.executions,
  )

  pub run-eq-play :
      (rest : List PlanStep) (fuel : ℕ) (x : Execution) (r : AgentRuntime)
      → lookup id r.executions ≡ some x
      → is_running x.status ≡ true
      → IsRest rest x.current_step
      → length rest < fuel
      → run quiet id plan now fuel r ≡ outcome (play rest x.current_step x.results) rest x r
  unfolding play step_events
  run-eq-play rest zero x r found e h enough = absurd (omega arith)
  run-eq-play [] (suc fuel) x r found e h enough =
      run-completed quiet id plan now fuel r x found e (IsRest-head [] x.current_step h)
  run-eq-play (s ∷ ss) (suc fuel) x r found e h enough =
      let here = IsRest-head (s ∷ ss) x.current_step h in
      elim (Result-cases (answer (step_call id plan s))) [
        | inr (error, p) ↦
            run-fails quiet id plan now fuel r x found s e here (at_call quiet id plan now s r) x
              found error (ap (λ a. (a, at_call quiet id plan now s r)) p)
            ∙ rw (p, play, step_events)
        | inl (v, p) ↦
            let r' = at_call quiet id plan now s r in
            let r'' = after_step quiet id plan now s x.current_step v x r' in
            run-next quiet id plan now fuel r x found s e here r' x found v (ap (λ a. (a, r')) p)
            ∙ run-eq-play ss fuel _ r'' (lookup_here id _ r.executions) e
                (IsRest-suc s ss x.current_step h) (omega arith)
            ∙ outcome_after (play ss (x.current_step + 1) (insert s.id v x.results)) ss
                (x.current_step + 1) (insert s.id v x.results) x r r''.published
            ∙ rw (p, play, step_events)
      ]

-- The execution when its first step is dispatched.
abbrev pub begun : Plan → String → ℕ → Execution
begun plan id now = record {
  plan_id = plan.id;
  id = id;
  status = ExecutionStatus.running;
  current_step = 0;
  results = [];
  started_at = some now;
  completed_at = none;
  metadata = [];
}

abbrev pub first_events : String → Plan → List Event → List Event
first_events id plan log =
    from_runtime EventType.execution_started (plan_payload id plan)
    ∷ from_runtime EventType.execution_created (plan_payload id plan)
    ∷ log

module _ (answer : StepCall → Result String Value) (fuel : ℕ) (planner : Planner)
    (plan_id id : String) (start_time end_time : ℕ) (plan : Plan) (r : AgentRuntime)
    (is_started : r.state ≡ LifecycleState.running)
    (found : lookup plan_id planner.plans ≡ some plan)
    (is_valid : plan.status ≡ PlanStatus.validated) (enough : length plan.steps < fuel) where
  abbrev ending : Played
  ending = play answer id plan end_time plan.steps 0 []

  abbrev registered : AgentRuntime
  registered = record r { plans = insert id plan r.plans }

  abbrev at_first_step : AgentRuntime
  at_first_step = record registered {
    executions = insert id (begun plan id start_time) r.executions;
    published = first_events id plan r.published;
  }

  start_execution_begins :
      start_execution (quiet answer id plan end_time) fuel planner plan_id id start_time end_time r
      ≡ run (quiet answer id plan end_time) id plan end_time fuel at_first_step
  unfolding start_execution
  start_execution_begins = ground (
    arith,
    lookup-insert id id plan r.plans,
    eq_iff id id,
    insert-insert id (begun plan id start_time)
        (record (begun plan id start_time) { status = ExecutionStatus.created; started_at = none })
        r.executions,
  )

  -- A validated plan in a running runtime, with a dispatcher that does not call the runtime back and
  -- fuel for all steps: `start_execution` dispatches the steps in order until one raises, answers
  -- the COMPLETED execution with every step's result under the step's id, or raises, then with a
  -- FAILED execution that has the results so far, touches no other execution, remembers the plan,
  -- and publishes the events of each step between those of the execution. Its two times are those of
  -- its start and of its end.
  pub start_execution_lem :
      start_execution (quiet answer id plan end_time) fuel planner plan_id id start_time end_time r
      ≡ (
        reply answer id plan end_time ending (begun plan id start_time),
        record r {
          executions =
              insert id
                (closed answer id plan end_time ending (begun plan id start_time))
                r.executions;
          plans = insert id plan r.plans;
          published =
              step_events answer id plan end_time plan.steps (first_events id plan r.published);
        },
      )
  unfolding is_running
  start_execution_lem =
      start_execution_begins
      ∙ run-eq-play answer id plan end_time plan.steps fuel (begun plan id start_time) at_first_step
          (lookup_here id (begun plan id start_time) r.executions) refl
          (λ j. ap (get_elem? plan.steps) (omega arith)) enough
      ∙ outcome_after answer id plan end_time ending plan.steps 0 [] (begun plan id start_time)
          registered (first_events id plan r.published)
