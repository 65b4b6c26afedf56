-- ===== src/Runtime/Loop.antt =====
-- The loop of `_run` in argus/runtime/runtime.py with any dispatcher, also one that calls the
-- runtime back: how it ends, and what a step's call may change.
use argus_os.Prelude.{
  ℕ, suc, ◌+◌, String, true, false, ◌≡◌, Exec, ◌>>◌, ◌∙◌, none, some, ◌∷◌, ok, err, arith,
  string_eq,
}
use argus_os.Prelude.Lists.{get_elem?}
use argus_os.Prelude.Dict.{lookup, insert}
use argus_os.Events.{EventType, Event, Payload, Value}
use argus_os.Planner.{Plan, PlanStep}
use argus_os.Runtime.{
  ExecutionStatus, is_running, Execution, AgentRuntime, step_execution_error, StepCall, Dispatch,
  step_call, stored, run, run_step, fail_step, complete_step, complete, put, publish, plan_payload,
  step_payload, error_payload,
}

abbrev pub from_runtime : EventType → Payload → Event
from_runtime type payload = record { type = type; source = "agent_runtime"; payload = payload }

module _ {E S A B : Type 0} (m : Exec E S A) (k : Exec E S B) (s s' : S) where
  then-ok : (a : A) → m s ≡ (ok a, s') → (m >> k) s ≡ k s'
  then-ok a p = ground arith

  then-err : (e : E) → m s ≡ (err e, s') → (m >> k) s ≡ (err e, s')
  then-err e p = ground arith

module _ (dispatch : StepCall → Dispatch) (id : String) (plan : Plan) (now : ℕ) where
  -- The runtime when the dispatcher is called, and after the call has returned or raised.
  abbrev pub at_call : PlanStep → AgentRuntime → AgentRuntime
  at_call step r = record r {
    published = from_runtime EventType.step_started (step_payload id plan step) ∷ r.published;
  }

  abbrev pub after_step : PlanStep → ℕ → Value → Execution → AgentRuntime → AgentRuntime
  after_step step index v y r = record r {
    executions =
        insert id (record y { current_step = index + 1; results = insert step.id v y.results })
          r.executions;
    published = from_runtime EventType.step_completed (step_payload id plan step) ∷ r.published;
  }

  abbrev pub after_failure : PlanStep → String → Execution → AgentRuntime → AgentRuntime
  after_failure step error y r = record r {
    executions =
        insert id (record y { status = ExecutionStatus.failed; completed_at = some now })
          r.executions;
    published =
        from_runtime EventType.execution_failed (error_payload id plan step error) ∷ r.published;
  }

  abbrev pub completed : Execution → Execution
  completed x = record x { status = ExecutionStatus.completed; completed_at = some now }

  abbrev pub after_last : Execution → AgentRuntime → AgentRuntime
  after_last x r = record r {
    executions = insert id (completed x) r.executions;
    published = from_runtime EventType.execution_completed (plan_payload id plan) ∷ r.published;
  }

  module _ (step : PlanStep) (index : ℕ) (r r' : AgentRuntime) (y : Execution)
      (kept : lookup id r'.executions ≡ some y) where
    pub run_step-ok :
        (v : Value)
        → dispatch (step_call id plan step) (at_call step r) ≡ (ok v, r')
        → run_step dispatch id plan now step index r ≡ (ok tt, after_step step index v y r')
    unfolding run_step complete_step stored put publish
    run_step-ok v p = ground arith

    pub run_step-err :
        (error : String)
        → dispatch (step_call id plan step) (at_call step r) ≡ (err error, r')
        → run_step dispatch id plan now step index r
          ≡ (err step_execution_error, after_failure step error y r')
    unfolding run_step fail_step stored put publish
    run_step-err error p = ground arith

  module _ (fuel : ℕ) (r : AgentRuntime) (x : Execution)
      (found : lookup id r.executions ≡ some x) where
    pub run-stopped :
        is_running x.status ≡ false → run dispatch id plan now (suc fuel) r ≡ (ok x, r)
    unfolding run stored
    run-stopped e = ground arith

    pub run-completed :
        is_running x.status ≡ true
        → get_elem? plan.steps x.current_step ≡ none
        → run dispatch id plan now (suc fuel) r ≡ (ok (completed x), after_last x r)
    unfolding run stored complete put publish
    run-completed e n = ground arith

    pub run-step :
        (step : PlanStep)
        → is_running x.status ≡ true
        → get_elem? plan.steps x.current_step ≡ some step
        → run dispatch id plan now (suc fuel) r
          ≡ (run_step dispatch id plan now step x.current_step >> run dispatch id plan now fuel) r
    unfolding run stored
    run-step step e n = ground arith

    module _ (step : PlanStep) (e : is_running x.status ≡ true)
        (n : get_elem? plan.steps x.current_step ≡ some step) (r' : AgentRuntime) (y : Execution)
        (kept : lookup id r'.executions ≡ some y) where
      pub run-next :
          (v : Value)
          → dispatch (step_call id plan step) (at_call step r) ≡ (ok v, r')
          → run dispatch id plan now (suc fuel) r
            ≡ run dispatch id plan now fuel (after_step step x.current_step v y r')
      run-next v p =
          run-step step e n
          ∙ then-ok (run_step dispatch id plan now step x.current_step)
              (run dispatch id plan now fuel) r _ tt
              (run_step-ok step x.current_step r r' y kept v p)

      -- A step of a RUNNING execution whose dispatch raises ends the loop with an error and leaves
      -- the execution FAILED, whatever status it has by then: one that was cancelled during the
      -- call, too.
      pub run-fails :
          (error : String)
          → dispatch (step_call id plan step) (at_call step r) ≡ (err error, r')
          → run dispatch id plan now (suc fuel) r
            ≡ (err step_execution_error, after_failure step error y r')
      run-fails error p =
          run-step step e n
          ∙ then-err (run_step dispatch id plan now step x.current_step)
              (run dispatch id plan now fuel) r _ step_execution_error
              (run_step-err step x.current_step r r' y kept error p)
