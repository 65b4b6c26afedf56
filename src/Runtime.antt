-- ===== src/Runtime.antt =====
-- argus/runtime/runtime.py, execution.py: AgentRuntime. The dispatcher is a parameter: any action
-- that gets a step's context and this runtime, may call the runtime back, and returns or raises.
-- The planner is asked once, when an execution starts; its state is an argument. The loop of `_run`
-- takes fuel. The readings of the clock and a new uuid are arguments.
pub mod Loop
pub mod Ended
pub mod Played
pub mod Resumed
mod Tests
use argus_os.Prelude.{
  ℕ, zero, suc, ◌+◌, String, Bool, true, false, not, Option, none, some, List, [], ◌∷◌, Result, ok,
  err, Exec, pure, raise, gets, modify, guard, or_raise, ◌>>=◌, ◌>>◌, string_eq, refl,
  if◌then◌else◌,
}
use argus_os.Prelude.Lists.{get_elem?}
use argus_os.Prelude.Dict.{Dict, lookup, insert, values}
use argus_os.Lifecycle.{LifecycleState}
use argus_os.Events.{EventType, Event, Payload, Value, text, number}
use argus_os.Service.{Stateful, require_state}
use argus_os.Service
use argus_os.Planner.{Planner, Plan, PlanStep, IntentType, is_validated}

pub data ExecutionStatus : Type 0 where
  created running paused failed completed cancelled : ExecutionStatus

unfoldable pub is_running : ExecutionStatus → Bool
is_running ExecutionStatus.running = true
is_running _ = false

unfoldable pub is_paused : ExecutionStatus → Bool
is_paused ExecutionStatus.paused = true
is_paused _ = false

-- `status in (FAILED, COMPLETED, CANCELLED)`
unfoldable pub is_terminal : ExecutionStatus → Bool
is_terminal ExecutionStatus.failed = true
is_terminal ExecutionStatus.completed = true
is_terminal ExecutionStatus.cancelled = true
is_terminal _ = false

pub record Execution : Type 0 where
  pub plan_id : String
  pub id : String
  pub status : ExecutionStatus
  pub current_step : ℕ
  pub results : Dict String Value
  pub started_at : Option ℕ
  pub completed_at : Option ℕ
  pub metadata : Payload

pub record AgentRuntime : Type 0 where
  pub state : LifecycleState
  pub executions : Dict String Execution
  pub plans : Dict String Plan
  pub published : List Event

-- `key_error` is what `self._executions[execution_id]` would raise in the loop, and `out_of_fuel`
-- stands for a loop that has used up its fuel.
pub data RuntimeError : Type 0 where
  agent_runtime_error invalid_execution_state execution_not_found : RuntimeError
  step_execution_error key_error out_of_fuel : RuntimeError

abbrev pub Method : Type 0 → Type 0
Method A = Exec RuntimeError AgentRuntime A

instance abbrev pub runtime_stateful : Stateful AgentRuntime
runtime_stateful = record {
  get_state = λ r. r.state;
  set_state = λ x r. record r { state = x };
  get_state-set_state = λ x r. refl;
}

initialize : Method Unit
initialize = Service.initialize agent_runtime_error

start : Method Unit
start = Service.start agent_runtime_error

stop : Method Unit
stop = Service.stop agent_runtime_error

unfoldable pub publish : EventType → Payload → Method Unit
publish type payload = modify (λ r. record r {
  published = record { type = type; source = "agent_runtime"; payload = payload } ∷ r.published;
})

unfoldable pub require_execution : String → Method Execution
require_execution id = do
  found ← gets (λ r. lookup id r.executions)
  or_raise found execution_not_found

unfoldable pub put : String → Execution → Method Unit
put id x = modify (λ r. record r { executions = insert id x r.executions })

unfoldable pub pause_execution : String → Method Execution
unfolding require_execution put is_running
pause_execution id = do
  x ← require_execution id
  guard (is_running x.status) invalid_execution_state
  put id (record x { status = ExecutionStatus.paused })
  pure (record x { status = ExecutionStatus.paused })

unfoldable pub cancel_execution : String → (now : ℕ) → Method Execution
unfolding require_execution put is_terminal
cancel_execution id now = do
  x ← require_execution id
  guard (not (is_terminal x.status)) invalid_execution_state
  put id (record x { status = ExecutionStatus.cancelled; completed_at = some now })
  pure (record x { status = ExecutionStatus.cancelled; completed_at = some now })

get_execution : String → Method Execution
get_execution = require_execution

list_executions : Method (List Execution)
list_executions = gets (λ r. values r.executions)

unfoldable pub require_validated_plan : Planner → (plan_id : String) → Method Plan
unfolding is_validated
require_validated_plan planner plan_id = do
  canonical ← or_raise (lookup plan_id planner.plans) invalid_execution_state
  guard (is_validated canonical.status) invalid_execution_state
  pure canonical

-- What `_run` hands to the dispatcher: the name of the synthetic intent and the context.
pub record StepCall : Type 0 where
  pub intent : IntentType
  pub plan_id : String
  pub execution_id : String
  pub step_id : String
  pub required_capability : String

-- The intent dispatcher: its error is the text of the exception.
abbrev pub Dispatch : Type 0
Dispatch = Exec String AgentRuntime Value

-- `self._executions[execution_id]`
unfoldable pub stored : String → Method Execution
stored id = do found ← gets (λ r. lookup id r.executions); or_raise found key_error

abbrev pub plan_payload : String → Plan → Payload
plan_payload id plan = ("execution_id", text id) ∷ ("plan_id", text plan.id) ∷ []

abbrev pub step_payload : String → Plan → PlanStep → Payload
step_payload id plan step =
    ("execution_id", text id)
    ∷ ("plan_id", text plan.id)
    ∷ ("step_id", text step.id)
    ∷ ("step_order", number step.order)
    ∷ []

abbrev pub error_payload : String → Plan → PlanStep → String → Payload
error_payload id plan step error =
    ("execution_id", text id)
    ∷ ("plan_id", text plan.id)
    ∷ ("step_id", text step.id)
    ∷ ("error", text error)
    ∷ []

abbrev pub step_call : String → Plan → PlanStep → StepCall
step_call id plan step = record {
  intent = plan.originating_intent.name;
  plan_id = plan.id;
  execution_id = id;
  step_id = step.id;
  required_capability = step.required_capability;
}

-- `try: dispatch(...)`: the exception as a value, with what was written before it.
abbrev attempt : Dispatch → Method (Result String Value)
attempt m r = let (answer, r') = m r in (ok answer, r')

module _ (dispatch : StepCall → Dispatch) (id : String) (plan : Plan) (now : ℕ) where
  -- The loop of `_run` has no step left.
  unfoldable pub complete : Execution → Method Execution
  unfolding put publish
  complete x = do
    put id (record x { status = ExecutionStatus.completed; completed_at = some now })
    publish EventType.execution_completed (plan_payload id plan)
    pure (record x { status = ExecutionStatus.completed; completed_at = some now })

  -- The dispatcher raised. Of the error's text the part that the dispatcher gave is kept.
  unfoldable pub fail_step : PlanStep → String → Method Unit
  unfolding stored put publish
  fail_step step error = do
    current ← stored id
    put id (record current { status = ExecutionStatus.failed; completed_at = some now })
    publish EventType.execution_failed (error_payload id plan step error)
    raise step_execution_error

  -- The dispatcher returned: `index` is the step that the loop was at before the call.
  unfoldable pub complete_step : PlanStep → (index : ℕ) → Value → Method Unit
  unfolding stored put publish
  complete_step step index result = do
    current ← stored id
    put id (record current {
      current_step = index + 1;
      results = insert step.id result current.results;
    })
    publish EventType.step_completed (step_payload id plan step)

  -- One step of the loop, from the STEP_STARTED event on.
  unfoldable pub run_step : PlanStep → (index : ℕ) → Method Unit
  unfolding publish fail_step complete_step
  run_step step index = do
    publish EventType.step_started (step_payload id plan step)
    answer ← attempt (dispatch (step_call id plan step))
    elim answer [ ok result ↦ complete_step step index result | err error ↦ fail_step step error ]

  unfoldable pub run : (fuel : ℕ) → Method Execution
  unfolding stored is_running complete
  run zero = raise out_of_fuel
  run (suc fuel) = do
    x ← stored id
    if is_running x.status
        then elim (get_elem? plan.steps x.current_step) [
          | none ↦ complete x
          | some step ↦ do run_step step x.current_step; run fuel
        ]
        else pure x

module _ (dispatch : StepCall → Dispatch) (fuel : ℕ) where
  -- `_run`: the plan is looked up first.
  unfoldable pub run_execution : (now : ℕ) (id : String) → Method Execution
  unfolding run
  run_execution now id = do
    found ← gets (λ r. lookup id r.plans)
    plan ← or_raise found key_error
    run dispatch id plan now fuel

  -- The argument `plan` of the source is read for its id only.
  unfoldable pub start_execution :
      (planner : Planner) (plan_id : String) (new_id : String) (start_time end_time : ℕ)
      → Method Execution
  unfolding require_state require_validated_plan put publish run_execution
  start_execution planner plan_id new_id start_time end_time = do
    require_state LifecycleState.running invalid_execution_state
    canonical ← require_validated_plan planner plan_id
    let execution : Execution = record {
      plan_id = canonical.id;
      id = new_id;
      status = ExecutionStatus.created;
      current_step = 0;
      results = [];
      started_at = none;
      completed_at = none;
      metadata = [];
    }
    put new_id execution
    modify (λ r. record r { plans = insert new_id canonical r.plans })
    publish EventType.execution_created (plan_payload new_id canonical)
    put new_id (record execution { status = ExecutionStatus.running; started_at = some start_time })
    publish EventType.execution_started (plan_payload new_id canonical)
    run_execution end_time new_id

  unfoldable pub resume_execution : String → (now : ℕ) → Method Execution
  unfolding require_state require_execution put is_paused run_execution
  resume_execution id now = do
    x ← require_execution id
    require_state LifecycleState.running invalid_execution_state
    guard (is_paused x.status) invalid_execution_state
    put id (record x { status = ExecutionStatus.running })
    run_execution now id
