-- ===== src/Workflow.antt =====
-- argus/workflow/engine.py, workflow.py, state.py: WorkflowEngine. A step's action is a callable
-- from outside: it raises, returns a mapping, or returns something that `dict` refuses, here always
-- with a TypeError. It does not call the engine back, and leaves the context that it gets as it is. The readings of the clock and a new uuid are arguments. `created_at` is
-- left out, since nothing reads it.
pub mod Run
pub mod Settled
mod Tests
use argus_os.Prelude.{
  ℕ, ◌+◌, String, Bool, true, false, not, Option, none, some, List, [], ◌∷◌, Exec, pure, raise,
  gets, modify, guard, or_raise, ◌>>=◌, ◌>>◌, is_some, is_empty, string_eq, refl,
}
use argus_os.Prelude.Dict.{Dict, lookup, insert, contains}
use argus_os.Lifecycle.{LifecycleState}
use argus_os.Events.{EventType, Event, Payload, Value, text, number}
use argus_os.Service.{Stateful, require_state}
use argus_os.Service

-- Contexts map names to values.
abbrev pub Context : Type 0
Context = Payload

pub data ActionResult : Type 0 where
  returned : Context → ActionResult
  raised : String → ActionResult
  no_mapping : ActionResult

pub record WorkflowStep : Type 0 where
  pub name : String
  pub action : Context → ActionResult

pub data WorkflowState : Type 0 where
  pending running completed failed cancelled : WorkflowState

unfoldable pub is_pending : WorkflowState → Bool
is_pending WorkflowState.pending = true
is_pending _ = false

pub record Workflow : Type 0 where
  pub name : String
  pub steps : List WorkflowStep
  pub id : String
  pub state : WorkflowState
  pub started_at : Option ℕ
  pub completed_at : Option ℕ
  pub metadata : Payload

pub record WorkflowEngine : Type 0 where
  pub state : LifecycleState
  pub workflows : Dict String Workflow
  pub published : List Event

pub data WorkflowError : Type 0 where
  workflow_error invalid_workflow duplicate_workflow workflow_not_found type_error : WorkflowError

abbrev pub Method : Type 0 → Type 0
Method A = Exec WorkflowError WorkflowEngine A

instance abbrev pub engine_stateful : Stateful WorkflowEngine
engine_stateful = record {
  get_state = λ e. e.state;
  set_state = λ x e. record e { state = x };
  get_state-set_state = λ x e. refl;
}

initialize : Method Unit
initialize = Service.initialize workflow_error

start : Method Unit
start = Service.start workflow_error

stop : Method Unit
stop = Service.stop workflow_error

unfoldable pub publish : EventType → Payload → Method Unit
publish type payload = modify (λ e. record e {
  published = record { type = type; source = "workflow_engine"; payload = payload } ∷ e.published;
})

unfoldable pub require_workflow : String → Method Workflow
require_workflow id = do
  found ← gets (λ e. lookup id e.workflows)
  or_raise found workflow_not_found

unfoldable pub put : String → Workflow → Method Unit
put id w = modify (λ e. record e { workflows = insert id w e.workflows })

-- `workflow_id is not None and workflow_id in self._workflows`
is_taken : Option String → Dict String Workflow → Bool
is_taken none ws = false
is_taken (some id) ws = contains id ws

abbrev given_or_new : Option String → String → String
given_or_new none new_id = new_id
given_or_new (some id) new_id = id

abbrev is_nil : List WorkflowStep → Bool
is_nil [] = true
is_nil (s ∷ ss) = false

unfoldable pub register_workflow :
    (name : String) (steps : List WorkflowStep) (workflow_id : Option String) (new_id : String)
    (metadata : Payload)
    → Method Workflow
unfolding put is_taken
register_workflow name steps workflow_id new_id metadata = do
  guard (not (is_empty name)) invalid_workflow
  guard (not (is_nil steps)) invalid_workflow
  taken ← gets (λ e. is_taken workflow_id e.workflows)
  guard (not taken) duplicate_workflow
  let id = given_or_new workflow_id new_id
  let workflow : Workflow = record {
    name = name;
    steps = steps;
    id = id;
    state = WorkflowState.pending;
    started_at = none;
    completed_at = none;
    metadata = metadata;
  }
  put id workflow
  pure workflow

unfoldable pub cancel : String → (now : ℕ) → Method Unit
unfolding require_workflow put publish is_pending
cancel id now = do
  w ← require_workflow id
  guard (is_pending w.state) workflow_error
  put id (record w { state = WorkflowState.cancelled; completed_at = some now })
  publish EventType.workflow_cancelled (("workflow_id", text id) ∷ ("name", text w.name) ∷ [])

get_workflow : String → Method Workflow
get_workflow = require_workflow

unfoldable pub finish : String → WorkflowState → (now : ℕ) → EventType → Payload → Method Unit
unfolding require_workflow put publish
finish id state now type payload = do
  w ← require_workflow id
  put id (record w { state = state; completed_at = some now })
  publish type payload

abbrev pub step_payload : String → WorkflowStep → ℕ → Payload
step_payload id step index =
    ("workflow_id", text id) ∷ ("step_name", text step.name) ∷ ("step_index", number index) ∷ []

abbrev pub error_payload : String → WorkflowStep → ℕ → String → Payload
error_payload id step index error =
    ("workflow_id", text id)
    ∷ ("step_name", text step.name)
    ∷ ("step_index", number index)
    ∷ ("error", text error)
    ∷ []

abbrev pub name_payload : String → String → Payload
name_payload id name = ("workflow_id", text id) ∷ ("name", text name) ∷ []

-- The loop of `execute` and what follows it. `dict(result)` stands outside of the `try`: what it
-- raises leaves the method. Of the error's text the part that the step gave is kept.
unfoldable pub run_steps :
    (id name : String) (now : ℕ) → List WorkflowStep → (index : ℕ) → Context → Method Context
unfolding finish publish
run_steps id name now [] index ctx = do
  finish id WorkflowState.completed now EventType.workflow_completed (name_payload id name)
  pure ctx
run_steps id name now (step ∷ rest) index ctx = do
  publish EventType.workflow_step_started (step_payload id step index)
  elim (step.action ctx) [
    | returned next ↦ do
      publish EventType.workflow_step_completed (step_payload id step index)
      run_steps id name now rest (index + 1) next
    | raised error ↦ do
      finish id WorkflowState.failed now EventType.workflow_failed
          (error_payload id step index error)
      pure ctx
    | no_mapping ↦ raise type_error
  ]

unfoldable pub execute : String → Context → (start_time end_time : ℕ) → Method Context
unfolding require_state require_workflow is_pending put publish
execute id ctx start_time end_time = do
  require_state LifecycleState.running workflow_error
  w ← require_workflow id
  guard (is_pending w.state) workflow_error
  put id (record w { state = WorkflowState.running; started_at = some start_time })
  publish EventType.workflow_started (name_payload id w.name)
  run_steps id w.name end_time w.steps 0 ctx
