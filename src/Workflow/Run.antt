-- ===== src/Workflow/Run.antt =====
-- What `execute` of argus/workflow/engine.py does from beginning to end: the steps against a plain
-- fold, the record of the workflow, and the events.
use argus_os.Prelude.{
  ℕ, ◌+◌, String, ◌≡◌, refl, some, List, [], ◌∷◌, Result, ok, err, pure, raise, ◌>>◌, arith, ◌∙◌,
  ◌⊎◌, inl, inr, string_eq, eq_iff,
}
use argus_os.Prelude.Dict.{Dict, lookup, insert, lookup-insert, insert-insert}
use argus_os.Lifecycle.{LifecycleState}
use argus_os.Events.{EventType, Event, Payload}
use argus_os.Workflow.{
  Context, ActionResult, returned, raised, no_mapping, WorkflowStep, WorkflowState, Workflow,
  WorkflowEngine, WorkflowError, type_error, Method, finish, step_payload, error_payload,
  name_payload, run_steps, execute,
}

-- How the steps end: all of them returned, one raised, or one returned no mapping.
pub data Ending : Type 0 where
  all_done : Context → Ending
  step_failed : WorkflowStep → ℕ → String → Context → Ending
  step_broke : Ending

-- The steps run from a context until one does not return a mapping.
pub run_actions : List WorkflowStep → ℕ → Context → Ending
run_actions [] index ctx = all_done ctx
run_actions (step ∷ rest) index ctx = elim (step.action ctx) [
  | returned next ↦ run_actions rest (index + 1) next
  | raised error ↦ step_failed step index error ctx
  | no_mapping ↦ step_broke
]

abbrev pub from_engine : EventType → Payload → Event
from_engine type payload = record { type = type; source = "workflow_engine"; payload = payload }

-- The events of the steps, on top of those before.
pub step_events : String → List WorkflowStep → ℕ → Context → List Event → List Event
step_events id [] index ctx log = log
step_events id (step ∷ rest) index ctx log =
    let started = from_engine EventType.workflow_step_started (step_payload id step index) ∷ log in
    elim (step.action ctx) [
      | returned next ↦
          step_events id rest (index + 1) next
            (from_engine EventType.workflow_step_completed (step_payload id step index) ∷ started)
      | raised error ↦ started
      | no_mapping ↦ started
    ]

-- What `execute` answers, the state and the time that it leaves in the workflow, and its last event.
abbrev pub answer : Ending → Result WorkflowError Context
answer (all_done ctx) = ok ctx
answer (step_failed step index error ctx) = ok ctx
answer step_broke = err type_error

abbrev pub closed : Ending → ℕ → Workflow → Workflow
closed (all_done ctx) now w = record w { state = WorkflowState.completed; completed_at = some now }
closed (step_failed step index error ctx) now w = record w {
  state = WorkflowState.failed;
  completed_at = some now;
}
closed step_broke now w = w

abbrev pub last_events : Ending → String → String → List Event → List Event
last_events (all_done ctx) id name log =
    from_engine EventType.workflow_completed (name_payload id name) ∷ log
last_events (step_failed step index error ctx) id name log =
    from_engine EventType.workflow_failed (error_payload id step index error) ∷ log
last_events step_broke id name log = log

ActionResult-cases :
    (r : ActionResult)
    → ((next : Context) × (r ≡ returned next))
      ⊎ (((error : String) × (r ≡ raised error)) ⊎ (r ≡ no_mapping))
ActionResult-cases (returned next) = inl (next, refl)
ActionResult-cases (raised error) = inr (inl (error, refl))
ActionResult-cases no_mapping = inr (inr refl)

abbrev after_steps : String → String → ℕ → Ending → Method Context
after_steps id name now (all_done ctx) = do
  finish id WorkflowState.completed now EventType.workflow_completed (name_payload id name)
  pure ctx
after_steps id name now (step_failed step index error ctx) = do
  finish id WorkflowState.failed now EventType.workflow_failed (error_payload id step index error)
  pure ctx
after_steps id name now step_broke = raise type_error

module _ (id name : String) (now : ℕ) where
  run_steps-eq-after_steps :
      (steps : List WorkflowStep) (index : ℕ) (ctx : Context) (e : WorkflowEngine)
      → run_steps id name now steps index ctx e
        ≡ after_steps id name now
            (run_actions steps index ctx)
            (record e { published = step_events id steps index ctx e.published })
  unfolding run_steps run_actions step_events
  run_steps-eq-after_steps [] index ctx e = refl
  run_steps-eq-after_steps (step ∷ rest) index ctx e = elim (ActionResult-cases (step.action ctx)) [
    | inl (next, p) ↦
        rw (p, run_steps, run_actions, step_events)
          (run_steps-eq-after_steps rest (index + 1) next (record e {
            published =
                from_engine EventType.workflow_step_completed (step_payload id step index)
                ∷ from_engine EventType.workflow_step_started (step_payload id step index)
                ∷ e.published;
          }))
    | inr (inl (error, p)) ↦ rw (p, run_steps, run_actions, step_events)
    | inr (inr p) ↦ rw (p, run_steps, run_actions, step_events)
  ]

  after_steps_lem :
      (x : Ending) (w : Workflow) (ws : Dict String Workflow) (e : WorkflowEngine)
      → after_steps id name now x (record e { workflows = insert id w ws }) ≡ (
        answer x,
        record e {
          workflows = insert id (closed x now w) ws;
          published = last_events x id name e.published;
        },
      )
  unfolding finish
  after_steps_lem (all_done c) w ws e = ground (
    arith,
    lookup-insert id id w ws,
    eq_iff id id,
    insert-insert id (closed (all_done c) now w) w ws,
  )
  after_steps_lem (step_failed step index error c) w ws e = ground (
    arith,
    lookup-insert id id w ws,
    eq_iff id id,
    insert-insert id (closed (step_failed step index error c) now w) w ws,
  )
  after_steps_lem step_broke w ws e = refl

-- The workflow as it runs, and as `execute` leaves it.
abbrev pub begun : Workflow → ℕ → Workflow
begun w start_time = record w { state = WorkflowState.running; started_at = some start_time }

module _ (id : String) (ctx : Context) (start_time end_time : ℕ) (e : WorkflowEngine) (w : Workflow)
    (is_running : e.state ≡ LifecycleState.running) (found : lookup id e.workflows ≡ some w)
    (is_new : w.state ≡ WorkflowState.pending) where
  abbrev ending : Ending
  ending = run_actions w.steps 0 ctx

  abbrev all_events : List Event
  all_events = last_events ending id w.name (
      step_events id w.steps 0 ctx
        (from_engine EventType.workflow_started (name_payload id w.name) ∷ e.published))

  abbrev engine_begun : WorkflowEngine
  engine_begun = record e {
    workflows = insert id (begun w start_time) e.workflows;
    published = from_engine EventType.workflow_started (name_payload id w.name) ∷ e.published;
  }

  execute_begins :
      execute id ctx start_time end_time e ≡ run_steps id w.name end_time w.steps 0 ctx engine_begun
  unfolding execute
  execute_begins = ground arith

  -- A pending workflow in a running engine: `execute` runs its steps from the given context until
  -- one fails, answers with the last context (or raises, if a step returned no mapping), leaves the
  -- workflow completed, failed or (then) running with its times, touches no other workflow, and
  -- publishes the events of each step between a first and a last one.
  pub execute_lem : execute id ctx start_time end_time e ≡ (
    answer ending,
    record e {
      workflows = insert id (closed ending end_time (begun w start_time)) e.workflows;
      published = all_events;
    },
  )
  execute_lem =
      execute_begins
      ∙ run_steps-eq-after_steps id w.name end_time w.steps 0 ctx engine_begun
      ∙ after_steps_lem id w.name end_time ending (begun w start_time) e.workflows (record e {
        published =
            step_events id w.steps 0 ctx
              (from_engine EventType.workflow_started (name_payload id w.name) ∷ e.published);
      })
