-- ===== src/Dispatcher.antt =====
-- argus/dispatcher/dispatcher.py, action.py: IntentDispatcher, over the capability registry and the
-- workflow engine that it is given. The arguments have the classes that their annotations say. The
-- texts of errors are left out. The readings of the clock are arguments.
pub mod Bracket
pub mod Runs
mod Tests
use argus_os.Prelude.{
  ℕ, String, Bool, true, false, not, refl, Option, none, some, List, [], ◌∷◌, ◌++◌, Result, ok, err,
  Exec, pure, raise, gets, modify, guard, or_raise, ◌>>=◌, ◌>>◌, string_eq, ◌==◌, if◌then◌else◌,
  is_empty,
}
use argus_os.Lifecycle.{LifecycleState}
use argus_os.Events.{EventType, Event, Payload, text}
use argus_os.Service.{Stateful, require_state}
use argus_os.Service
use argus_os.Planner.{IntentType, Intent}
use argus_os.Capabilities.{Capability, CapabilityRegistry, is_blank, find_by_intent_type}
use argus_os.Workflow.{Context, WorkflowEngine, WorkflowError}
use argus_os.Workflow

-- What runs a context on the workflow engine.
abbrev pub Execute : Type 0
Execute = Context → Exec WorkflowError WorkflowEngine Context

-- An Action with its kind, and the workflow's id where it is a WorkflowAction.
pub record Action : Type 0 where
  pub kind : String
  pub workflow : Option String
  pub execute : Execute

pub record IntentDispatcher : Type 0 where
  pub state : LifecycleState
  pub registry : CapabilityRegistry
  pub workflows : WorkflowEngine
  pub published : List Event

pub data DispatcherError : Type 0 where
  dispatcher_error no_capability action_execution invalid_action : DispatcherError

abbrev pub Method : Type 0 → Type 0
Method A = Exec DispatcherError IntentDispatcher A

instance abbrev pub dispatcher_stateful : Stateful IntentDispatcher
dispatcher_stateful = record {
  get_state = λ d. d.state;
  set_state = λ x d. record d { state = x };
  get_state-set_state = λ x d. refl;
}

initialize : Method Unit
initialize = Service.initialize dispatcher_error

start : Method Unit
start = Service.start dispatcher_error

stop : Method Unit
stop = Service.stop dispatcher_error

-- `WorkflowAction(workflow_id=..., workflow_engine=...)`
unfoldable pub workflow_action :
    Option String → (start_time end_time : ℕ) → Result DispatcherError Action
workflow_action none start_time end_time = err invalid_action
workflow_action (some id) start_time end_time =
    if is_empty id
    then err invalid_action
    else ok (record {
      kind = "workflow";
      workflow = some id;
      execute = λ context. Workflow.execute id context start_time end_time;
    })

unfoldable pub build_action_from_capability :
    (start_time end_time : ℕ) → Capability → Result DispatcherError Action
unfolding workflow_action
build_action_from_capability start_time end_time c =
    if c.action_kind == "workflow"
    then workflow_action c.workflow_id start_time end_time
    else err invalid_action

unfoldable pub publish : EventType → Payload → Method Unit
publish type payload = modify (λ d. record d {
  published = record { type = type; source = "intent_dispatcher"; payload = payload } ∷ d.published;
})

-- The `.value` of an IntentType.
unfoldable pub value_of : IntentType → String
value_of IntentType.question = "question"
value_of IntentType.command = "command"
value_of IntentType.memory = "memory"
value_of IntentType.schedule = "schedule"
value_of IntentType.unknown = "unknown"

abbrev pub intent_payload : Intent → Payload
intent_payload i = ("intent_id", text i.id) ∷ ("intent_name", text (value_of i.name)) ∷ []

unfoldable pub publish_failed : Intent → (stage : String) → Method Unit
unfolding publish
publish_failed i stage =
    publish EventType.dispatch_failed (intent_payload i ++ ("stage", text stage) ∷ [])

-- The loop of `resolve`.
unfoldable pub first_enabled : List Capability → Option Capability
first_enabled [] = none
first_enabled (c ∷ cs) = if c.enabled then some c else first_enabled cs

unfoldable pub resolve : Intent → Method Capability
unfolding first_enabled find_by_intent_type
resolve i = do
  candidates ← gets (λ d. find_by_intent_type i.name d.registry)
  or_raise (first_enabled candidates) no_capability

-- `try: m  except: publish_failed(stage); raise error`
unfoldable pub with_failure : {A : Type 0} → Intent → String → DispatcherError → Method A → Method A
unfolding publish_failed
with_failure i stage error m d =
    let (r, d') = m d in
    elim r [ ok a ↦ (ok a, d') | err e ↦ (do publish_failed i stage; raise error) d' ]

unfoldable pub publish_selected : Intent → Option String → Method Unit
unfolding publish
publish_selected i none = pure tt
publish_selected i (some id) =
    publish EventType.workflow_selected (intent_payload i ++ ("workflow_id", text id) ∷ [])

-- `action.execute(context=context)`
unfoldable pub run_action : Action → Context → Method Context
run_action a context d =
    let (r, w) = a.execute context d.workflows in
    (elim r [ ok c ↦ ok c | err e ↦ err action_execution ], record d { workflows = w })

abbrev pub of_result : {A : Type 0} → Result DispatcherError A → Method A
of_result (ok a) = pure a
of_result (err e) = raise e

module _ (action_factory : Capability → Result DispatcherError Action) where
  unfoldable pub dispatch : Intent → Context → Method Context
  unfolding require_state publish with_failure resolve publish_selected run_action
  dispatch i context = do
    require_state LifecycleState.running dispatcher_error
    publish EventType.intent_dispatched (intent_payload i)
    c ← with_failure i "resolve" no_capability (resolve i)
    action ← with_failure i "build" action_execution (of_result (action_factory c))
    publish EventType.action_resolved
        (intent_payload i ++ ("capability_id", text c.id) ∷ ("action_kind", text action.kind) ∷ [])
    publish_selected i action.workflow
    publish EventType.dispatch_started (intent_payload i)
    result ← with_failure i "execute" action_execution (run_action action context)
    publish EventType.dispatch_completed (intent_payload i)
    pure result
