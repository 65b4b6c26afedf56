-- ===== src/Dispatcher/Tests.antt =====
-- A dispatcher with one capability and its workflow, and the theorems at it.
use argus_os.Prelude.{◌≡◌, refl, true, none, some, [], ◌∷◌, ◌++◌, string_eq, arith, is_empty}
use argus_os.Prelude.Lists.{is_in, select}
use argus_os.Prelude.Dict.{lookup, insert}
use argus_os.Lifecycle.{LifecycleState}
use argus_os.Events.{EventType, number}
use argus_os.Planner.{IntentType, Intent}
use argus_os.Capabilities.{
  Capability, CapabilityRegistry, find_by_intent_type, is_blank, name_taken,
}
use argus_os.Capabilities.Names.{IsNamed}
use argus_os.Workflow.{returned, raised, WorkflowState, Workflow, WorkflowEngine, name_payload}
use argus_os.Workflow.Run.{
  run_actions, step_events, answer, closed, last_events, from_engine, begun,
}
use argus_os.Dispatcher.{
  IntentDispatcher, first_enabled, build_action_from_capability, dispatch, intent_payload,
}
use argus_os.Dispatcher.Bracket.{event, last, middle, Bracketed, dispatch-Bracketed}
use argus_os.Dispatcher.Bracket
use argus_os.Dispatcher.Runs.{action, dispatch-run_actions}

abbrev backup : Capability
backup = record {
  name = "backup";
  description = "";
  intent_types = IntentType.command ∷ [];
  action_kind = "workflow";
  id = "c1";
  workflow_id = some "w1";
  enabled = true;
  version = "1.0";
  metadata = [];
}

abbrev copy : Workflow
copy = record {
  name = "copy";
  steps =
      record { name = "count"; action = λ ctx. returned (("n", number 1) ∷ ctx) }
      ∷ record { name = "write"; action = λ ctx. raised "no disk" }
      ∷ [];
  id = "w1";
  state = WorkflowState.pending;
  started_at = none;
  completed_at = none;
  metadata = [];
}

abbrev registry : CapabilityRegistry
registry = record { capabilities = ("c1", backup) ∷ []; published = [] }

abbrev engine : WorkflowEngine
engine = record { state = LifecycleState.running; workflows = ("w1", copy) ∷ []; published = [] }

abbrev dispatcher : IntentDispatcher
dispatcher = record {
  state = LifecycleState.running;
  registry = registry;
  workflows = engine;
  published = [];
}

abbrev intent : Intent
intent = record { name = IntentType.command; id = "i1"; entities = []; parameters = [] }

registry-IsNamed : IsNamed registry
unfolding is_blank is_empty name_taken
registry-IsNamed = record { unique = (refl, tt); runnable = λ k c h. ground arith }

chosen : first_enabled (find_by_intent_type IntentType.command registry) ≡ some backup
unfolding first_enabled find_by_intent_type select is_in
chosen = refl

copy-found : lookup "w1" engine.workflows ≡ some copy
unfolding lookup
copy-found = refl

dispatch-Bracketed_example :
    Bracketed intent dispatcher
      (dispatch (build_action_from_capability 5 9) intent [] dispatcher).0
      (dispatch (build_action_from_capability 5 9) intent [] dispatcher).1
dispatch-Bracketed_example =
    dispatch-Bracketed (build_action_from_capability 5 9) intent [] dispatcher refl

dispatch-run_actions_example : dispatch (build_action_from_capability 5 9) intent [] dispatcher ≡ (
  Bracket.answer (answer (run_actions copy.steps 0 [])),
  record dispatcher {
    workflows = record engine {
      workflows =
          insert "w1" (closed (run_actions copy.steps 0 []) 9 (begun copy 5)) engine.workflows;
      published = last_events (run_actions copy.steps 0 []) "w1" "copy" (
          step_events "w1" copy.steps 0 []
            (from_engine EventType.workflow_started (name_payload "w1" "copy") ∷ []));
    };
    published =
        last intent (answer (run_actions copy.steps 0 [])) ∷ middle intent backup (action "w1" 5 9)
        ++ event EventType.intent_dispatched (intent_payload intent) ∷ [];
  },
)
dispatch-run_actions_example =
    dispatch-run_actions dispatcher intent backup "w1" 5 9 registry-IsNamed chosen refl refl [] copy
      refl refl copy-found refl
