-- ===== src/Workflow/Tests.antt =====
-- A small engine, and the theorems at it.
use argus_os.Prelude.{◌≡◌, refl, none, some, List, [], ◌∷◌, ok, string_eq, arith, is_empty}
use argus_os.Prelude.Dict.{lookup, insert}
use argus_os.Lifecycle.{LifecycleState, LifecycleManager, created, registered}
use argus_os.Lifecycle.Manager.{state_of, IsStored, run as run_manager}
use argus_os.Events.{EventType, number}
use argus_os.Service.Agreement.{
  ServiceCall, managed_call, managed_state, serve_all, serve_all-agrees,
}
use argus_os.Workflow.{
  returned, raised, WorkflowStep, WorkflowState, is_pending, Workflow, WorkflowEngine,
  workflow_error, engine_stateful, execute, run_steps, name_payload,
}
use argus_os.Workflow.Run.{
  run_actions, step_events, answer, closed, begun, last_events, from_engine, execute_lem,
}
use argus_os.Workflow.Settled.{Call, run, run-settled}
use argus_os.Prelude.{map}

abbrev count : WorkflowStep
count = record { name = "count"; action = λ ctx. returned (("n", number 1) ∷ ctx) }

abbrev break : WorkflowStep
break = record { name = "break"; action = λ ctx. raised "no disk" }

abbrev intake : Workflow
intake = record {
  name = "intake";
  steps = count ∷ break ∷ count ∷ [];
  id = "w1";
  state = WorkflowState.pending;
  started_at = none;
  completed_at = none;
  metadata = [];
}

abbrev engine : WorkflowEngine
engine = record { state = LifecycleState.running; workflows = ("w1", intake) ∷ []; published = [] }

engine-found : lookup "w1" engine.workflows ≡ some intake
unfolding lookup
engine-found = refl

execute_lem_example : execute "w1" [] 5 9 engine ≡ (
  answer (run_actions intake.steps 0 []),
  record engine {
    workflows =
        insert "w1" (closed (run_actions intake.steps 0 []) 9 (begun intake 5)) engine.workflows;
    published = last_events (run_actions intake.steps 0 []) "w1" "intake" (
        step_events "w1" intake.steps 0 []
          (from_engine EventType.workflow_started (name_payload "w1" "intake") ∷ []));
  },
)
execute_lem_example = execute_lem "w1" [] 5 9 engine intake refl engine-found refl

-- The second step fails, and the third is not run.
execute_test : (execute "w1" [] 5 9 engine).0 ≡ ok (("n", number 1) ∷ [])
unfolding execute lookup insert run_steps
execute_test = refl

abbrev done : Workflow
done = record intake { state = WorkflowState.failed; completed_at = some 9 }

abbrev after : WorkflowEngine
after = record engine { workflows = ("w1", done) ∷ [] }

abbrev calls : List Call
calls = Call.execute "w1" [] 10 11 ∷ Call.cancel "w1" 12 ∷ Call.stop ∷ []

run-settled_example : lookup "w1" (run calls after).workflows ≡ some done
unfolding is_pending lookup
run-settled_example = run-settled calls after "w1" done refl refl (tt, (tt, (tt, tt)))

abbrev fresh_engine : WorkflowEngine
fresh_engine = record engine { state = created }

abbrev one_registered : LifecycleManager
one_registered = ("workflow_engine", registered) ∷ []

one_registered-IsStored : IsStored one_registered
unfolding lookup
one_registered-IsStored = record { not_created = λ n e. ground arith }

abbrev service_calls : List ServiceCall
service_calls = ServiceCall.start ∷ ServiceCall.initialize ∷ ServiceCall.start ∷ []

serve_all-agrees_example :
    state_of "workflow_engine"
      (run_manager (map (managed_call "workflow_engine") service_calls) one_registered)
    ≡ managed_state
        (engine_stateful.get_state (serve_all workflow_error service_calls fresh_engine))
unfolding is_empty lookup
serve_all-agrees_example =
    serve_all-agrees "workflow_engine" refl workflow_error service_calls fresh_engine one_registered
      one_registered-IsStored (ground arith) refl
