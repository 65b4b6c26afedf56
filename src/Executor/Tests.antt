-- ===== src/Executor/Tests.antt =====
-- Two capabilities and a task, and the theorem at them.
use argus_os.Prelude.{String, ◌≡◌, refl, true, some, List, [], ◌∷◌, ok, string_eq, is_empty}
use argus_os.Prelude.Dict.{lookup, insert}
use argus_os.Planner.{IntentType, Task}
use argus_os.Lifecycle.{LifecycleState}
use argus_os.Capabilities.{
  Capability, CapabilityRegistry, register, validate_capability, name_taken, is_blank,
}
use argus_os.Capabilities.Names.{Call, run, call, IsNamed}
use argus_os.Executor.{CapabilityExecutionStatus, resolve}
use argus_os.Executor.Resolved.{executor, resolve_lem}

abbrev capability : String → String → Capability
capability id name = record {
  name = name;
  description = "";
  intent_types = IntentType.command ∷ [];
  action_kind = "workflow";
  id = id;
  workflow_id = some "w1";
  enabled = true;
  version = "1.0";
  metadata = [];
}

abbrev nothing : CapabilityRegistry
nothing = record { capabilities = []; published = [] }

nothing-IsNamed : IsNamed nothing
nothing-IsNamed = record { unique = tt; runnable = λ k c h. absurd h }

-- The second has the name of the first, and is refused.
abbrev calls : List Call
calls =
    Call.register (capability "c1" "backup")
    ∷ Call.register (capability "c2" "backup")
    ∷ Call.register (capability "c3" "report")
    ∷ []

report-found : lookup "c3" (run calls nothing).capabilities ≡ some (capability "c3" "report")
unfolding run call register validate_capability name_taken lookup insert is_empty is_blank
report-found = refl

abbrev task : Task
task = record { task_id = "t1"; name = "report"; description = "" }

resolve_lem_example :
    resolve (some task) "e1" "x1" 5 (executor LifecycleState.created (run calls nothing)) ≡ (
      ok (record {
        execution_id = "e1";
        task = some task;
        capability = some (capability "c3" "report");
        status = CapabilityExecutionStatus.completed;
        metadata = record { created_at = 5; version = "1.0"; correlation_id = "x1"; extra = [] };
      }),
      executor LifecycleState.created (run calls nothing),
    )
resolve_lem_example =
    resolve_lem calls nothing "c3" (capability "c3" "report") task "e1" "x1" 5
      LifecycleState.created nothing-IsNamed report-found refl
