-- ===== src/Executor/Resolved.antt =====
-- argus/capability_executor/executor.py: which capability a task is resolved to.
use argus_os.Prelude.{ℕ, String, ◌≡◌, refl, none, some, List, [], ok, string_eq}
use argus_os.Prelude.Dict.{lookup}
use argus_os.Lifecycle.{LifecycleState}
use argus_os.Planner.{Task}
use argus_os.Capabilities.{Capability, CapabilityRegistry, get_by_name, first_named}
use argus_os.Capabilities.Names.{Call, run, IsNamed, get_by_name_lem}
use argus_os.Executor.{CapabilityExecutionStatus, CapabilityExecutor, resolve, build_result}

abbrev pub executor : LifecycleState → CapabilityRegistry → CapabilityExecutor
executor state r = record { state = state; registry = r }

-- After any calls, refused or not, on a registry without two capabilities of one name: in any state
-- of the lifecycle, a task that has the name of a capability which is registered under some id gets
-- the result COMPLETED with that task, just that capability and no extra metadata, and the executor
-- and the registry stay as they are.
pub resolve_lem :
    (cs : List Call) (r : CapabilityRegistry) (id : String) (c : Capability) (task : Task)
    (new_id correlation_id : String) (now : ℕ) (state : LifecycleState)
    → IsNamed r
    → lookup id (run cs r).capabilities ≡ some c
    → c.name ≡ task.name
    → resolve (some task) new_id correlation_id now (executor state (run cs r)) ≡ (
      ok (record {
        execution_id = new_id;
        task = some task;
        capability = some c;
        status = CapabilityExecutionStatus.completed;
        metadata = record {
          created_at = now;
          version = "1.0";
          correlation_id = correlation_id;
          extra = [];
        };
      }),
      executor state (run cs r),
    )
unfolding resolve build_result
resolve_lem cs r id c task new_id correlation_id now state h found same =
    rw (← same, get_by_name_lem cs r id c h found) refl

-- A task that has the name of no capability gets the result NOT_FOUND, without a capability.
resolve-absent :
    (r : CapabilityRegistry) (task : Task) (new_id correlation_id : String) (now : ℕ)
    (state : LifecycleState)
    → first_named task.name r.capabilities ≡ none
    → resolve (some task) new_id correlation_id now (executor state r) ≡ (
      ok (record {
        execution_id = new_id;
        task = some task;
        capability = none;
        status = CapabilityExecutionStatus.not_found;
        metadata = record {
          created_at = now;
          version = "1.0";
          correlation_id = correlation_id;
          extra = [];
        };
      }),
      executor state r,
    )
unfolding resolve build_result get_by_name
resolve-absent r task new_id correlation_id now state h = rw h refl
