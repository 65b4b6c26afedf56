-- ===== src/Executor.antt =====
-- argus/capability_executor/executor.py, builder.py, result.py, metadata.py, status.py:
-- CapabilityExecutor, over the capability registry. Of a CapabilityContext only the task is
-- modelled, since nothing else of it is read. The arguments have the classes that their annotations
-- say, but the task may be None. New uuids and readings of the clock are arguments.
mod Resolved
mod Tests
use argus_os.Prelude.{
  ℕ, String, Bool, true, false, not, Option, none, some, List, [], ◌∷◌, refl, Result, ok, err, Exec,
  pure, raise, gets, modify, guard, ◌>>=◌, ◌>>◌, is_empty, string_eq,
}
use argus_os.Prelude.Dict.{insert}
use argus_os.Lifecycle.{LifecycleState, same_state}
use argus_os.Events.{Payload, Value}
use argus_os.Planner.{Task}
use argus_os.Capabilities.{Capability, CapabilityRegistry, CapabilityError, get_by_name}

pub data CapabilityExecutionStatus : Type 0 where
  pending resolved completed failed not_found : CapabilityExecutionStatus

pub record CapabilityExecutionMetadata : Type 0 where
  pub created_at : ℕ
  pub version : String
  pub correlation_id : String
  pub extra : Payload

pub record CapabilityExecutionResult : Type 0 where
  pub execution_id : String
  pub task : Option Task
  pub capability : Option Capability
  pub status : CapabilityExecutionStatus
  pub metadata : CapabilityExecutionMetadata

pub data ExecutorError : Type 0 where
  capability_execution invalid_task_reference invalid_result : ExecutorError
  -- An error of the registry other than CapabilityNotFoundError.
  of_registry : CapabilityError → ExecutorError

-- CapabilityExecutionResultBuilder: its fields, and its methods, which answer the builder.
pub record Builder : Type 0 where
  pub task : Option Task
  pub capability : Option Capability
  pub status : CapabilityExecutionStatus
  pub metadata_extra : Payload

abbrev pub new_builder : Builder
new_builder = record {
  task = none;
  capability = none;
  status = CapabilityExecutionStatus.pending;
  metadata_extra = [];
}

abbrev pub with_task : Task → Builder → Builder
with_task t b = record b { task = some t }

abbrev pub with_capability : Capability → Builder → Builder
with_capability c b = record b { capability = some c }

abbrev pub with_status : CapabilityExecutionStatus → Builder → Builder
with_status x b = record b { status = x }

with_metadata : String → Value → Exec ExecutorError Builder Unit
with_metadata key value = do
  guard (not (is_empty key)) invalid_result
  modify (λ b. record b { metadata_extra = insert key value b.metadata_extra })

abbrev pub build : (new_id correlation_id : String) (now : ℕ) → Builder → CapabilityExecutionResult
build new_id correlation_id now b = record {
  execution_id = new_id;
  task = b.task;
  capability = b.capability;
  status = b.status;
  metadata = record {
    created_at = now;
    version = "1.0";
    correlation_id = correlation_id;
    extra = b.metadata_extra;
  };
}

pub record CapabilityExecutor : Type 0 where
  pub state : LifecycleState
  pub registry : CapabilityRegistry

abbrev pub Method : Type 0 → Type 0
Method A = Exec ExecutorError CapabilityExecutor A

unfoldable assign : (required next : LifecycleState) → Method Unit
assign required next = do
  state ← gets (λ x. x.state)
  guard (same_state state required) capability_execution
  modify (λ x. record x { state = next })

initialize : Method Unit
unfolding assign
initialize = assign LifecycleState.created LifecycleState.initializing

start : Method Unit
unfolding assign
start = assign LifecycleState.initializing LifecycleState.running

stop : Method Unit
unfolding assign
stop = assign LifecycleState.running LifecycleState.stopped

-- What `resolve` builds from the answer of the registry.
unfoldable pub build_result :
    (new_id correlation_id : String) (now : ℕ)
    → Builder
    → Result CapabilityError Capability
    → Method CapabilityExecutionResult
build_result new_id correlation_id now b (ok c) = pure (
    build new_id correlation_id now
      (with_status CapabilityExecutionStatus.completed (with_capability c b)))
build_result new_id correlation_id now b (err CapabilityError.capability_not_found) =
    pure (build new_id correlation_id now (with_status CapabilityExecutionStatus.not_found b))
build_result new_id correlation_id now b (err e) = raise (of_registry e)

unfoldable pub resolve :
    (task : Option Task) (new_id correlation_id : String) (now : ℕ)
    → Method CapabilityExecutionResult
unfolding build_result get_by_name
resolve none new_id correlation_id now = raise invalid_task_reference
resolve (some t) new_id correlation_id now = do
  registry ← gets (λ x. x.registry)
  let (answer, after) = get_by_name t.name registry
  modify (λ x. record x { registry = after })
  build_result new_id correlation_id now (with_task t new_builder) answer
