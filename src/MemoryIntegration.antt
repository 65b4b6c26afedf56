-- ===== src/MemoryIntegration.antt =====
-- argus/memory_integration/integration.py: MemoryIntegration, over the memory service and the knowledge graph. The arguments have the classes that their annotations
-- say. The texts of errors are left out; of `_failed` the error itself is kept. Readings of the clock
-- and the new uuids of relationships are arguments.
pub mod Mapper
pub mod Replaced
pub mod Bridged
pub mod Handled
pub mod Requests
mod Tests
use argus_os.Prelude.{
  ℕ, ◌+◌, String, Bool, true, false, not, refl, Option, none, some, List, [], ◌∷◌, ◌++◌, Result, ok,
  err, Exec, pure, raise, gets, modify, guard, or_raise, ◌>>=◌, ◌>>◌, is_some, is_empty, string_eq,
}
use argus_os.Prelude.Dict.{Dict, lookup, insert, erase, contains}
use argus_os.Lifecycle.{LifecycleState}
use argus_os.Events.{EventType, Event, Payload, text, number}
use argus_os.Service.{Stateful, require_state}
use argus_os.Service
use argus_os.Memory.{
  RelatedKeys, missing, one_text, no_iterable, elements, MemoryValue, plain, mapping, MemoryRecord,
  MemoryService, get, list_live,
}
use argus_os.Graph.{Entity, Relationship, KnowledgeGraph, GraphError}
use argus_os.Graph
use argus_os.MemoryIntegration.Mapper.{
  entity_id, memory_to_entity, update_entity, memory_to_relationship,
}

pub record MemoryIntegration : Type 0 where
  pub state : LifecycleState
  pub memory : MemoryService
  pub graph : KnowledgeGraph
  pub synchronized : Dict String String
  pub failed : Dict String GraphError
  pub published : List Event

-- The errors of this package, and what the graph raises and is not caught.
pub data IntegrationError : Type 0 where
  memory_integration_error invalid_state invalid_memory_record : IntegrationError
  memory_mapping memory_not_synchronized : IntegrationError
  graph_error : GraphError → IntegrationError

abbrev pub Method : Type 0 → Type 0
Method A = Exec IntegrationError MemoryIntegration A

instance abbrev pub integration_stateful : Stateful MemoryIntegration
integration_stateful = record {
  get_state = λ m. m.state;
  set_state = λ x m. record m { state = x };
  get_state-set_state = λ x m. refl;
}

initialize : Method Unit
initialize = Service.initialize memory_integration_error

start : Method Unit
start = Service.start memory_integration_error

stop : Method Unit
stop = Service.stop memory_integration_error

unfoldable pub publish : EventType → Payload → Method Unit
publish type payload = modify (λ m. record m {
  published =
      record { type = type; source = "memory_integration"; payload = payload } ∷ m.published;
})

-- A call of the graph whose error is looked at.
abbrev pub attempt : {A : Type 0} → Graph.Method A → Method (Result GraphError A)
attempt call m = (ok (call m.graph).0, record m { graph = (call m.graph).1 })

abbrev pub of_graph : {A : Type 0} → Result GraphError A → Method A
of_graph (ok a) = pure a
of_graph (err e) = raise (graph_error e)

-- `except MemoryNotFoundError: raise InvalidMemoryRecordError`
unfoldable pub require_memory_record : (now : ℕ) → String → Method MemoryRecord
require_memory_record now key = do
  guard (not (is_empty key)) invalid_memory_record
  λ m.
      let (r, s) = get now key m.memory in
      (elim r [ ok a ↦ ok a | err e ↦ err invalid_memory_record ], record m { memory = s })

-- `except EntityNotFoundError: existing = None`
unfoldable pub existing_of : Result GraphError Entity → Method (Option Entity)
existing_of (ok e) = pure (some e)
existing_of (err GraphError.entity_not_found) = pure none
existing_of (err e) = raise (graph_error e)

-- The old entity is removed, if there is one; the answer is the one to be added.
unfoldable pub final_entity : Option Entity → MemoryRecord → Method Entity
unfolding memory_to_entity update_entity
final_entity none r = pure (memory_to_entity r)
final_entity (some existing) r = do
  removed ← attempt (Graph.remove_entity existing.id)
  of_graph removed
  pure (update_entity existing r)

unfoldable pub note_result : String → Entity → Result GraphError Unit → Method Unit
unfolding publish
note_result key e (err error) = do
  modify (λ m. record m { failed = insert key error m.failed })
  modify (λ m. record m { synchronized = erase key m.synchronized })
  publish EventType.memory_mapping_failed (("key", text key) ∷ [])
  raise memory_mapping
note_result key e (ok u) = do
  modify (λ m. record m { synchronized = insert key e.id m.synchronized })
  modify (λ m. record m { failed = erase key m.failed })
  publish EventType.memory_synchronized (("key", text key) ∷ ("entity_id", text e.id) ∷ [])

unfoldable pub note_relationship : String → Relationship → Result GraphError Unit → Method Unit
unfolding publish
note_relationship key r (ok u) = pure tt
note_relationship key r (err e) = publish EventType.memory_mapping_failed (
    ("key", text key)
    ∷ ("relationship_id", text r.id)
    ∷ ("target_entity_id", text r.target_entity_id)
    ∷ [])

unfoldable pub add_relationships : String → List Relationship → Method Unit
unfolding note_relationship
add_relationships key [] = pure tt
add_relationships key (r ∷ rs) = do
  added ← attempt (Graph.add_relationship r)
  note_relationship key r added
  add_relationships key rs

unfoldable pub replace_entity : String → MemoryRecord → Method Entity
unfolding memory_to_entity existing_of final_entity note_result
replace_entity key r = do
  found ← attempt (Graph.get_entity (memory_to_entity r).id)
  existing ← existing_of found
  e ← final_entity existing r
  added ← attempt (Graph.add_entity e)
  note_result key e added
  pure e

unfoldable pub synchronize_memory : (now : ℕ) (new_id : ℕ → String) → String → Method String
unfolding require_state require_memory_record replace_entity memory_to_relationship
    add_relationships
synchronize_memory now new_id key = do
  require_state LifecycleState.running invalid_state
  r ← require_memory_record now key
  guard (not (is_empty r.key)) invalid_memory_record
  e ← replace_entity key r
  add_relationships key (memory_to_relationship new_id r)
  pure e.id

-- `except EntityNotFoundError: pass`
unfoldable pub pass_not_found : Result GraphError Unit → Method Unit
pass_not_found (err GraphError.entity_not_found) = pure tt
pass_not_found (ok u) = pure tt
pass_not_found (err e) = raise (graph_error e)

unfoldable pub remove_memory : String → Method Unit
unfolding require_state entity_id pass_not_found publish
remove_memory key = do
  require_state LifecycleState.running invalid_state
  guard (not (is_empty key)) invalid_memory_record
  known ← gets (λ m. contains key m.synchronized)
  guard known memory_not_synchronized
  removed ← attempt (Graph.remove_entity (entity_id key))
  pass_not_found removed
  modify (λ m. record m { synchronized = erase key m.synchronized })
  modify (λ m. record m { failed = erase key m.failed })
  publish EventType.memory_desynchronized
      (("key", text key) ∷ ("entity_id", text (entity_id key)) ∷ [])

-- `except MemoryIntegrationError`
unfoldable pub is_integration_error : IntegrationError → Bool
is_integration_error (graph_error e) = false
is_integration_error _ = true

module _ (clock : String → ℕ) (new_id : String → ℕ → String) where
  -- The loop of `synchronize_all`.
  unfoldable pub synchronize_records : List MemoryRecord → Method (List String)
  unfolding synchronize_memory
  synchronize_records [] m = (ok [], m)
  synchronize_records (r ∷ rs) m =
      let (x, m') = synchronize_memory (clock r.key) (new_id r.key) r.key m in
      elim x [
        | ok id ↦ (do keys ← synchronize_records rs; pure (r.key ∷ keys)) m'
        | err e ↦ elim (is_integration_error e) [
          | true ↦ synchronize_records rs m'
          | false ↦ (err e, m')
        ]
      ]

  unfoldable pub synchronize_all : (now : ℕ) → Method (List String)
  unfolding require_state synchronize_records
  synchronize_all now = do
    require_state LifecycleState.running invalid_state
    rs ← gets (λ m. list_live now m.memory)
    synchronize_records rs

unfoldable pub reset : Method Unit
reset = do modify (λ m. record m { synchronized = [] }); modify (λ m. record m { failed = [] })
