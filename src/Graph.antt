-- ===== src/Graph.antt =====
-- argus/knowledge_graph/graph.py, entity.py, relationship.py: KnowledgeGraph. The arguments have the
-- classes that their annotations say, so the `isinstance` checks pass.
pub mod Integrity
pub mod Removal
pub mod Neighbors
mod Tests
use argus_os.Prelude.{
  String, Bool, true, false, not, Option, none, some, List, [], ◌∷◌, ◌++◌, Exec, pure, raise, gets,
  modify, guard, or_raise, ◌>>=◌, ◌>>◌, ◌||◌, is_some, is_empty, string_eq, refl, if◌then◌else◌,
  ◌==◌,
}
use argus_os.Prelude.Lists.{is_in, select}
use argus_os.Prelude.Dict.{Dict, lookup, insert, erase, contains, values}
use argus_os.Lifecycle.{LifecycleState}
use argus_os.Events.{EventType, Event, Payload, text}
use argus_os.Service.{Stateful}
use argus_os.Service

pub record Entity : Type 0 where
  pub id : String
  pub entity_type : String
  pub name : String
  pub attributes : Payload

pub record Relationship : Type 0 where
  pub id : String
  pub source_entity_id : String
  pub target_entity_id : String
  pub relationship_type : String
  pub attributes : Payload

pub record KnowledgeGraph : Type 0 where
  pub state : LifecycleState
  pub entities : Dict String Entity
  pub relationships : Dict String Relationship
  pub published : List Event

-- `key_error` is what `self._entities[other_id]` would raise in `neighbors`.
pub data GraphError : Type 0 where
  knowledge_graph_error invalid_entity duplicate_entity entity_not_found : GraphError
  invalid_relationship duplicate_relationship relationship_not_found key_error : GraphError

abbrev pub Method : Type 0 → Type 0
Method A = Exec GraphError KnowledgeGraph A

instance abbrev pub graph_stateful : Stateful KnowledgeGraph
graph_stateful = record {
  get_state = λ g. g.state;
  set_state = λ x g. record g { state = x };
  get_state-set_state = λ x g. refl;
}

initialize : Method Unit
initialize = Service.initialize knowledge_graph_error

start : Method Unit
start = Service.start knowledge_graph_error

stop : Method Unit
stop = Service.stop knowledge_graph_error

unfoldable pub publish : EventType → Payload → Method Unit
publish type payload = modify (λ g. record g {
  published = record { type = type; source = "knowledge_graph"; payload = payload } ∷ g.published;
})

unfoldable pub require_entity : String → Method Entity
require_entity id = do
  guard (not (is_empty id)) invalid_entity
  found ← gets (λ g. lookup id g.entities)
  or_raise found entity_not_found

unfoldable pub require_relationship : String → Method Relationship
require_relationship id = do
  guard (not (is_empty id)) invalid_relationship
  found ← gets (λ g. lookup id g.relationships)
  or_raise found relationship_not_found

unfoldable pub add_entity : Entity → Method Unit
unfolding publish
add_entity e = do
  guard (not (is_empty e.id)) invalid_entity
  guard (not (is_empty e.entity_type)) invalid_entity
  guard (not (is_empty e.name)) invalid_entity
  taken ← gets (λ g. contains e.id g.entities)
  guard (not taken) duplicate_entity
  modify (λ g. record g { entities = insert e.id e g.entities })
  publish EventType.entity_added (("entity_id", text e.id) ∷ [])

unfoldable pub touches : String → Relationship → Bool
touches id r = r.source_entity_id == id || r.target_entity_id == id

-- The ids of the relationships that touch an entity.
unfoldable pub stale_ids : String → Dict String Relationship → List String
unfolding touches
stale_ids id [] = []
stale_ids id ((k, r) ∷ rs) = let rest = stale_ids id rs in if touches id r then k ∷ rest else rest

-- `for relationship_id in ids: del self._relationships[relationship_id]`
unfoldable pub erase_all : List String → Dict String Relationship → Dict String Relationship
erase_all [] rs = rs
erase_all (k ∷ ks) rs = erase_all ks (erase k rs)

unfoldable pub remove_entity : String → Method Unit
unfolding require_entity publish
remove_entity id = do
  require_entity id
  modify
      (λ g. record g { relationships = erase_all (stale_ids id g.relationships) g.relationships })
  modify (λ g. record g { entities = erase id g.entities })
  publish EventType.entity_removed (("entity_id", text id) ∷ [])

unfoldable pub get_entity : String → Method Entity
unfolding require_entity
get_entity id = require_entity id

list_entities : Method (List Entity)
list_entities = gets (λ g. values g.entities)

unfoldable pub add_relationship : Relationship → Method Unit
unfolding require_entity publish
add_relationship r = do
  guard (not (is_empty r.id)) invalid_relationship
  guard (not (is_empty r.relationship_type)) invalid_relationship
  guard (not (is_empty r.source_entity_id)) invalid_relationship
  guard (not (is_empty r.target_entity_id)) invalid_relationship
  taken ← gets (λ g. contains r.id g.relationships)
  guard (not taken) duplicate_relationship
  require_entity r.source_entity_id
  require_entity r.target_entity_id
  modify (λ g. record g { relationships = insert r.id r g.relationships })
  publish EventType.relationship_added (("relationship_id", text r.id) ∷ [])

unfoldable pub remove_relationship : String → Method Unit
unfolding require_relationship publish
remove_relationship id = do
  require_relationship id
  modify (λ g. record g { relationships = erase id g.relationships })
  publish EventType.relationship_removed (("relationship_id", text id) ∷ [])

unfoldable pub list_relationships : Method (List Relationship)
list_relationships = gets (λ g. values g.relationships)

-- The entity at the other end of a relationship.
unfoldable pub other_end : String → Relationship → Option String
other_end id r =
    if r.source_entity_id == id
    then some r.target_entity_id
    else if r.target_entity_id == id
    then some r.source_entity_id
    else none

unfoldable pub append_new : Option String → List String → List String
append_new none ids = ids
append_new (some k) ids = if is_in k ids then ids else ids ++ k ∷ []

-- The loop of `neighbors`.
unfoldable pub neighbor_ids : String → Dict String Relationship → List String → List String
neighbor_ids id [] ids = ids
neighbor_ids id ((k, r) ∷ rs) ids = neighbor_ids id rs (append_new (other_end id r) ids)

-- `tuple(self._entities[other_id] for other_id in ids)`
unfoldable pub get_all : List String → Method (List Entity)
get_all [] = pure []
get_all (k ∷ ks) = do
  found ← gets (λ g. lookup k g.entities)
  e ← or_raise found key_error
  es ← get_all ks
  pure (e ∷ es)

unfoldable pub neighbors : String → Method (List Entity)
unfolding require_entity get_all
neighbors id = do
  require_entity id
  ids ← gets (λ g. neighbor_ids id g.relationships [])
  get_all ids

unfoldable pub find_by_type : String → Method (List Entity)
find_by_type type = gets (λ g. select (λ e. e.entity_type == type) (values g.entities))
