-- ===== src/Reasoning/Requests.antt =====
-- argus/reasoning/engine.py: the public methods of ReasoningEngine, as requests of one type, with
-- `self._memory_sync_metadata()` as an argument.
use argus_os.Prelude.{
  ℕ, String, true, false, Option, none, some, List, [], ◌∷◌, ◌++◌, map, pure, ◌>>=◌, ◌>>◌,
  string_eq, ◌==◌,
}
use argus_os.Prelude.Lists.{length, select}
use argus_os.Events.{Payload, text, number}
use argus_os.Graph.{Entity, Relationship}
use argus_os.Reasoning.{
  relationships_touching, neighbor_ids, endpoint_ids, PathIds, enumerate_simple_paths,
}
use argus_os.Reasoning.Engine.{
  ReasoningQuery, ReasoningResult, Method, execute, require_non_empty, require_positive, get_entity,
  require_entity, get_entities, list_relationships, of_type, get_relationships, relationship_lookup,
  first_met, optional,
}
use argus_os.Reasoning.Queries.{answer_with, do_query}

-- `_direct_neighbor_entities`
unfoldable pub direct_neighbor_entities :
    String → Option String → Method (List Entity × List Relationship)
unfolding list_relationships get_entities
direct_neighbor_entities id type = do
  rs ← list_relationships
  let touching = relationships_touching id type rs
  es ← get_entities (neighbor_ids id touching [])
  pure (es, touching)

unfoldable pub require_optional : Option String → Method Unit
unfolding require_non_empty
require_optional none = pure tt
require_optional (some value) = require_non_empty value

module _ (memory_sync_metadata : Payload) where
  unfoldable pub do_neighbors : String → Method ReasoningResult
  unfolding require_non_empty require_entity direct_neighbor_entities
  do_neighbors id = do
    require_non_empty id
    require_entity id
    found ← direct_neighbor_entities id none
    answer_with memory_sync_metadata found.0 found.1 (
        ("entity_id", text id)
        ∷ ("neighbor_count", number (length found.0))
        ∷ ("relationship_count", number (length found.1))
        ∷ [])

  unfoldable pub do_related_entities : String → Option String → Method ReasoningResult
  unfolding require_non_empty require_optional require_entity direct_neighbor_entities optional
  do_related_entities id type = do
    require_non_empty id
    require_optional type
    require_entity id
    found ← direct_neighbor_entities id type
    answer_with memory_sync_metadata found.0 found.1 (
        ("entity_id", text id) ∷ optional "relationship_type" type
        ++ ("neighbor_count", number (length found.0))
          ∷ ("relationship_count", number (length found.1))
          ∷ [])

  unfoldable pub do_entity_summary : String → Method ReasoningResult
  unfolding require_non_empty require_entity list_relationships
  do_entity_summary id = do
    require_non_empty id
    root ← require_entity id
    rs ← list_relationships
    let touching = relationships_touching id none rs
    answer_with memory_sync_metadata (root ∷ []) touching (
        ("entity_id", text id)
        ∷ ("entity_type", text root.entity_type)
        ∷ ("outgoing_count", number (length (select (λ r. r.source_entity_id == id) touching)))
        ∷ ("incoming_count", number (length (select (λ r. r.target_entity_id == id) touching)))
        ∷ ("neighbor_count", number (length (neighbor_ids id touching [])))
        ∷ [])

  unfoldable pub do_relationship_summary : String → Method ReasoningResult
  unfolding require_non_empty list_relationships get_entities
  do_relationship_summary type = do
    require_non_empty type
    rs ← list_relationships
    let matched = of_type type rs
    es ← get_entities (endpoint_ids matched [])
    answer_with memory_sync_metadata es matched (
        ("relationship_type", text type)
        ∷ ("relationship_count", number (length matched))
        ∷ ("distinct_entity_count", number (length es))
        ∷ [])

  abbrev path_result :
      (source target : String)
      → ℕ
      → List Entity
      → List Relationship
      → List (List String)
      → Method ReasoningResult
  path_result source target max_depth es rs paths = pure (record {
    matched_entities = es;
    matched_relationships = rs;
    metadata =
        ("source_entity_id", text source)
        ∷ ("target_entity_id", text target)
        ∷ ("max_depth", number max_depth)
        ∷ ("path_count", number (length paths))
        ∷ memory_sync_metadata;
    paths = paths;
  })

  unfoldable pub collect_paths : (source target : String) → ℕ → Method ReasoningResult
  unfolding get_entity list_relationships get_entities get_relationships
  collect_paths source target max_depth = do
    rs ← list_relationships
    let raw = enumerate_simple_paths rs target source max_depth
    es ← get_entities (first_met (map (λ (p : PathIds). p.0) raw) [])
    matched ←
        get_relationships (first_met (map (λ (p : PathIds). p.1) raw) [])
          (relationship_lookup rs [])
    path_result source target max_depth es matched (map (λ (p : PathIds). p.0) raw)

  unfoldable pub do_find_paths : (source target : String) (max_depth : ℕ) → Method ReasoningResult
  unfolding require_non_empty require_positive require_entity get_entity collect_paths
  do_find_paths source target max_depth = do
    require_non_empty source
    require_non_empty target
    require_positive max_depth
    require_entity source
    require_entity target
    elim (source == target) [
      | true ↦ do
        e ← get_entity source
        path_result source target max_depth (e ∷ []) [] ((source ∷ []) ∷ [])
      | false ↦ collect_paths source target max_depth
    ]

-- The calls of the public methods.
pub data Request : Type 0 where
  query : ReasoningQuery → Request
  neighbors entity_summary relationship_summary : String → Request
  find_paths : (source target : String) (max_depth : ℕ) → Request
  related_entities : String → Option String → Request

unfoldable pub operation_name : Request → String
operation_name (Request.query q) = "query"
operation_name (Request.neighbors id) = "neighbors"
operation_name (Request.find_paths s t n) = "find_paths"
operation_name (Request.related_entities id type) = "related_entities"
operation_name (Request.entity_summary id) = "entity_summary"
operation_name (Request.relationship_summary type) = "relationship_summary"

unfoldable pub base_payload : Request → Payload
base_payload (Request.query q) =
    optional "entity_id" q.entity_id
    ++ optional "entity_type" q.entity_type
    ++ optional "relationship_type" q.relationship_type
base_payload (Request.neighbors id) = ("entity_id", text id) ∷ []
base_payload (Request.find_paths s t n) =
    ("source_entity_id", text s) ∷ ("target_entity_id", text t) ∷ ("max_depth", number n) ∷ []
base_payload (Request.related_entities id type) =
    ("entity_id", text id) ∷ optional "relationship_type" type
base_payload (Request.entity_summary id) = ("entity_id", text id) ∷ []
base_payload (Request.relationship_summary type) = ("relationship_type", text type) ∷ []

module _ (memory_sync_metadata : Payload) where
  unfoldable pub work : Request → Method ReasoningResult
  unfolding do_query do_neighbors do_find_paths do_related_entities do_entity_summary
      do_relationship_summary
  work (Request.query q) = do_query memory_sync_metadata q
  work (Request.neighbors id) = do_neighbors memory_sync_metadata id
  work (Request.find_paths s t n) = do_find_paths memory_sync_metadata s t n
  work (Request.related_entities id type) = do_related_entities memory_sync_metadata id type
  work (Request.entity_summary id) = do_entity_summary memory_sync_metadata id
  work (Request.relationship_summary type) = do_relationship_summary memory_sync_metadata type

  unfoldable pub answer : Request → Method ReasoningResult
  unfolding execute
  answer request = execute (operation_name request) (base_payload request) (work request)
