-- ===== src/Reasoning/Queries.antt =====
-- argus/reasoning/engine.py: `query` of ReasoningEngine, with `self._memory_sync_metadata()` as an
-- argument.
use argus_os.Prelude.{
  String, Option, none, some, List, [], ◌∷◌, ◌++◌, pure, raise, guard, ◌>>=◌, ◌>>◌, string_eq, ◌==◌,
  ◌||◌, is_some,
}
use argus_os.Prelude.Lists.{length, is_in, select}
use argus_os.Events.{Payload, text, number}
use argus_os.Graph.{Entity, Relationship}
use argus_os.Graph
use argus_os.Reasoning.{bfs_reachable, induced_relationships}
use argus_os.Reasoning.Engine.{
  ReasoningQuery, ReasoningResult, Failure, Method, on_graph, require_positive, require_entity,
  get_entities, list_relationships, of_type, filter_by, match_pattern,
}

abbrev pub counts : List Entity → List Relationship → Payload
counts es rs =
    ("matched_entity_count", number (length es))
    ∷ ("matched_relationship_count", number (length rs))
    ∷ []

abbrev pub entity_attributes : Entity → Payload
entity_attributes e = e.attributes

abbrev pub relationship_attributes : Relationship → Payload
relationship_attributes r = r.attributes

-- `kept_ids`
unfoldable pub kept_ids : List Relationship → List String
kept_ids [] = []
kept_ids (r ∷ rs) = r.source_entity_id ∷ r.target_entity_id ∷ kept_ids rs

unfoldable pub keep_ids : Payload → List Relationship → List String → List String
unfolding kept_ids
keep_ids [] rs ids = ids
keep_ids (f ∷ filters) rs ids = select (λ id. is_in id (kept_ids rs)) ids

unfoldable pub of_entity_type : Option String → List Entity → List Entity
of_entity_type none es = es
of_entity_type (some type) es = select (λ e. e.entity_type == type) es

abbrev pub answer_with :
    Payload → List Entity → List Relationship → Payload → Method ReasoningResult
answer_with status es rs metadata = pure (record {
  matched_entities = es;
  matched_relationships = rs;
  metadata = metadata ++ status;
  paths = [];
})

module _ (memory_sync_metadata : Payload) where
  unfoldable pub query_by_entity_id : ReasoningQuery → String → Method ReasoningResult
  unfolding require_entity get_entities list_relationships
  query_by_entity_id q id = do
    require_entity id
    rs ← list_relationships
    let visited_ids = bfs_reachable q.relationship_type rs id q.depth
    found ← get_entities visited_ids
    let induced = induced_relationships q.relationship_type rs visited_ids
    let kept = filter_by entity_attributes q.filters (of_entity_type q.entity_type found)
    answer_with memory_sync_metadata kept induced (
        ("branch", text "entity_id")
        ∷ ("entity_id", text id)
        ∷ ("depth", number q.depth)
        ∷ counts kept induced)

  unfoldable pub query_by_entity_type : ReasoningQuery → String → Method ReasoningResult
  unfolding on_graph
  query_by_entity_type q type = do
    found ← on_graph (Graph.find_by_type type)
    let kept = filter_by entity_attributes q.filters found
    answer_with memory_sync_metadata kept []
        (("branch", text "entity_type") ∷ ("entity_type", text type) ∷ counts kept [])

  unfoldable pub query_by_relationship_type : ReasoningQuery → String → Method ReasoningResult
  unfolding list_relationships
  query_by_relationship_type q type = do
    rs ← list_relationships
    let kept = filter_by relationship_attributes q.filters (of_type type rs)
    answer_with memory_sync_metadata [] kept
        (("branch", text "relationship_type") ∷ ("relationship_type", text type) ∷ counts [] kept)

  unfoldable pub query_by_pattern : ReasoningQuery → String → String → Method ReasoningResult
  unfolding list_relationships get_entities match_pattern
  query_by_pattern q entity_type relationship_type = do
    rs ← list_relationships
    found ← match_pattern entity_type (of_type relationship_type rs) [] []
    let kept = filter_by relationship_attributes q.filters found.0
    es ← get_entities (keep_ids q.filters kept found.1)
    answer_with memory_sync_metadata es kept (
        ("branch", text "pattern")
        ∷ ("entity_type", text entity_type)
        ∷ ("relationship_type", text relationship_type)
        ∷ counts es kept)

  -- `do_query` has refused the last branch.
  unfoldable pub query_branch :
      ReasoningQuery
      → (entity_id entity_type relationship_type : Option String) → Method ReasoningResult
  unfolding query_by_entity_id query_by_pattern query_by_entity_type query_by_relationship_type
  query_branch q (some id) entity_type relationship_type = query_by_entity_id q id
  query_branch q none (some type) (some rtype) = query_by_pattern q type rtype
  query_branch q none (some type) none = query_by_entity_type q type
  query_branch q none none (some rtype) = query_by_relationship_type q rtype
  query_branch q none none none = raise Failure.invalid_reasoning_query

  unfoldable pub do_query : ReasoningQuery → Method ReasoningResult
  unfolding require_positive query_branch
  do_query q = do
    guard (is_some q.entity_id || is_some q.entity_type || is_some q.relationship_type)
        Failure.invalid_reasoning_query
    require_positive q.depth
    query_branch q q.entity_id q.entity_type q.relationship_type
