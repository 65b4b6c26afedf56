-- ===== src/Reasoning/Reading.antt =====
-- argus/reasoning/engine.py: each request reads the engine and answers or refuses.
use argus_os.Prelude.{
  ℕ, String, true, ◌≡◌, refl, Option, none, some, List, [], ◌∷◌, map, arith, inl, inr, string_eq,
  Bool-cases,
}
use argus_os.Prelude.Lists.{All, All-select}
use argus_os.Prelude.Dict.{contains, values}
use argus_os.Events.{Payload}
use argus_os.Graph.{Entity, Relationship, KnowledgeGraph}
use argus_os.Graph
use argus_os.Reasoning.{
  neighbor_ids, endpoint_ids, relationships_touching, bfs_reachable, enumerate_simple_paths,
  PathIds,
}
use argus_os.Reasoning.Engine.{
  ReasoningQuery, ReasoningEngine, is_reasoning_error, on_graph, list_relationships, of_type,
  filter_by, match_pattern, relationship_lookup, first_met,
}
use argus_os.Reasoning.Queries.{
  keep_ids, relationship_attributes, query_by_entity_id, query_by_entity_type,
  query_by_relationship_type, query_by_pattern, query_branch, do_query,
}
use argus_os.Reasoning.Requests.{
  direct_neighbor_entities, do_neighbors, require_optional, do_related_entities, do_entity_summary,
  do_relationship_summary, collect_paths, do_find_paths, Request, work,
}
use argus_os.Reasoning.Known.{
  Ends, All-map, All-first_met, All-neighbor_ids, All-endpoint_ids, All-bfs_reachable,
  All-enumerate_simple_paths, All-relationship_lookup,
}
use argus_os.Reasoning.Safe.{
  Reads, Reads-cases, Any, Known, IsSound, require_non_empty-Reads, require_positive-Reads,
  get_entity-Reads, require_entity-Reads, get_entities-Reads, match_pattern-Reads,
  get_relationships-Reads, Ends-values,
}

All-both :
    {A : Type 0} (P Q : A → Type 0) (xs : List A) → All P xs → All Q xs → All (λ x. P x × Q x) xs
All-both P Q [] h k = tt
All-both P Q (x ∷ xs) h k = ((h.0, k.0), All-both P Q xs h.1 k.1)

module _ (status : Payload) (s : ReasoningEngine) (sound : IsSound s.graph) where
  direct_neighbor_entities-Reads :
      (id : String) (type : Option String) → Reads (direct_neighbor_entities id type) s (Any s)
  unfolding direct_neighbor_entities list_relationships on_graph Graph.list_relationships
      relationships_touching
  direct_neighbor_entities-Reads id type =
      let touching = relationships_touching id type (values s.graph.relationships) in
      let ends : All (Ends (Known s)) touching =
        All-select (Ends (Known s)) _ (values s.graph.relationships) (Ends-values s sound) in
      ground (
        arith,
        get_entities-Reads s sound (neighbor_ids id touching [])
            (All-neighbor_ids (Known s) id touching [] ends tt),
      )

  do_neighbors-Reads : (id : String) → Reads (do_neighbors status id) s (Any s)
  unfolding do_neighbors
  do_neighbors-Reads id = ground (
    arith,
    require_non_empty-Reads s id,
    require_entity-Reads s sound id,
    direct_neighbor_entities-Reads id none,
  )

  require_optional-Reads : (value : Option String) → Reads (require_optional value) s (Any s)
  unfolding require_optional
  require_optional-Reads none = (refl, tt)
  require_optional-Reads (some value) = require_non_empty-Reads s value

  do_related_entities-Reads :
      (id : String) (type : Option String) → Reads (do_related_entities status id type) s (Any s)
  unfolding do_related_entities
  do_related_entities-Reads id type = ground (
    arith,
    require_non_empty-Reads s id,
    require_optional-Reads type,
    require_entity-Reads s sound id,
    direct_neighbor_entities-Reads id type,
  )

  do_entity_summary-Reads : (id : String) → Reads (do_entity_summary status id) s (Any s)
  unfolding do_entity_summary list_relationships on_graph Graph.list_relationships
  do_entity_summary-Reads id =
      ground (arith, require_non_empty-Reads s id, require_entity-Reads s sound id)

  Ends-of_type :
      (type : String) → All (Ends (Known s)) (of_type type (values s.graph.relationships))
  unfolding of_type
  Ends-of_type type =
      All-select (Ends (Known s)) _ (values s.graph.relationships) (Ends-values s sound)

  do_relationship_summary-Reads :
      (type : String) → Reads (do_relationship_summary status type) s (Any s)
  unfolding do_relationship_summary list_relationships on_graph Graph.list_relationships
  do_relationship_summary-Reads type =
      let matched = of_type type (values s.graph.relationships) in
      let known = All-endpoint_ids (Known s) matched [] (Ends-of_type type) tt in
      ground (
        arith,
        require_non_empty-Reads s type,
        get_entities-Reads s sound (endpoint_ids matched []) known,
      )

  query_by_entity_id-Reads :
      (q : ReasoningQuery) (id : String) → Reads (query_by_entity_id status q id) s (Any s)
  unfolding query_by_entity_id list_relationships on_graph Graph.list_relationships
  query_by_entity_id-Reads q id =
      let rs = values s.graph.relationships in
      let reached = bfs_reachable q.relationship_type rs id q.depth in
      elim (Bool-cases (contains id s.graph.entities)) [
        | inl there ↦
            let known =
              All-bfs_reachable (Known s) q.relationship_type rs (Ends-values s sound) id q.depth
                there in
            ground
              (arith, require_entity-Reads s sound id, get_entities-Reads s sound reached known)
        | inr gone ↦ ground (arith, require_entity-Reads s sound id)
      ]

  All-keep_ids :
      (filters : Payload) (rs : List Relationship) (ids : List String)
      → All (Known s) ids
      → All (Known s) (keep_ids filters rs ids)
  unfolding keep_ids
  All-keep_ids [] rs ids h = h
  All-keep_ids (f ∷ filters) rs ids h = All-select (Known s) _ ids h

  query_by_pattern-Reads :
      (q : ReasoningQuery) (type rtype : String)
      → Reads (query_by_pattern status q type rtype) s (Any s)
  unfolding query_by_pattern list_relationships on_graph Graph.list_relationships
  query_by_pattern-Reads q type rtype =
      let rs = of_type rtype (values s.graph.relationships) in
      elim (Reads-cases (match_pattern type rs [] []) s (λ found. All (Known s) found.1)
        (match_pattern-Reads s sound type rs [] [] (Ends-of_type rtype) tt)) [
          | inl (found, (p, known)) ↦
              let ids =
                keep_ids q.filters (filter_by relationship_attributes q.filters found.0) found.1 in
              ground
                (arith, p, get_entities-Reads s sound ids (All-keep_ids q.filters _ found.1 known))
          | inr (e, (p, h)) ↦ ground (arith, p, h)
        ]

  query_branch-Reads :
      (q : ReasoningQuery) (id type rtype : Option String)
      → Reads (query_branch status q id type rtype) s (Any s)
  unfolding query_branch query_by_entity_type query_by_relationship_type list_relationships on_graph
      Graph.list_relationships Graph.find_by_type is_reasoning_error
  query_branch-Reads q (some id) type rtype = query_by_entity_id-Reads q id
  query_branch-Reads q none (some type) (some rtype) = query_by_pattern-Reads q type rtype
  query_branch-Reads q none (some type) none = (refl, tt)
  query_branch-Reads q none none (some rtype) = (refl, tt)
  query_branch-Reads q none none none = (refl, refl)

  do_query-Reads : (q : ReasoningQuery) → Reads (do_query status q) s (Any s)
  unfolding do_query is_reasoning_error
  do_query-Reads q = ground (
    arith,
    require_positive-Reads s q.depth,
    query_branch-Reads q q.entity_id q.entity_type q.relationship_type,
  )

  -- The relationship of the id is in `relationship_lookup`.
  abbrev Listed : String → Type 0
  Listed id = contains id (relationship_lookup (values s.graph.relationships) []) ≡ true

  abbrev PathKnown : PathIds → Type 0
  PathKnown p = All (Known s) p.0 × All Listed p.1

  All-OnPath :
      (source target : String) (n : ℕ)
      → Known s source
      → All PathKnown (enumerate_simple_paths (values s.graph.relationships) target source n)
  All-OnPath source target n known =
      let rs = values s.graph.relationships in
      All-enumerate_simple_paths (Known s) Listed rs target source n
        (All-both (Ends (Known s)) (λ r. Listed r.id) rs (Ends-values s sound)
          (All-relationship_lookup rs []))
        known

  All-left : (ps : List PathIds) → All PathKnown ps → All (λ p. All (Known s) p.0) ps
  All-left [] h = tt
  All-left (p ∷ ps) h = (h.0.0, All-left ps h.1)

  All-right : (ps : List PathIds) → All PathKnown ps → All (λ p. All Listed p.1) ps
  All-right [] h = tt
  All-right (p ∷ ps) h = (h.0.1, All-right ps h.1)

  collect_paths-Reads :
      (source target : String) (n : ℕ)
      → Known s source
      → Reads (collect_paths status source target n) s (Any s)
  unfolding collect_paths list_relationships on_graph Graph.list_relationships
  collect_paths-Reads source target n known =
      let rs = values s.graph.relationships in
      let found = All-OnPath source target n known in
      let raw = enumerate_simple_paths rs target source n in
      let ids = first_met (map (λ (p : PathIds). p.0) raw) [] in
      let rids = first_met (map (λ (p : PathIds). p.1) raw) [] in
      ground (
        arith,
        get_entities-Reads s sound ids (
            All-first_met (Known s) _ []
              (All-map (All (Known s)) (λ (p : PathIds). p.0) raw (All-left raw found)) tt),
        get_relationships-Reads s sound rids (relationship_lookup rs []) (
            All-first_met Listed _ []
              (All-map (All Listed) (λ (p : PathIds). p.1) raw (All-right raw found)) tt),
      )

  do_find_paths-Reads :
      (source target : String) (n : ℕ) → Reads (do_find_paths status source target n) s (Any s)
  unfolding do_find_paths
  do_find_paths-Reads source target n = elim (Bool-cases (contains source s.graph.entities)) [
    | inl there ↦ ground (
      arith,
      require_non_empty-Reads s source,
      require_non_empty-Reads s target,
      require_positive-Reads s n,
      require_entity-Reads s sound source,
      require_entity-Reads s sound target,
      get_entity-Reads s sound source there,
      collect_paths-Reads source target n there,
    )
    | inr gone ↦ ground (
      arith,
      require_non_empty-Reads s source,
      require_non_empty-Reads s target,
      require_positive-Reads s n,
      require_entity-Reads s sound source,
    )
  ]

  pub work-Reads : (request : Request) → Reads (work status request) s (Any s)
  unfolding work
  work-Reads (Request.query q) = do_query-Reads q
  work-Reads (Request.neighbors id) = do_neighbors-Reads id
  work-Reads (Request.find_paths source target n) = do_find_paths-Reads source target n
  work-Reads (Request.related_entities id type) = do_related_entities-Reads id type
  work-Reads (Request.entity_summary id) = do_entity_summary-Reads id
  work-Reads (Request.relationship_summary type) = do_relationship_summary-Reads type
