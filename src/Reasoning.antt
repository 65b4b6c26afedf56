-- ===== src/Reasoning.antt =====
-- argus/reasoning/engine.py, query.py, result.py: ReasoningEngine, here what it computes from the
-- relationships of the knowledge graph; the operations are in Reasoning/Engine.antt. The texts of
-- `reasoning_steps` are left out. `list_relationships()` is read once for each search, since
-- nothing changes the graph meanwhile.
pub mod Engine
pub mod Queries
pub mod Requests
pub mod Frontier
pub mod Reach
pub mod Search
pub mod Paths
pub mod Known
pub mod Safe
pub mod Reading
pub mod Answered
mod Tests
use argus_os.Prelude.{
  ℕ, zero, suc, String, Bool, true, false, not, Option, none, some, List, [], ◌∷◌, ◌++◌, map, ◌&&◌,
  ◌||◌, string_eq, ◌==◌, if◌then◌else◌, eqb,
}
use argus_os.Prelude.Lists.{is_in, select}
use argus_os.Prelude.Dict.{Dict, lookup}
use argus_os.Events.{Payload, Value, text, number}
use argus_os.Graph.{Relationship}

-- `==` on values
unfoldable pub same_value : Value → Value → Bool
same_value (text s) (text t) = s == t
same_value (number m) (number n) = eqb m n
same_value _ _ = false

unfoldable pub matches_filters : (attributes filters : Payload) → Bool
matches_filters attributes [] = true
matches_filters attributes ((key, value) ∷ filters) =
    elim (lookup key attributes) [ none ↦ false | some v ↦ same_value v value ]
    && matches_filters attributes filters

-- `relationship_type is None or r.relationship_type == relationship_type`
unfoldable pub has_type : Option String → Relationship → Bool
has_type none r = true
has_type (some type) r = r.relationship_type == type

unfoldable pub is_at : String → Relationship → Bool
is_at id r = r.source_entity_id == id || r.target_entity_id == id

unfoldable pub relationships_touching :
    String → Option String → List Relationship → List Relationship
unfolding is_at has_type
relationships_touching id type rs = select (λ r. is_at id r && has_type type r) rs

unfoldable pub other_endpoint : Relationship → String → String
other_endpoint r id = if r.source_entity_id == id then r.target_entity_id else r.source_entity_id

-- `if id not in ids: ids.append(id)`
unfoldable pub add_new : String → List String → List String
add_new id ids = if is_in id ids then ids else ids ++ id ∷ []

-- The loop of `_direct_neighbor_entities` and of `_do_entity_summary`.
unfoldable pub neighbor_ids : String → List Relationship → List String → List String
neighbor_ids id [] ids = ids
neighbor_ids id (r ∷ rs) ids = neighbor_ids id rs (add_new (other_endpoint r id) ids)

-- The loop of `_do_relationship_summary`.
unfoldable pub endpoint_ids : List Relationship → List String → List String
endpoint_ids [] ids = ids
endpoint_ids (r ∷ rs) ids =
    endpoint_ids rs (add_new r.target_entity_id (add_new r.source_entity_id ids))

-- The relationships with an end on the frontier.
unfoldable pub touches_frontier : Option String → List String → Relationship → Bool
touches_frontier type frontier r =
    has_type type r && (is_in r.source_entity_id frontier || is_in r.target_entity_id frontier)

-- `if candidate_id not in visited and candidate_id not in new_ids: new_ids.append(candidate_id)`
unfoldable pub discover : (visited : List String) → String → List String → List String
discover visited id ids = if is_in id visited || is_in id ids then ids else ids ++ id ∷ []

unfoldable pub discover_all :
    (visited : List String) → List Relationship → List String → List String
discover_all visited [] ids = ids
discover_all visited (r ∷ rs) ids =
    discover_all visited rs
      (discover visited r.target_entity_id (discover visited r.source_entity_id ids))

abbrev pub is_nil : {A : Type 0} → List A → Bool
is_nil [] = true
is_nil (x ∷ xs) = false

module _ (type : Option String) (rs : List Relationship) where
  unfoldable pub new_ids : (visited frontier : List String) → List String
  unfolding touches_frontier
  new_ids visited frontier = discover_all visited (select (touches_frontier type frontier) rs) []

  -- The loop of `_bfs_reachable`, on the hops that are left. The set `visited` has the ids of the
  -- list `visited_order`.
  unfoldable pub bfs_loop : (hops : ℕ) → (visited frontier : List String) → List String
  bfs_loop zero visited frontier = visited
  bfs_loop (suc hops) visited frontier =
      let found = new_ids visited frontier in
      let rest = bfs_loop hops (visited ++ found) found in
      if is_nil found then visited ++ found else rest

  unfoldable pub bfs_reachable : String → (depth : ℕ) → List String
  bfs_reachable root depth = bfs_loop depth (root ∷ []) (root ∷ [])

  unfoldable pub induced_relationships : List String → List Relationship
  induced_relationships ids =
      select
        (λ r. has_type type r && (is_in r.source_entity_id ids && is_in r.target_entity_id ids)) rs

-- A path: the ids of its entities, and those of its relationships.
abbrev pub PathIds : Type 0
PathIds = List String × List String

unfoldable pub flat_map : {A B : Type 0} → (A → List B) → List A → List B
flat_map f [] = []
flat_map f (x ∷ xs) = f x ++ flat_map f xs

module _ (rs : List Relationship) (target_id : String) where
  -- `dfs` of `_enumerate_simple_paths`; `left` is max_depth less the length of the path so far.
  unfoldable pub dfs :
      (left : ℕ) (current_id : String) (path_ids path_relationship_ids visited : List String)
      → List PathIds
  dfs zero current_id path_ids path_relationship_ids visited = []
  dfs (suc left) current_id path_ids path_relationship_ids visited =
      flat_map
        (λ (r : Relationship).
          let other_id = other_endpoint r current_id in
          let new_path_ids = path_ids ++ other_id ∷ [] in
          let new_relationship_ids = path_relationship_ids ++ r.id ∷ [] in
          elim (is_in other_id visited) [
            | true ↦ []
            | false ↦ elim (other_id == target_id) [
              | true ↦ (new_path_ids, new_relationship_ids) ∷ []
              | false ↦ dfs left other_id new_path_ids new_relationship_ids (other_id ∷ visited)
            ]
          ])
        (relationships_touching current_id none rs)

  unfoldable pub enumerate_simple_paths : (source_id : String) (max_depth : ℕ) → List PathIds
  enumerate_simple_paths source_id max_depth =
      dfs max_depth source_id (source_id ∷ []) [] (source_id ∷ [])
