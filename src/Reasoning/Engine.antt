-- ===== src/Reasoning/Engine.antt =====
-- argus/reasoning/engine.py, query.py, result.py: the operations of ReasoningEngine. A payload's
-- entry whose value is None is left out, and so are the texts of `reasoning_steps` and of errors.
-- `metadata["paths"]` is a field of its own. The synchronization status of the memory integration
-- is an argument. The arguments have the classes that their annotations say; a depth below zero is
-- refused like 0.
use argus_os.Prelude.{
  ℕ, String, Bool, true, false, not, refl, Option, none, some, List, [], ◌∷◌, ◌++◌, ok, err, Exec,
  pure, raise, modify, guard, or_raise, ◌>>=◌, ◌>>◌, ◌||◌, is_empty, string_eq, ◌==◌, if◌then◌else◌,
  eqb,
}
use argus_os.Prelude.Lists.{length, select}
use argus_os.Prelude.Dict.{Dict, lookup, insert}
use argus_os.Lifecycle.{LifecycleState}
use argus_os.Events.{EventType, Event, Payload, text, number}
use argus_os.Service.{Stateful}
use argus_os.Service
use argus_os.Graph.{Entity, Relationship, KnowledgeGraph, GraphError}
use argus_os.Graph
use argus_os.Reasoning.{matches_filters, add_new}

pub record ReasoningQuery : Type 0 where
  pub entity_type : Option String
  pub relationship_type : Option String
  pub entity_id : Option String
  pub depth : ℕ
  pub filters : Payload

pub record ReasoningResult : Type 0 where
  pub matched_entities : List Entity
  pub matched_relationships : List Relationship
  pub metadata : Payload
  pub paths : List (List String)

pub record ReasoningEngine : Type 0 where
  pub state : LifecycleState
  pub graph : KnowledgeGraph
  pub published : List Event

-- The errors of this package, what the graph raises, and the KeyError of
-- `relationship_lookup[rid]`.
pub data Failure : Type 0 where
  reasoning_error invalid_reasoning_query reasoning_target_not_found key_error : Failure
  graph_error : GraphError → Failure

-- `except ReasoningError`
unfoldable pub is_reasoning_error : Failure → Bool
is_reasoning_error Failure.key_error = false
is_reasoning_error (Failure.graph_error e) = false
is_reasoning_error _ = true

abbrev pub Method : Type 0 → Type 0
Method A = Exec Failure ReasoningEngine A

instance abbrev pub reasoning_stateful : Stateful ReasoningEngine
reasoning_stateful = record {
  get_state = λ g. g.state;
  set_state = λ x g. record g { state = x };
  get_state-set_state = λ x g. refl;
}

initialize : Method Unit
initialize = Service.initialize Failure.reasoning_error

start : Method Unit
start = Service.start Failure.reasoning_error

stop : Method Unit
stop = Service.stop Failure.reasoning_error

-- A call of a method of `self._knowledge_graph`.
unfoldable pub on_graph : {A : Type 0} → Graph.Method A → Method A
on_graph m s =
    let (r, g) = m s.graph in
    (elim r [ ok a ↦ ok a | err e ↦ err (Failure.graph_error e) ], record s { graph = g })

unfoldable pub publish : EventType → Payload → Method Unit
publish type payload = modify (λ s. record s {
  published = record { type = type; source = "reasoning_engine"; payload = payload } ∷ s.published;
})

unfoldable pub execute :
    (operation : String) (base_payload : Payload) → Method ReasoningResult → Method ReasoningResult
unfolding publish is_reasoning_error
execute operation base_payload work s =
    let (r, s') = work s in
    let payload = base_payload ++ ("operation", text operation) ∷ [] in
    elim r [
      | ok result ↦
          (do
            publish EventType.reasoning_query_executed payload
            publish EventType.reasoning_result_created (
                payload
                ++ ("matched_entity_count", number (length result.matched_entities))
                  ∷ ("matched_relationship_count", number (length result.matched_relationships))
                  ∷ [])
            pure result)
            s'
      | err e ↦
          if is_reasoning_error e
          then (do publish EventType.reasoning_query_failed payload; raise e) s'
          else (err e, s')
    ]

unfoldable pub require_non_empty : String → Method Unit
require_non_empty value = guard (not (is_empty value)) Failure.invalid_reasoning_query

unfoldable pub require_positive : ℕ → Method Unit
require_positive value = guard (not (eqb value 0)) Failure.invalid_reasoning_query

unfoldable pub get_entity : String → Method Entity
unfolding on_graph
get_entity id = on_graph (Graph.get_entity id)

-- `except EntityNotFoundError: raise ReasoningTargetNotFoundError`
unfoldable pub as_target : Failure → Failure
as_target (Failure.graph_error GraphError.entity_not_found) = Failure.reasoning_target_not_found
as_target e = e

unfoldable pub require_entity : String → Method Entity
unfolding require_non_empty get_entity as_target
require_entity id = do
  require_non_empty id
  λ s. let (r, s') = get_entity id s in (elim r [ ok e ↦ ok e | err e ↦ err (as_target e) ], s')

-- `tuple(self._knowledge_graph.get_entity(id) for id in ids)`
unfoldable pub get_entities : List String → Method (List Entity)
get_entities [] = pure []
get_entities (id ∷ ids) = do e ← get_entity id; es ← get_entities ids; pure (e ∷ es)

unfoldable pub list_relationships : Method (List Relationship)
unfolding on_graph
list_relationships = on_graph Graph.list_relationships

unfoldable pub of_type : String → List Relationship → List Relationship
of_type type rs = select (λ r. r.relationship_type == type) rs

-- `if filters: ...`
unfoldable pub filter_by : {A : Type 0} → (A → Payload) → Payload → List A → List A
filter_by attributes [] xs = xs
filter_by attributes (f ∷ filters) xs =
    select (λ x. matches_filters (attributes x) (f ∷ filters)) xs

-- `if e.entity_type == entity_type: if e.id not in ids: ids.append(e.id)`
unfoldable pub add_typed : String → Entity → List String → List String
add_typed type e ids = if e.entity_type == type then add_new e.id ids else ids

-- The loop of `_query_by_pattern`, with `matched_relationships` and `matched_entity_ids`.
unfoldable pub match_pattern :
    String
    → List Relationship
    → List Relationship
    → List String
    → Method (List Relationship × List String)
match_pattern type [] matched ids = pure (matched, ids)
match_pattern type (r ∷ rs) matched ids = do
  source ← get_entity r.source_entity_id
  target ← get_entity r.target_entity_id
  let touched = source.entity_type == type || target.entity_type == type
  match_pattern type rs (if touched then matched ++ r ∷ [] else matched)
      (add_typed type target (add_typed type source ids))

-- `relationship_lookup[rid] for rid in relationship_id_order`
unfoldable pub get_relationships :
    List String → Dict String Relationship → Method (List Relationship)
get_relationships [] lookups = pure []
get_relationships (id ∷ ids) lookups = do
  r ← or_raise (lookup id lookups) Failure.key_error
  rs ← get_relationships ids lookups
  pure (r ∷ rs)

-- `{r.id: r for r in relationships}`
unfoldable pub relationship_lookup :
    List Relationship → Dict String Relationship → Dict String Relationship
relationship_lookup [] d = d
relationship_lookup (r ∷ rs) d = relationship_lookup rs (insert r.id r d)

unfoldable pub add_all_new : List String → List String → List String
add_all_new [] ids = ids
add_all_new (k ∷ ks) ids = add_all_new ks (add_new k ids)

-- The loops over `raw_paths` of `_do_find_paths`: the ids in the order they are first met.
unfoldable pub first_met : List (List String) → List String → List String
first_met [] ids = ids
first_met (path ∷ paths) ids = first_met paths (add_all_new path ids)

unfoldable pub optional : String → Option String → Payload
optional key none = []
optional key (some value) = (key, text value) ∷ []
