-- ===== src/Reasoning/Tests.antt =====
-- Two people and their company, and the theorems at them.
use argus_os.Prelude.{String, ◌≡◌, ◌≢◌, ◌↔◌, refl, true, some, List, [], ◌∷◌, eq_iff, string_eq}
use argus_os.Prelude.Lists.{is_in, NoDup}
use argus_os.Prelude.Dict.{lookup}
use argus_os.Lifecycle.{LifecycleState}
use argus_os.Graph.{Entity, Relationship, KnowledgeGraph}
use argus_os.Graph.Integrity.{Call, run}
use argus_os.Reasoning.{PathIds, bfs_reachable, enumerate_simple_paths}
use argus_os.Reasoning.Search.{In}
use argus_os.Reasoning.Paths.{Walk, IsPath, entities, relationship_ids, enumerate_simple_paths_lem}
use argus_os.Reasoning.Reach.{Within, bfs_reachable_lem}
use argus_os.Reasoning.Engine.{ReasoningEngine}
use argus_os.Reasoning.Requests.{Request, answer}
use argus_os.Reasoning.Safe.{IsSound, run-IsSound}
use argus_os.Reasoning.Answered.{Outcome, answer-Outcome}

abbrev person : String → Entity
person id = record { id = id; entity_type = "person"; name = "P"; attributes = [] }

abbrev joins : (id source target : String) → Relationship
joins id source target = record {
  id = id;
  source_entity_id = source;
  target_entity_id = target;
  relationship_type = "works_at";
  attributes = [];
}

abbrev joined : List Relationship
joined = joins "r" "a" "c" ∷ joins "s" "b" "c" ∷ []

a_not_b : ◌≢◌ {A = String} "a" "b"
a_not_b e = cc ((eq_iff "a" "b").1 e)

enumerate_simple_paths_lem_example :
    In ("a" ∷ "c" ∷ "b" ∷ [], "r" ∷ "s" ∷ []) (enumerate_simple_paths joined "b" "a" 2) ↔ (
      (w : Walk) × (IsPath joined "a" "b" 2 w
        × ◌≡◌ {A = PathIds}
            ("a" ∷ entities w, relationship_ids w)
            ("a" ∷ "c" ∷ "b" ∷ [], "r" ∷ "s" ∷ [])))
enumerate_simple_paths_lem_example =
    enumerate_simple_paths_lem joined "a" "b" 2 ("a" ∷ "c" ∷ "b" ∷ [], "r" ∷ "s" ∷ []) a_not_b

bfs_reachable_lem_example :
    NoDup (bfs_reachable (some "works_at") joined "a" 2)
    × ((is_in "b" (bfs_reachable (some "works_at") joined "a" 2) ≡ true)
        ↔ Within (some "works_at") joined 2 "a" "b")
bfs_reachable_lem_example = bfs_reachable_lem (some "works_at") joined "a" 2 "b"

abbrev nobody : KnowledgeGraph
nobody = record {
  state = LifecycleState.created;
  entities = [];
  relationships = [];
  published = [];
}

nobody-IsSound : IsSound nobody
unfolding lookup
nobody-IsSound = (
  record {
    source = λ k r h. absurd h;
    target = λ k r h. absurd h;
    entity_id = λ k e h. cc;
    relationship_id = λ k r h. absurd h;
    unique = tt;
  },
  refl,
)

abbrev calls : List Call
calls =
    Call.add_entity (person "a")
    ∷ Call.add_entity (person "b")
    ∷ Call.add_entity (person "c")
    ∷ Call.add_relationship (joins "r" "a" "c")
    ∷ Call.add_relationship (joins "s" "b" "c")
    ∷ []

abbrev engine : ReasoningEngine
engine = record { state = LifecycleState.running; graph = run calls nobody; published = [] }

abbrev paths_request : Request
paths_request = Request.find_paths "a" "b" 2

answer-Outcome_example :
    Outcome paths_request engine
      (answer [] paths_request engine).0
      (answer [] paths_request engine).1
answer-Outcome_example =
    answer-Outcome [] paths_request engine (run-IsSound calls nobody nobody-IsSound)
