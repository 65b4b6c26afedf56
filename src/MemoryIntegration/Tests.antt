-- ===== src/MemoryIntegration/Tests.antt =====
-- One memory and an empty graph, and the theorems at them.
use argus_os.Prelude.{ℕ, String, ◌≡◌, refl, false, none, some, [], ◌∷◌, string_eq, is_empty}
use argus_os.Prelude.Dict.{lookup}
use argus_os.Lifecycle.{LifecycleState}
use argus_os.Memory.{elements, mapping, MemoryRecord, live_record, is_expired}
use argus_os.Graph.{KnowledgeGraph}
use argus_os.Graph.Integrity.{IsConsistent}
use argus_os.MemoryIntegration.{MemoryIntegration, synchronize_memory}
use argus_os.MemoryIntegration.Bridged.{Synchronized, synchronize_memory-Synchronized}
use argus_os.MemoryIntegration.Handled.{Handled}
use argus_os.MemoryIntegration.Requests.{Request, perform, perform-Handled}

-- It names itself and a memory that is not there.
abbrev home : MemoryRecord
home = record {
  key = "home";
  value = mapping (elements (some "home" ∷ none ∷ some "work" ∷ [])) [];
  id = "m1";
  expires_at = none;
  version = 1;
}

abbrev no_graph : KnowledgeGraph
no_graph = record {
  state = LifecycleState.created;
  entities = [];
  relationships = [];
  published = [];
}

no_graph-IsConsistent : IsConsistent no_graph
unfolding lookup
no_graph-IsConsistent = record {
  source = λ k r h. absurd h;
  target = λ k r h. absurd h;
  entity_id = λ k e h. cc;
  relationship_id = λ k r h. absurd h;
  unique = tt;
}

abbrev bridge : MemoryIntegration
bridge = record {
  state = LifecycleState.running;
  memory = record { index = ("home", home) ∷ []; saved = home ∷ []; published = [] };
  graph = no_graph;
  synchronized = [];
  failed = [];
  published = [];
}

abbrev new_id : ℕ → String
new_id n = "r"

key_given : is_empty "home" ≡ false
unfolding is_empty
key_given = refl

home-live : live_record 5 "home" bridge.memory.index ≡ some home
unfolding live_record lookup is_expired
home-live = refl

synchronize_memory-Synchronized_example :
    Synchronized 5 new_id "home" bridge home no_graph-IsConsistent refl key_given home-live
      key_given
      (synchronize_memory 5 new_id "home" bridge)
synchronize_memory-Synchronized_example =
    synchronize_memory-Synchronized 5 new_id "home" bridge home no_graph-IsConsistent refl key_given
      home-live key_given

perform-Handled_example :
    Handled (perform (Request.synchronize_all (λ key. 5) (λ key. new_id) 4)) bridge
perform-Handled_example =
    perform-Handled (Request.synchronize_all (λ key. 5) (λ key. new_id) 4) bridge
      (no_graph-IsConsistent, refl)
