-- ===== src/Graph/Tests.antt =====
-- A small graph, and the theorems at it.
use argus_os.Prelude.{
  String, ◌≡◌, refl, none, List, [], ◌∷◌, ok, inl, inr, eq_iff, string_eq, arith, is_empty, ◌==◌,
  if◌then◌else◌,
}
use argus_os.Prelude.Lists.{is_in, NoDup}
use argus_os.Prelude.Dict.{lookup}
use argus_os.Lifecycle.{LifecycleState}
use argus_os.Graph.{Entity, Relationship, KnowledgeGraph, neighbors, remove_entity}
use argus_os.Graph.Integrity.{IsConsistent, Call, run, run-IsConsistent}
use argus_os.Graph.Removal.{unless_touching, remove_entity_lem}
use argus_os.Graph.Neighbors.{ids, some_joins, neighbors_lem}

abbrev ann : Entity
ann = record { id = "a"; entity_type = "person"; name = "Ann"; attributes = [] }

abbrev acme : Entity
acme = record { id = "c"; entity_type = "company"; name = "Acme"; attributes = [] }

abbrev works_at : Relationship
works_at = record {
  id = "r";
  source_entity_id = "a";
  target_entity_id = "c";
  relationship_type = "works_at";
  attributes = [];
}

abbrev no_graph : KnowledgeGraph
no_graph = record {
  state = LifecycleState.created;
  entities = [];
  relationships = [];
  published = [];
}

no_graph-IsConsistent : IsConsistent no_graph
unfolding lookup
no_graph-IsConsistent = record {
  source = λ k r h. absurd h;
  target = λ k r h. absurd h;
  entity_id = λ k e h. cc;
  relationship_id = λ k r h. absurd h;
  unique = tt;
}

-- The first relationship is refused: its target is not there yet.
abbrev calls : List Call
calls =
    Call.add_entity ann
    ∷ Call.add_relationship works_at
    ∷ Call.add_entity acme
    ∷ Call.add_relationship works_at
    ∷ []

run-IsConsistent_example : IsConsistent (run calls no_graph)
run-IsConsistent_example = run-IsConsistent calls no_graph no_graph-IsConsistent

abbrev two_entities : KnowledgeGraph
two_entities = record no_graph {
  entities = ("a", ann) ∷ ("c", acme) ∷ [];
  relationships = ("r", works_at) ∷ [];
}

two_entities-IsConsistent : IsConsistent two_entities
unfolding lookup
two_entities-IsConsistent = record {
  source = λ k r h. elim h [ inl p ↦ rw (← p.1) | inr q ↦ absurd q ];
  target = λ k r h. elim h [ inl p ↦ rw (← p.1) | inr q ↦ absurd q ];
  entity_id = λ k e h. ground (arith, eq_iff "a" k, eq_iff "c" k);
  relationship_id = λ k r h. elim h [ inl p ↦ rw (← p.1) p.0 | inr q ↦ absurd q ];
  unique = (refl, tt);
}

remove_entity_lem_example :
    ((remove_entity "c" two_entities).0 ≡ ok tt)
    × ((k : String)
        → lookup k (remove_entity "c" two_entities).1.entities
          ≡ (if "c" == k then none else lookup k two_entities.entities))
    × ((k : String)
        → lookup k (remove_entity "c" two_entities).1.relationships
          ≡ unless_touching "c" (lookup k two_entities.relationships))
unfolding is_empty lookup
remove_entity_lem_example =
    remove_entity_lem "c" acme two_entities two_entities-IsConsistent refl refl

neighbors_lem_example :
    (es : List Entity) × (neighbors "a" two_entities ≡ (ok es, two_entities))
    × NoDup (ids es)
    × ((y : String) → is_in y (ids es) ≡ some_joins two_entities.relationships "a" y)
unfolding is_empty lookup
neighbors_lem_example = neighbors_lem two_entities two_entities-IsConsistent "a" ann refl refl
