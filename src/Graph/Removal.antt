-- ===== src/Graph/Removal.antt =====
-- What `remove_entity` of argus/knowledge_graph/graph.py removes, and what it keeps.
use argus_os.Prelude.{
  String, ◌≡◌, refl, Bool, false, Option, none, some, List, [], ◌∷◌, ok, arith, if◌then◌else◌,
  is_empty, string_eq, eq_iff, ◌==◌, ◌||◌,
}
use argus_os.Prelude.Lists.{is_in}
use argus_os.Prelude.Dict.{Dict, lookup, erase, lookup-erase}
use argus_os.Prelude.Entries.{UniqueKeys}
use argus_os.Graph.{
  Entity, Relationship, KnowledgeGraph, remove_entity, touches, stale_ids, erase_all,
}
use argus_os.Graph.Integrity.{IsConsistent}

lookup-erase_all :
    (ks : List String) (k : String) (rs : Dict String Relationship)
    → lookup k (erase_all ks rs) ≡ (if is_in k ks then none else lookup k rs)
unfolding erase_all is_in
lookup-erase_all [] k rs = refl
lookup-erase_all (j ∷ ks) k rs =
    ground (arith, lookup-erase_all ks k (erase j rs), lookup-erase j k rs)

abbrev touched : String → Option Relationship → Bool
touched id none = false
touched id (some r) = touches id r

stale_ids-eq-touched :
    (id k : String) (rs : Dict String Relationship)
    → UniqueKeys rs
    → is_in k (stale_ids id rs) ≡ touched id (lookup k rs)
unfolding stale_ids is_in lookup
stale_ids-eq-touched id k [] u = refl
stale_ids-eq-touched id k ((j, r) ∷ rs) u =
    ground (arith, stale_ids-eq-touched id k rs u.1, eq_iff j k)

-- A relationship that is kept if the entity is neither its source nor its target.
abbrev pub unless_touching : String → Option Relationship → Option Relationship
unless_touching id none = none
unless_touching id (some r) =
    if r.source_entity_id == id || r.target_entity_id == id then none else some r

-- Removing, by a non-empty id, an entity that is in a consistent graph: the call returns, exactly
-- that entity is gone, and of the relationships exactly those of which it is the source or the
-- target.
pub remove_entity_lem :
    (id : String) (e : Entity) (g : KnowledgeGraph)
    → IsConsistent g
    → is_empty id ≡ false
    → lookup id g.entities ≡ some e
    → ((remove_entity id g).0 ≡ ok tt)
      × ((k : String)
          → lookup k (remove_entity id g).1.entities
            ≡ (if id == k then none else lookup k g.entities))
      × ((k : String)
          → lookup k (remove_entity id g).1.relationships
            ≡ unless_touching id (lookup k g.relationships))
unfolding remove_entity touches
remove_entity_lem id e g c named found = (
  ground arith,
  λ k. ground (arith, lookup-erase id k g.entities),
  λ k. ground (
    arith,
    lookup-erase_all (stale_ids id g.relationships) k g.relationships,
    stale_ids-eq-touched id k g.relationships c.unique,
  ),
)
