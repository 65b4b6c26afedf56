-- ===== src/Graph/Integrity.antt =====
-- Every method of KnowledgeGraph (argus/knowledge_graph/graph.py) keeps the references valid.
use argus_os.Prelude.{
  String, ◌≡◌, refl, true, false, some, List, [], ◌∷◌, arith, string_eq, eq_iff, ◌==◌,
}
use argus_os.Prelude.Lists.{is_in}
use argus_os.Prelude.Dict.{Dict, lookup, erase, contains, lookup-insert, lookup-erase}
use argus_os.Prelude.Entries.{
  Has, Has-insert, Has-erase, UniqueKeys, UniqueKeys-insert, UniqueKeys-erase,
}
use argus_os.Graph.{Entity, Relationship, KnowledgeGraph, touches, stale_ids, erase_all}
use argus_os.Graph

-- The deletion of the relationships that touch an entity.
Has-erase_all :
    (ks : List String) (k : String) (r : Relationship) (rs : Dict String Relationship)
    → Has k r (erase_all ks rs)
    → (is_in k ks ≡ false) × Has k r rs
unfolding erase_all is_in
Has-erase_all [] k r rs h = (refl, h)
Has-erase_all (j ∷ ks) k r rs h =
    ground (arith, Has-erase_all ks k r (erase j rs), Has-erase j k r rs, eq_iff j k, eq_iff k j)

is_in-stale_ids :
    (id k : String) (r : Relationship) (rs : Dict String Relationship)
    → Has k r rs
    → touches id r ≡ true
    → is_in k (stale_ids id rs) ≡ true
unfolding stale_ids is_in
is_in-stale_ids id k r [] h t = absurd h
is_in-stale_ids id k r ((j, s) ∷ rs) h t = ground (arith, is_in-stale_ids id k r rs, eq_iff j k)

pub Has-erase_stale :
    (id k : String) (r : Relationship) (rs : Dict String Relationship)
    → Has k r (erase_all (stale_ids id rs) rs)
    → (touches id r ≡ false) × Has k r rs
Has-erase_stale id k r rs h =
    ground (arith, Has-erase_all (stale_ids id rs) k r rs h, is_in-stale_ids id k r rs)

touches_not :
    (id : String) (r : Relationship)
    → touches id r ≡ false
    → ((id == r.source_entity_id) ≡ false) × ((id == r.target_entity_id) ≡ false)
unfolding touches
touches_not id r h = ground (
  arith,
  eq_iff r.source_entity_id id,
  eq_iff id r.source_entity_id,
  eq_iff r.target_entity_id id,
  eq_iff id r.target_entity_id,
)

UniqueKeys-erase_all :
    (ks : List String) (rs : Dict String Relationship)
    → UniqueKeys rs
    → UniqueKeys (erase_all ks rs)
unfolding erase_all
UniqueKeys-erase_all [] rs u = u
UniqueKeys-erase_all (k ∷ ks) rs u = UniqueKeys-erase_all ks (erase k rs) (UniqueKeys-erase k rs u)

-- Both ends of every relationship exist, and each object is stored under its own id.
pub record IsConsistent (g : KnowledgeGraph) : Type 0 where
  pub source :
      (k : String) (r : Relationship)
      → Has k r g.relationships
      → contains r.source_entity_id g.entities ≡ true
  pub target :
      (k : String) (r : Relationship)
      → Has k r g.relationships
      → contains r.target_entity_id g.entities ≡ true
  pub entity_id : (k : String) (e : Entity) → lookup k g.entities ≡ some e → e.id ≡ k
  pub relationship_id : (k : String) (r : Relationship) → Has k r g.relationships → r.id ≡ k
  pub unique : UniqueKeys g.relationships

add_entity-IsConsistent :
    (e : Entity) (g : KnowledgeGraph) → IsConsistent g → IsConsistent (Graph.add_entity e g).1
unfolding Graph.add_entity
add_entity-IsConsistent e g c = record {
  source =
      λ k r h. ground (arith, c.source k r, lookup-insert e.id r.source_entity_id e g.entities);
  target =
      λ k r h. ground (arith, c.target k r, lookup-insert e.id r.target_entity_id e g.entities);
  entity_id =
      λ k x h. ground (arith, c.entity_id k x, lookup-insert e.id k e g.entities, eq_iff e.id k);
  relationship_id = λ k r h. ground (arith, c.relationship_id k r);
  unique = ground (arith, c.unique);
}

add_relationship-IsConsistent :
    (r : Relationship) (g : KnowledgeGraph)
    → IsConsistent g
    → IsConsistent (Graph.add_relationship r g).1
unfolding Graph.add_relationship
add_relationship-IsConsistent r g c = record {
  source = λ k x h. ground (arith, c.source k x, Has-insert r.id r k x g.relationships);
  target = λ k x h. ground (arith, c.target k x, Has-insert r.id r k x g.relationships);
  entity_id = λ k x h. ground (arith, c.entity_id k x);
  relationship_id =
      λ k x h. ground (arith, c.relationship_id k x, Has-insert r.id r k x g.relationships);
  unique = ground (arith, UniqueKeys-insert r.id r g.relationships c.unique);
}

remove_relationship-IsConsistent :
    (id : String) (g : KnowledgeGraph)
    → IsConsistent g
    → IsConsistent (Graph.remove_relationship id g).1
unfolding Graph.remove_relationship
remove_relationship-IsConsistent id g c = record {
  source = λ k x h. ground (arith, c.source k x, Has-erase id k x g.relationships);
  target = λ k x h. ground (arith, c.target k x, Has-erase id k x g.relationships);
  entity_id = λ k x h. ground (arith, c.entity_id k x);
  relationship_id =
      λ k x h. ground (arith, c.relationship_id k x, Has-erase id k x g.relationships);
  unique = ground (arith, UniqueKeys-erase id g.relationships c.unique);
}

remove_entity-IsConsistent :
    (id : String) (g : KnowledgeGraph) → IsConsistent g → IsConsistent (Graph.remove_entity id g).1
unfolding Graph.remove_entity
remove_entity-IsConsistent id g c = record {
  source = λ k x h. ground (
    arith,
    c.source k x,
    Has-erase_stale id k x g.relationships,
    touches_not id x,
    lookup-erase id x.source_entity_id g.entities,
  );
  target = λ k x h. ground (
    arith,
    c.target k x,
    Has-erase_stale id k x g.relationships,
    touches_not id x,
    lookup-erase id x.target_entity_id g.entities,
  );
  entity_id = λ k x h. ground (arith, c.entity_id k x, lookup-erase id k g.entities);
  relationship_id =
      λ k x h. ground (arith, c.relationship_id k x, Has-erase_stale id k x g.relationships);
  unique = ground (
    arith,
    UniqueKeys-erase_all (stale_ids id g.relationships) g.relationships c.unique,
    c.unique,
  );
}

pub add_relationship_entities :
    (r : Relationship) (g : KnowledgeGraph) → (Graph.add_relationship r g).1.entities ≡ g.entities
unfolding Graph.add_relationship
add_relationship_entities r g = ground arith

-- The calls that change a graph, but for its lifecycle.
pub data Call : Type 0 where
  add_entity : Entity → Call
  remove_entity : String → Call
  add_relationship : Relationship → Call
  remove_relationship : String → Call

unfoldable pub call : Call → KnowledgeGraph → KnowledgeGraph
call (Call.add_entity e) g = (Graph.add_entity e g).1
call (Call.remove_entity id) g = (Graph.remove_entity id g).1
call (Call.add_relationship r) g = (Graph.add_relationship r g).1
call (Call.remove_relationship id) g = (Graph.remove_relationship id g).1

unfoldable pub run : List Call → KnowledgeGraph → KnowledgeGraph
run [] g = g
run (c ∷ cs) g = run cs (call c g)

call-IsConsistent : (c : Call) (g : KnowledgeGraph) → IsConsistent g → IsConsistent (call c g)
unfolding call
call-IsConsistent (Call.add_entity e) g h = add_entity-IsConsistent e g h
call-IsConsistent (Call.remove_entity id) g h = remove_entity-IsConsistent id g h
call-IsConsistent (Call.add_relationship r) g h = add_relationship-IsConsistent r g h
call-IsConsistent (Call.remove_relationship id) g h = remove_relationship-IsConsistent id g h

-- After any calls, refused or not, on a consistent graph: both ends of every relationship exist,
-- each object is stored under its own id, and no relationship id is listed twice.
pub run-IsConsistent :
    (cs : List Call) (g : KnowledgeGraph) → IsConsistent g → IsConsistent (run cs g)
unfolding run
run-IsConsistent [] g h = h
run-IsConsistent (c ∷ cs) g h = run-IsConsistent cs (call c g) (call-IsConsistent c g h)
