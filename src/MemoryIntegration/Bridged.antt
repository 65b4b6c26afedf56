-- ===== src/MemoryIntegration/Bridged.antt =====
-- argus/memory_integration/integration.py over argus/memory/memory_service.py and
-- argus/knowledge_graph/graph.py: what the calls leave in the graph and in the bookkeeping.
use argus_os.Prelude.{
  ℕ, String, ◌≡◌, refl, ap, ◌∙◌, false, some, List, [], ◌∷◌, Result, ok, err, arith, is_empty,
  string_eq, ◌==◌, if◌then◌else◌,
}
use argus_os.Prelude.Dict.{lookup, insert, erase, lookup-insert}
use argus_os.Lifecycle.{LifecycleState}
use argus_os.Memory.{MemoryRecord, live_record, get}
use argus_os.Graph.{Entity, Relationship, KnowledgeGraph, GraphError}
use argus_os.Graph
use argus_os.Graph.Integrity.{
  IsConsistent, Call, run, run-IsConsistent, call, add_relationship_entities,
}
use argus_os.MemoryIntegration.Mapper.{entity_id, memory_to_entity, memory_to_relationship}
use argus_os.MemoryIntegration.{
  MemoryIntegration, IntegrationError, note_relationship, add_relationships, replace_entity,
  require_memory_record, synchronize_memory, publish,
}
use argus_os.MemoryIntegration.Replaced.{
  entity_id-not_empty, cleared, cleared_others, cleared-IsConsistent, replaced, replaced_entities,
  replace_entity-IsReplaced,
}

note_relationship_keeps :
    (key : String) (r : Relationship) (x : Result GraphError Unit) (m : MemoryIntegration)
    → note_relationship key r x m
      ≡ (ok tt, record m { published = (note_relationship key r x m).1.published })
unfolding note_relationship publish
note_relationship_keeps key r (ok u) m = refl
note_relationship_keeps key r (err e) m = refl

-- What adding relationships leaves as it is.
abbrev Kept : MemoryIntegration → MemoryIntegration → Type 0
Kept m t =
    (t.graph.entities ≡ m.graph.entities)
    × (t.synchronized ≡ m.synchronized)
    × (t.failed ≡ m.failed)
    × (t.memory ≡ m.memory)
    × (t.state ≡ m.state)

-- The integration after one relationship.
abbrev tried : String → Relationship → MemoryIntegration → MemoryIntegration
tried key r m =
    let g = (Graph.add_relationship r m.graph).1 in
    record m {
      graph = g;
      published =
          (note_relationship key r (Graph.add_relationship r m.graph).0
            (record m { graph = g })).1.published;
    }

add_relationships-step :
    (key : String) (r : Relationship) (rs : List Relationship) (m : MemoryIntegration)
    → add_relationships key (r ∷ rs) m ≡ add_relationships key rs (tried key r m)
unfolding add_relationships
add_relationships-step key r rs m =
    let g = (Graph.add_relationship r m.graph).1 in
    ground (
      arith,
      note_relationship_keeps key r (Graph.add_relationship r m.graph).0 (record m { graph = g }),
    )

add_relationships-none :
    (key : String) (m : MemoryIntegration) → add_relationships key [] m ≡ (ok tt, m)
unfolding add_relationships
add_relationships-none key m = refl

add_relationships-Kept :
    (key : String) (rs : List Relationship) (m : MemoryIntegration)
    → IsConsistent m.graph
    → ((add_relationships key rs m).0 ≡ ok tt)
      × (IsConsistent (add_relationships key rs m).1.graph × Kept m (add_relationships key rs m).1)
unfolding run call
add_relationships-Kept key [] m c =
    rw (add_relationships-none key m) (refl, (c, (refl, refl, refl, refl, refl)))
add_relationships-Kept key (r ∷ rs) m c =
    let (done, (consistent, kept)) =
      add_relationships-Kept key rs (tried key r m)
        (run-IsConsistent (Call.add_relationship r ∷ []) m.graph c) in
    rw (add_relationships-step key r rs m) (
      done,
      (consistent, (kept.0 ∙ add_relationship_entities r m.graph, kept.1, kept.2, kept.3, kept.4)),
    )

replaced-IsConsistent :
    (key : String) (r : MemoryRecord) (m : MemoryIntegration)
    → IsConsistent m.graph
    → IsConsistent (replaced key r m)
unfolding run call
replaced-IsConsistent key r m c =
    run-IsConsistent (Call.add_entity (memory_to_entity r) ∷ []) (cleared m.graph (entity_id r.key))
      (cleared-IsConsistent m.graph (entity_id r.key) c)

module _ (now : ℕ) (new_id : ℕ → String) (key : String) (m : MemoryIntegration) (r : MemoryRecord)
    (c : IsConsistent m.graph) (is_running : m.state ≡ LifecycleState.running)
    (given : is_empty key ≡ false) (live : live_record now key m.memory.index ≡ some r)
    (named : is_empty r.key ≡ false) where
  abbrev linked : MemoryIntegration
  linked = (add_relationships key (memory_to_relationship new_id r) (replace_entity key r m).1).1

  synchronize_memory-eq : synchronize_memory now new_id key m ≡ (ok (entity_id r.key), linked)
  unfolding synchronize_memory require_memory_record get memory_to_entity
  synchronize_memory-eq =
      let (res, rep) = replace_entity-IsReplaced key r m c named in
      let kept =
        add_relationships-Kept key (memory_to_relationship new_id r) (replace_entity key r m).1
          (rw (rep.0) (replaced-IsConsistent key r m c)) in
      ground (arith, is_running, given, live, named, res, kept.0)

  -- What a synchronization leaves: the entity of the record in the graph, every other entity as it
  -- was, and the bookkeeping.
  abbrev pub Synchronized : Result IntegrationError String × MemoryIntegration → Type 0
  Synchronized x =
      (x.0 ≡ ok (entity_id r.key))
      × IsConsistent x.1.graph
      × ((k : String)
          → lookup k x.1.graph.entities ≡ (
              if entity_id r.key == k
              then some (memory_to_entity r)
              else lookup k m.graph.entities))
      × (x.1.synchronized ≡ insert key (entity_id r.key) m.synchronized)
      × (x.1.failed ≡ erase key m.failed)
      × (x.1.memory ≡ m.memory)
      × (x.1.state ≡ m.state)

  -- A running integration, a key with a record that has not expired, and a consistent graph: the
  -- call answers the id of the memory's entity, and puts the entity of the record there in place of
  -- an older one; every other entity stays as it is, the graph stays consistent whatever becomes of
  -- the relationships, and the key is noted as synchronized and not as failed.
  pub synchronize_memory-Synchronized : Synchronized (synchronize_memory now new_id key m)
  synchronize_memory-Synchronized =
      let (res, rep) = replace_entity-IsReplaced key r m c named in
      let (done, (consistent, kept)) =
        add_relationships-Kept key (memory_to_relationship new_id r) (replace_entity key r m).1
          (rw (rep.0) (replaced-IsConsistent key r m c)) in
      let entities =
        kept.0
        ∙ ap (λ (g : KnowledgeGraph). g.entities) rep.0
        ∙ (replaced_entities key r m named).1 in
      rw synchronize_memory-eq (
        refl,
        consistent,
        λ k.
            ap (lookup k) entities
            ∙ ground (
              arith,
              lookup-insert (entity_id r.key) k (memory_to_entity r)
                  (cleared m.graph (entity_id r.key)).entities,
              cleared_others m.graph (entity_id r.key) k (entity_id-not_empty r.key),
            ),
        kept.1 ∙ rep.1,
        kept.2 ∙ rep.2,
        kept.3 ∙ rep.3,
        kept.4 ∙ rep.4,
      )
