-- ===== src/MemoryIntegration/Replaced.antt =====
-- argus/memory_integration/integration.py over argus/knowledge_graph/graph.py: how the entity of a
-- memory is replaced.
use Prim.Native.Char.{Char}
use Prim.Native.String.{◌++◌ as str_append, ◌∷◌ as str_cons}
use Prim.Native.String.append
use argus_os.Prelude.{
  String, ◌≡◌, ◌≢◌, refl, sym, ◌∙◌, false, none, some, [], ◌∷◌, ok, err, arith, inl, inr, is_empty,
  string_eq, eq_iff, ◌==◌, Bool-cases, Option-cases,
}
use argus_os.Prelude.Dict.{lookup, insert, erase, lookup-erase}
use argus_os.Memory.{MemoryRecord}
use argus_os.Graph.{Entity, Relationship, KnowledgeGraph, GraphError}
use argus_os.Graph
use argus_os.Graph.Integrity.{IsConsistent, Call, run, run-IsConsistent, call}
use argus_os.MemoryIntegration.Mapper.{entity_id, memory_to_entity, update_entity}
use argus_os.MemoryIntegration.{
  MemoryIntegration, existing_of, final_entity, note_result, replace_entity, publish,
}

cons-not_empty : (c : Char) (s : String) → ◌≢◌ {A = String} (str_cons c s) ""
cons-not_empty c s e = cc e

pub entity_id-not_empty : (key : String) → is_empty (entity_id key) ≡ false
unfolding entity_id is_empty
entity_id-not_empty key =
    let p : str_append "memory:" key ≡ str_cons "m" (str_append "emory:" key) =
      λ i. append.cons "m" "emory:" key i in
    elim (Bool-cases (str_append "memory:" key == "")) [
      | inl e ↦ absurd (
          cons-not_empty "m" (str_append "emory:" key)
            (sym p ∙ (eq_iff (str_append "memory:" key) "").0 e))
      | inr e ↦ e
    ]

module _ (g : KnowledgeGraph) where
  get_entity-none :
      (k : String)
      → is_empty k ≡ false
      → lookup k g.entities ≡ none
      → Graph.get_entity k g ≡ (err GraphError.entity_not_found, g)
  unfolding Graph.get_entity Graph.require_entity
  get_entity-none k n h = ground (arith, n, h)

  get_entity-some :
      (k : String) (e : Entity)
      → is_empty k ≡ false
      → lookup k g.entities ≡ some e
      → Graph.get_entity k g ≡ (ok e, g)
  unfolding Graph.get_entity Graph.require_entity
  get_entity-some k e n h = ground (arith, n, h)

  remove_entity-some :
      (k : String) (e : Entity)
      → is_empty k ≡ false
      → lookup k g.entities ≡ some e
      → ((Graph.remove_entity k g).0 ≡ ok tt)
        × ((Graph.remove_entity k g).1.entities ≡ erase k g.entities)
  unfolding Graph.remove_entity Graph.require_entity
  remove_entity-some k e n h = ground (arith, n, h)

  add_entity-new :
      (e : Entity)
      → is_empty e.id ≡ false
      → is_empty e.entity_type ≡ false
      → is_empty e.name ≡ false
      → lookup e.id g.entities ≡ none
      → ((Graph.add_entity e g).0 ≡ ok tt)
        × ((Graph.add_entity e g).1.entities ≡ insert e.id e g.entities)
  unfolding Graph.add_entity
  add_entity-new e i t n h = ground (arith, i, t, n, h)

  -- The graph without the entity.
  abbrev pub cleared : String → KnowledgeGraph
  cleared k = elim (lookup k g.entities) [ none ↦ g | some e ↦ (Graph.remove_entity k g).1 ]

  pub cleared-none : (k : String) → is_empty k ≡ false → lookup k (cleared k).entities ≡ none
  cleared-none k n = elim (Option-cases (lookup k g.entities)) [
    | inl h ↦ rw (h, cleared) h
    | inr (e, h) ↦
        rw (h, cleared, (remove_entity-some k e n h).1, lookup-erase) (ground (arith, eq_iff k k))
  ]

  pub cleared_others :
      (k j : String)
      → is_empty k ≡ false
      → (k == j) ≡ false
      → lookup j (cleared k).entities ≡ lookup j g.entities
  cleared_others k j n apart = elim (Option-cases (lookup k g.entities)) [
    | inl h ↦ rw (h, cleared) refl
    | inr (e, h) ↦
        rw (h, cleared, (remove_entity-some k e n h).1, lookup-erase) (ground (arith, apart))
  ]

  pub cleared-IsConsistent : (k : String) → IsConsistent g → IsConsistent (cleared k)
  unfolding run call
  cleared-IsConsistent k c = elim (Option-cases (lookup k g.entities)) [
    | inl h ↦ rw (h, cleared) c
    | inr (e, h) ↦ rw (h, cleared) (run-IsConsistent (Call.remove_entity k ∷ []) g c)
  ]

module _ (key : String) (r : MemoryRecord) (m : MemoryIntegration) where
  abbrev pub id : String
  id = entity_id r.key

  -- The graph with the memory's entity in place of an older one.
  abbrev pub replaced : KnowledgeGraph
  replaced = (Graph.add_entity (memory_to_entity r) (cleared m.graph id)).1

  -- What `replace_entity` leaves.
  abbrev pub IsReplaced : MemoryIntegration → Type 0
  IsReplaced t =
      (t.graph ≡ replaced)
      × (t.synchronized ≡ insert key id m.synchronized)
      × (t.failed ≡ erase key m.failed)
      × (t.memory ≡ m.memory)
      × (t.state ≡ m.state)

  pub replaced_entities :
      is_empty r.key ≡ false
      → ((Graph.add_entity (memory_to_entity r) (cleared m.graph id)).0 ≡ ok tt)
        × (replaced.entities ≡ insert id (memory_to_entity r) (cleared m.graph id).entities)
  unfolding memory_to_entity is_empty
  replaced_entities n =
      add_entity-new (cleared m.graph id) (memory_to_entity r) (entity_id-not_empty r.key) refl n
        (cleared-none m.graph id (entity_id-not_empty r.key))

  pub replace_entity-IsReplaced :
      IsConsistent m.graph
      → is_empty r.key ≡ false
      → ((replace_entity key r m).0 ≡ ok (memory_to_entity r))
        × IsReplaced (replace_entity key r m).1
  unfolding replace_entity memory_to_entity existing_of final_entity update_entity note_result
      publish
  replace_entity-IsReplaced c n = elim (Option-cases (lookup id m.graph.entities)) [
    | inl gone ↦ ground (
      arith,
      gone,
      get_entity-none m.graph id (entity_id-not_empty r.key) gone,
      (replaced_entities n).0,
    )
    | inr (x, found) ↦ ground (
      arith,
      found,
      c.entity_id id x found,
      get_entity-some m.graph id x (entity_id-not_empty r.key) found,
      (remove_entity-some m.graph id x (entity_id-not_empty r.key) found).0,
      (replaced_entities n).0,
    )
  ]
