-- ===== src/MemoryIntegration/Mapper.antt =====
-- argus/memory_integration/mapper.py: MemoryMapper. The arguments have the classes that their
-- annotations say. Of an entity's attributes those are modelled that a value of the model can hold.
use Prim.Native.String.{◌++◌ as str_append}
use argus_os.Prelude.{ℕ, ◌+◌, String, Option, none, some, List, [], ◌∷◌, ◌++◌}
use argus_os.Events.{Payload, text, number}
use argus_os.Memory.{elements, MemoryValue, plain, mapping, MemoryRecord}
use argus_os.Graph.{Entity, Relationship}

unfoldable pub entity_id : String → String
entity_id key = str_append "memory:" key

unfoldable pub value_attribute : MemoryValue → Payload
value_attribute (plain v) = ("value", v) ∷ []
value_attribute (mapping keys items) = []

unfoldable pub attributes : MemoryRecord → Payload
unfolding value_attribute
attributes r =
    value_attribute r.value ++ ("memory_id", text r.id) ∷ ("version", number r.version) ∷ []

unfoldable pub memory_to_entity : MemoryRecord → Entity
unfolding entity_id attributes
memory_to_entity r = record {
  id = entity_id r.key;
  entity_type = "memory";
  name = r.key;
  attributes = attributes r;
}

unfoldable pub update_entity : Entity → MemoryRecord → Entity
unfolding attributes
update_entity existing r = record {
  id = existing.id;
  entity_type = "memory";
  name = r.key;
  attributes = attributes r;
}

-- The elements that are strings.
unfoldable pub texts_of : List (Option String) → List String
texts_of [] = []
texts_of (none ∷ xs) = texts_of xs
texts_of (some x ∷ xs) = x ∷ texts_of xs

unfoldable pub related_keys : MemoryValue → List String
unfolding texts_of
related_keys (mapping (elements xs) items) = texts_of xs
related_keys _ = []

-- The relationships to some keys, the first with the uuid at `n`.
unfoldable pub relationships_to :
    (new_id : ℕ → String) (key : String) → List String → (n : ℕ) → List Relationship
unfolding entity_id
relationships_to new_id key [] n = []
relationships_to new_id key (other ∷ others) n =
    record {
      id = new_id n;
      source_entity_id = entity_id key;
      target_entity_id = entity_id other;
      relationship_type = "related_to";
      attributes = ("source_key", text key) ∷ ("target_key", text other) ∷ [];
    }
    ∷ relationships_to new_id key others (n + 1)

unfoldable pub memory_to_relationship : (new_id : ℕ → String) → MemoryRecord → List Relationship
unfolding related_keys relationships_to
memory_to_relationship new_id r = relationships_to new_id r.key (related_keys r.value) 0
