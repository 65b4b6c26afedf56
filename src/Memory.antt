-- ===== src/Memory.antt =====
-- argus/memory/memory_service.py, memory_record.py: MemoryService. The storage behind it is an
-- interface: a list of records that `save` replaces, and a test that says which lists it refuses.
-- The arguments have the classes that their annotations say. A reading of the clock and `lower` are
-- arguments. A lock is left out, since each method runs alone, and so are the times of a record but
-- for its expiry.
pub mod Stored
mod Tests
use argus_os.Prelude.{
  ℕ, ◌+◌, String, Bool, true, false, not, Option, none, some, List, [], ◌∷◌, Exec, pure, raise,
  gets, modify, guard, or_raise, ◌>>=◌, ◌>>◌, is_some, is_empty, string_eq, ◌==◌, if◌then◌else◌,
  leb,
}
use argus_os.Prelude.Lists.{length, select}
use argus_os.Prelude.Dict.{Dict, lookup, insert, erase, contains, values}
use argus_os.Events.{EventType, Event, Payload, Value, text, number}

-- What a Mapping has under `related_keys`: nothing, a text, something that cannot be iterated, or
-- elements, `none` for one that is no string.
pub data RelatedKeys : Type 0 where
  missing : RelatedKeys
  one_text : String → RelatedKeys
  no_iterable : RelatedKeys
  elements : List (Option String) → RelatedKeys

-- The value of a memory: no Mapping, or one, of which only `related_keys` is read.
pub data MemoryValue : Type 0 where
  plain : Value → MemoryValue
  mapping : RelatedKeys → Payload → MemoryValue

pub record MemoryRecord : Type 0 where
  pub key : String
  pub value : MemoryValue
  pub id : String
  pub expires_at : Option ℕ
  pub version : ℕ

unfoldable pub is_expired : (now : ℕ) → MemoryRecord → Bool
is_expired now r = elim r.expires_at [ none ↦ false | some t ↦ leb t now ]

-- `saved` is what the storage holds.
pub record MemoryService : Type 0 where
  pub index : Dict String MemoryRecord
  pub saved : List MemoryRecord
  pub published : List Event

pub data MemoryError : Type 0 where
  memory_service_error duplicate_memory memory_not_found : MemoryError

abbrev pub Method : Type 0 → Type 0
Method A = Exec MemoryError MemoryService A

-- `for record in self._storage.load(): self._index[record.key] = record`
unfoldable pub load_all : List MemoryRecord → Dict String MemoryRecord → Dict String MemoryRecord
load_all [] d = d
load_all (r ∷ rs) d = load_all rs (insert r.key r d)

unfoldable pub publish : (operation : String) → MemoryRecord → Method Unit
publish operation r = modify (λ s. record s {
  published =
      record {
        type = EventType.memory_updated;
        source = "memory_service";
        payload =
            ("operation", text operation)
            ∷ ("key", text r.key)
            ∷ ("version", number r.version)
            ∷ [];
      }
      ∷ s.published;
})

unfoldable pub live_record : (now : ℕ) → String → Dict String MemoryRecord → Option MemoryRecord
unfolding is_expired
live_record now key d = elim (lookup key d) [
  | none ↦ none
  | some r ↦ if is_expired now r then none else some r
]

unfoldable pub get : (now : ℕ) → String → Method MemoryRecord
unfolding live_record
get now key = do found ← gets (λ s. live_record now key s.index); or_raise found memory_not_found

has_memory : (now : ℕ) → String → MemoryService → Bool
has_memory now key s = is_some (live_record now key s.index)

unfoldable pub list_live : (now : ℕ) → MemoryService → List MemoryRecord
unfolding is_expired
list_live now s = select (λ r. not (is_expired now r)) (values s.index)

-- `query.lower() in record.key.lower()`, where `is_within` says what is a part of a text.
search :
    (lower : String → String) (is_within : String → String → Bool) (query : String) (now : ℕ)
    → MemoryService
    → List MemoryRecord
search lower is_within query now s =
    select (λ r. is_within (lower query) (lower r.key)) (list_live now s)

-- The keys of the records that have expired.
unfoldable pub expired_keys : (now : ℕ) → Dict String MemoryRecord → List String
unfolding is_expired
expired_keys now [] = []
expired_keys now ((k, r) ∷ d) =
    let rest = expired_keys now d in if is_expired now r then k ∷ rest else rest

unfoldable pub expired_records : (now : ℕ) → Dict String MemoryRecord → List MemoryRecord
unfolding is_expired
expired_records now [] = []
expired_records now ((k, r) ∷ d) =
    let rest = expired_records now d in if is_expired now r then r ∷ rest else rest

unfoldable pub erase_all : List String → Dict String MemoryRecord → Dict String MemoryRecord
erase_all [] d = d
erase_all (k ∷ ks) d = erase_all ks (erase k d)

unfoldable pub publish_all : List MemoryRecord → Method Unit
unfolding publish
publish_all [] = pure tt
publish_all (r ∷ rs) = do publish "purged" r; publish_all rs

abbrev is_nil : List String → Bool
is_nil [] = true
is_nil (k ∷ ks) = false

module _ (can_save : List MemoryRecord → Bool) where
  unfoldable pub persist : Method Unit
  persist = do
    records ← gets (λ s. values s.index)
    guard (can_save records) memory_service_error
    modify (λ s. record s { saved = records })

  unfoldable pub put : MemoryRecord → Method Unit
  unfolding persist publish
  put r = do
    guard (not (is_empty r.key)) memory_service_error
    taken ← gets (λ s. contains r.key s.index)
    guard (not taken) duplicate_memory
    modify (λ s. record s { index = insert r.key r s.index })
    persist
    publish "created" r

  unfoldable pub delete : (now : ℕ) → String → Method Unit
  unfolding get persist publish
  delete now key = do
    r ← get now key
    modify (λ s. record s { index = erase key s.index })
    persist
    publish "deleted" r

  unfoldable pub update : (now : ℕ) → String → MemoryValue → Method MemoryRecord
  unfolding get persist publish
  update now key value = do
    r ← get now key
    let updated : MemoryRecord = record r { value = value; version = r.version + 1 }
    modify (λ s. record s { index = insert key updated s.index })
    persist
    publish "updated" updated
    pure updated

  unfoldable pub purge_expired : (now : ℕ) → Method ℕ
  unfolding expired_keys expired_records erase_all persist publish_all
  purge_expired now = do
    keys ← gets (λ s. expired_keys now s.index)
    records ← gets (λ s. expired_records now s.index)
    modify (λ s. record s { index = erase_all keys s.index })
    if is_nil keys then pure tt else persist
    publish_all records
    pure (length records)
