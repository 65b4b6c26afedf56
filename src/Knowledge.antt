-- ===== src/Knowledge.antt =====
-- argus/knowledge/knowledge_service.py, knowledge_record.py: KnowledgeService. The storage behind it
-- is an interface: the records of each category, which `save` replaces, and a test that says which
-- writes it refuses. The arguments have the classes that their annotations say. The lock is left
-- out, since each method runs alone. A reading of the clock is an argument.
pub mod Saved
mod Tests
use argus_os.Prelude.{
  ℕ, ◌+◌, String, Bool, true, false, not, Option, none, some, List, [], ◌∷◌, Exec, pure, raise,
  gets, modify, guard, or_raise, ◌>>=◌, ◌>>◌, is_empty, string_eq, ◌==◌,
}
use argus_os.Prelude.Lists.{select}
use argus_os.Prelude.Dict.{Dict, lookup, insert, erase, contains, values}
use argus_os.Events.{EventType, Event, Value, text, number}

pub record KnowledgeRecord : Type 0 where
  pub category : String
  pub key : String
  pub value : Value
  pub id : String
  pub created_at : ℕ
  pub updated_at : ℕ
  pub version : ℕ

-- `saved` is what the storage holds.
pub record KnowledgeService : Type 0 where
  pub index : Dict String KnowledgeRecord
  pub saved : Dict String (List KnowledgeRecord)
  pub published : List Event

pub data KnowledgeError : Type 0 where
  knowledge_error duplicate_knowledge knowledge_not_found : KnowledgeError

abbrev pub Method : Type 0 → Type 0
Method A = Exec KnowledgeError KnowledgeService A

unfoldable load_records :
    List KnowledgeRecord → Dict String KnowledgeRecord → Dict String KnowledgeRecord
load_records [] d = d
load_records (r ∷ rs) d = load_records rs (insert r.key r d)

-- The categories and the records of each, in the order in which the storage lists them.
load_all :
    Dict String (List KnowledgeRecord) → Dict String KnowledgeRecord → Dict String KnowledgeRecord
unfolding load_records
load_all [] d = d
load_all ((category, records) ∷ rest) d = load_all rest (load_records records d)

unfoldable pub publish : EventType → KnowledgeRecord → Method Unit
publish type r = modify (λ s. record s {
  published =
      record {
        type = type;
        source = "knowledge_service";
        payload =
            ("key", text r.key)
            ∷ ("category", text r.category)
            ∷ ("version", number r.version)
            ∷ [];
      }
      ∷ s.published;
})

unfoldable pub get : String → Method KnowledgeRecord
get key = do found ← gets (λ s. lookup key s.index); or_raise found knowledge_not_found

has_knowledge : String → KnowledgeService → Bool
has_knowledge key s = contains key s.index

abbrev pub is_of : (category : String) → KnowledgeRecord → Bool
is_of category r = r.category == category

list_records : Option String → KnowledgeService → List KnowledgeRecord
list_records none s = values s.index
list_records (some category) s = select (is_of category) (values s.index)

module _ (can_save : (category : String) → List KnowledgeRecord → Bool) where
  unfoldable pub persist_category : String → Method Unit
  persist_category category = do
    records ← gets (λ s. select (is_of category) (values s.index))
    guard (can_save category records) knowledge_error
    modify (λ s. record s { saved = insert category records s.saved })

  unfoldable pub put : KnowledgeRecord → Method Unit
  unfolding persist_category publish
  put r = do
    guard (not (is_empty r.key)) knowledge_error
    guard (not (is_empty r.category)) knowledge_error
    taken ← gets (λ s. contains r.key s.index)
    guard (not taken) duplicate_knowledge
    modify (λ s. record s { index = insert r.key r s.index })
    persist_category r.category
    publish EventType.knowledge_created r

  unfoldable pub delete : String → Method Unit
  unfolding get persist_category publish
  delete key = do
    r ← get key
    modify (λ s. record s { index = erase key s.index })
    persist_category r.category
    publish EventType.knowledge_deleted r

  unfoldable pub update : String → Value → (now : ℕ) → Method KnowledgeRecord
  unfolding get persist_category publish
  update key value now = do
    existing ← get key
    let updated : KnowledgeRecord = record existing {
      value = value;
      updated_at = now;
      version = existing.version + 1;
    }
    modify (λ s. record s { index = insert key updated s.index })
    persist_category updated.category
    publish EventType.knowledge_updated updated
    pure updated
