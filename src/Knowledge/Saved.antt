-- ===== src/Knowledge/Saved.antt =====
-- argus/knowledge/knowledge_service.py: the storage and the index.
use argus_os.Prelude.{
  ℕ, ◌+◌, String, Bool, ◌≡◌, refl, true, false, none, some, List, [], ◌∷◌, arith, inl, inr,
  string_eq, eq_iff, Option-cases,
}
use argus_os.Prelude.Lists.{select}
use argus_os.Prelude.Dict.{Dict, lookup, insert, erase, values, lookup-insert}
use argus_os.Prelude.Entries.{UniqueKeys, UniqueKeys-insert, UniqueKeys-erase}
use argus_os.Events.{Value}
use argus_os.Knowledge.{KnowledgeRecord, KnowledgeService, is_of, persist_category, publish, get}
use argus_os.Knowledge

abbrev pub of_category : (c : String) → Dict String KnowledgeRecord → List KnowledgeRecord
of_category c d = select (is_of c) (values d)

-- What the storage has for a category that it was never given is nothing.
abbrev pub stored : (c : String) → Dict String (List KnowledgeRecord) → List KnowledgeRecord
stored c saved = elim (lookup c saved) [ none ↦ [] | some records ↦ records ]

select-insert-new :
    (c k : String) (r : KnowledgeRecord) (d : Dict String KnowledgeRecord)
    → lookup k d ≡ none
    → is_of c r ≡ false
    → of_category c (insert k r d) ≡ of_category c d
unfolding lookup insert select
select-insert-new c k r [] h n = ground (arith, n)
select-insert-new c k r ((j, q) ∷ d) h n = ground (arith, n, select-insert-new c k r d)

select-insert-old :
    (c k : String) (r old : KnowledgeRecord) (d : Dict String KnowledgeRecord)
    → lookup k d ≡ some old
    → is_of c old ≡ false
    → is_of c r ≡ false
    → of_category c (insert k r d) ≡ of_category c d
unfolding lookup insert select
select-insert-old c k r old [] h o n = cc
select-insert-old c k r old ((j, q) ∷ d) h o n = ground (arith, o, n, select-insert-old c k r old d)

select-erase-absent :
    (c k : String) (d : Dict String KnowledgeRecord)
    → lookup k d ≡ none
    → of_category c (erase k d) ≡ of_category c d
unfolding lookup erase select
select-erase-absent c k [] h = refl
select-erase-absent c k ((j, q) ∷ d) h = ground (arith, select-erase-absent c k d)

select-erase :
    (c k : String) (old : KnowledgeRecord) (d : Dict String KnowledgeRecord)
    → UniqueKeys d
    → lookup k d ≡ some old
    → is_of c old ≡ false
    → of_category c (erase k d) ≡ of_category c d
unfolding lookup erase select
select-erase c k old [] u h o = cc
select-erase c k old ((j, q) ∷ d) u h o =
    ground (arith, eq_iff j k, u.0, o, select-erase c k old d u.1, select-erase-absent c k d)

-- The storage has, for every category, the records of the index that belong to it, in their order.
pub record IsSaved (s : KnowledgeService) : Type 0 where
  pub unique : UniqueKeys s.index
  pub saved : (c : String) → stored c s.saved ≡ of_category c s.index

module _ (can_save : (category : String) → List KnowledgeRecord → Bool) where
  pub data Call : Type 0 where
    put : KnowledgeRecord → Call
    delete : String → Call
    update : String → Value → (now : ℕ) → Call

  unfoldable pub call : Call → KnowledgeService → KnowledgeService
  call (Call.put r) s = (Knowledge.put can_save r s).1
  call (Call.delete key) s = (Knowledge.delete can_save key s).1
  call (Call.update key value now) s = (Knowledge.update can_save key value now s).1

  unfoldable pub run : List Call → KnowledgeService → KnowledgeService
  run [] s = s
  run (c ∷ cs) s = run cs (call c s)

  module _ (no_fault : (c : String) (rs : List KnowledgeRecord) → can_save c rs ≡ true) where
    put-IsSaved :
        (r : KnowledgeRecord) (s : KnowledgeService)
        → IsSaved s
        → IsSaved (Knowledge.put can_save r s).1
    unfolding Knowledge.put persist_category publish
    put-IsSaved r s h =
        let after = insert r.key r s.index in
        let full = no_fault r.category (of_category r.category after) in
        record {
          unique = ground (arith, full, h.unique, UniqueKeys-insert r.key r s.index);
          saved = λ c. ground (
            arith,
            full,
            h.saved c,
            eq_iff r.category c,
            lookup-insert r.category c (of_category r.category after) s.saved,
            select-insert-new c r.key r s.index,
          );
        }

    delete-IsSaved :
        (key : String) (s : KnowledgeService)
        → IsSaved s
        → IsSaved (Knowledge.delete can_save key s).1
    unfolding Knowledge.delete get persist_category publish
    delete-IsSaved key s h = elim (Option-cases (lookup key s.index)) [
      | inl gone ↦ record {
        unique = ground (arith, gone, h.unique);
        saved = λ c. ground (arith, gone, h.saved c);
      }
      | inr (r, found) ↦
          let after = erase key s.index in
          let full = no_fault r.category (of_category r.category after) in
          record {
            unique = ground (arith, found, full, UniqueKeys-erase key s.index h.unique);
            saved = λ c. ground (
              arith,
              found,
              full,
              h.saved c,
              eq_iff r.category c,
              lookup-insert r.category c (of_category r.category after) s.saved,
              select-erase c key r s.index h.unique found,
            );
          }
    ]

    update-IsSaved :
        (key : String) (value : Value) (now : ℕ) (s : KnowledgeService)
        → IsSaved s
        → IsSaved (Knowledge.update can_save key value now s).1
    unfolding Knowledge.update get persist_category publish
    update-IsSaved key value now s h = elim (Option-cases (lookup key s.index)) [
      | inl gone ↦ record {
        unique = ground (arith, gone, h.unique);
        saved = λ c. ground (arith, gone, h.saved c);
      }
      | inr (r, found) ↦
          let updated : KnowledgeRecord = record r {
            value = value;
            updated_at = now;
            version = r.version + 1;
          } in
          let after = insert key updated s.index in
          let full = no_fault r.category (of_category r.category after) in
          record {
            unique = ground (arith, found, full, UniqueKeys-insert key updated s.index h.unique);
            saved = λ c. ground (
              arith,
              found,
              full,
              h.saved c,
              eq_iff r.category c,
              lookup-insert r.category c (of_category r.category after) s.saved,
              select-insert-old c key updated r s.index found,
            );
          }
    ]

    -- Where no save fails, on a service whose storage agrees with its index: after any calls, refused
    -- or not, the storage has for every category exactly the records of the index that belong to it,
    -- in their order, and no key is there twice.
    pub run-IsSaved : (cs : List Call) (s : KnowledgeService) → IsSaved s → IsSaved (run cs s)
    unfolding run call
    run-IsSaved [] s h = h
    run-IsSaved (Call.put r ∷ cs) s h = run-IsSaved cs _ (put-IsSaved r s h)
    run-IsSaved (Call.delete key ∷ cs) s h = run-IsSaved cs _ (delete-IsSaved key s h)
    run-IsSaved (Call.update key value now ∷ cs) s h =
        run-IsSaved cs _ (update-IsSaved key value now s h)
