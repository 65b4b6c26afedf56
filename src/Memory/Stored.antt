-- ===== src/Memory/Stored.antt =====
-- argus/memory/memory_service.py: the storage holds what the index has.
use mathlib.Core.List.{append_assoc, append-nil}
use argus_os.Prelude.{
  ◌⊎◌, ℕ, ◌+◌, ok, ◌++◌, String, Bool, ◌≡◌, refl, sym, ap, ◌∙◌, true, none, some, List, [], ◌∷◌,
  arith, inl, inr, string_eq, eq_iff, Option-cases,
}
use argus_os.Prelude.Dict.{Dict, lookup, insert, erase, values, lookup-insert}
use argus_os.Prelude.Entries.{
  Has, Has-lookup, Has-insert, Has-erase, UniqueKeys, UniqueKeys-insert, UniqueKeys-erase,
}
use argus_os.Memory.{
  MemoryValue, MemoryRecord, MemoryService, is_expired, live_record, get, expired_keys,
  expired_records, erase_all, publish_all, publish, load_all, persist,
}
use argus_os.Memory

-- Each record is stored under its own key, no key twice, and the storage holds them in order.
pub record IsStored (s : MemoryService) : Type 0 where
  pub own_key : (k : String) (r : MemoryRecord) → Has k r s.index → r.key ≡ k
  pub unique : UniqueKeys s.index
  pub saved : s.saved ≡ values s.index

live_record-lookup :
    (now : ℕ) (key : String) (r : MemoryRecord) (d : Dict String MemoryRecord)
    → live_record now key d ≡ some r
    → lookup key d ≡ some r
unfolding live_record
live_record-lookup now key r d h = ground (arith, h)

Has-erase_all :
    (ks : List String) (k : String) (r : MemoryRecord) (d : Dict String MemoryRecord)
    → Has k r (erase_all ks d)
    → Has k r d
unfolding erase_all
Has-erase_all [] k r d h = h
Has-erase_all (j ∷ ks) k r d h = (Has-erase j k r d (Has-erase_all ks k r (erase j d) h)).1

UniqueKeys-erase_all :
    (ks : List String) (d : Dict String MemoryRecord) → UniqueKeys d → UniqueKeys (erase_all ks d)
unfolding erase_all
UniqueKeys-erase_all [] d u = u
UniqueKeys-erase_all (j ∷ ks) d u = UniqueKeys-erase_all ks (erase j d) (UniqueKeys-erase j d u)

publish_all_keeps :
    (rs : List MemoryRecord) (s : MemoryService)
    → publish_all rs s ≡ (ok tt, record s { published = (publish_all rs s).1.published })
unfolding publish_all publish
publish_all_keeps [] s = refl
publish_all_keeps (r ∷ rs) s = publish_all_keeps rs _

insert-absent :
    (k : String) (r : MemoryRecord) (d : Dict String MemoryRecord)
    → lookup k d ≡ none
    → insert k r d ≡ d ++ (k, r) ∷ []
unfolding lookup insert
insert-absent k r [] h = refl
insert-absent k r ((j, x) ∷ d) h = ground (arith, insert-absent k r d)

-- No key of the one dict is in the other.
abbrev Apart : Dict String MemoryRecord → Dict String MemoryRecord → Type 0
Apart e [] = Unit
Apart e ((k, r) ∷ d) = (lookup k e ≡ none) × Apart e d

Apart-insert :
    (k : String) (r : MemoryRecord) (e d : Dict String MemoryRecord)
    → lookup k d ≡ none
    → Apart e d
    → Apart (insert k r e) d
unfolding lookup
Apart-insert k r e [] h a = tt
Apart-insert k r e ((j, x) ∷ d) h a =
    ground (arith, Apart-insert k r e d, lookup-insert k j r e, eq_iff k j, eq_iff j k)

Apart-empty : (d : Dict String MemoryRecord) → Apart [] d
unfolding lookup
Apart-empty [] = tt
Apart-empty ((k, r) ∷ d) = (refl, Apart-empty d)

-- Loading the values of a dict adds the dict.
load_all-values :
    (d e : Dict String MemoryRecord)
    → ((k : String) (r : MemoryRecord) → Has k r d → r.key ≡ k)
    → UniqueKeys d
    → Apart e d
    → load_all (values d) e ≡ e ++ d
unfolding load_all
load_all-values [] e own u a = sym (append-nil e)
load_all-values ((k, r) ∷ d) e own u a =
    let same = own k r (inl (refl, refl)) in
    ap (λ j. load_all (values d) (insert j r e)) same
    ∙ load_all-values d (insert k r e) (λ j x m. own j x (inr m)) u.1 (Apart-insert k r e d u.0 a.1)
    ∙ ap (λ l. l ++ d) (insert-absent k r e a.0)
    ∙ append_assoc e ((k, r) ∷ []) d

IsStored-of :
    (s : MemoryService) (d : Dict String MemoryRecord)
    → s.index ≡ d
    → s.saved ≡ values d
    → ((k : String) (r : MemoryRecord) → Has k r d → r.key ≡ k)
    → UniqueKeys d
    → IsStored s
IsStored-of s d p q own u = record { own_key = rw p own; unique = rw p u; saved = rw p q }

List-cases : (xs : List String) → (xs ≡ []) ⊎ ((x : String) × ((ys : List String) × (xs ≡ x ∷ ys)))
List-cases [] = inl refl
List-cases (x ∷ xs) = inr (x, (xs, refl))

pub data Call : Type 0 where
  put : MemoryRecord → Call
  delete : (now : ℕ) → String → Call
  update : (now : ℕ) → String → MemoryValue → Call
  purge_expired : (now : ℕ) → Call

module _ (can_save : List MemoryRecord → Bool) where
  unfoldable pub call : Call → MemoryService → MemoryService
  call (Call.put r) s = (Memory.put can_save r s).1
  call (Call.delete now key) s = (Memory.delete can_save now key s).1
  call (Call.update now key value) s = (Memory.update can_save now key value s).1
  call (Call.purge_expired now) s = (Memory.purge_expired can_save now s).1

  unfoldable pub run : List Call → MemoryService → MemoryService
  run [] s = s
  run (c ∷ cs) s = run cs (call c s)

  module _ (saves : (rs : List MemoryRecord) → can_save rs ≡ true) where
    put-IsStored :
        (r : MemoryRecord) (s : MemoryService) → IsStored s → IsStored (Memory.put can_save r s).1
    unfolding Memory.put persist
    put-IsStored r s h = record {
      own_key = λ k x m. ground (arith, written, h.own_key k x, Has-insert r.key r k x s.index);
      unique = ground (arith, written, h.unique, UniqueKeys-insert r.key r s.index h.unique);
      saved = ground (arith, written, h.saved);
    }
      where
        written : can_save (values (insert r.key r s.index)) ≡ true
        written = saves (values (insert r.key r s.index))

    delete-IsStored :
        (now : ℕ) (key : String) (s : MemoryService)
        → IsStored s
        → IsStored (Memory.delete can_save now key s).1
    unfolding Memory.delete get persist
    delete-IsStored now key s h = record {
      own_key = λ k x m. ground (arith, written, h.own_key k x, Has-erase key k x s.index);
      unique = ground (arith, written, h.unique, UniqueKeys-erase key s.index h.unique);
      saved = ground (arith, written, h.saved);
    }
      where
        written : can_save (values (erase key s.index)) ≡ true
        written = saves (values (erase key s.index))

    update-IsStored :
        (now : ℕ) (key : String) (value : MemoryValue) (s : MemoryService)
        → IsStored s
        → IsStored (Memory.update can_save now key value s).1
    unfolding Memory.update get persist
    update-IsStored now key value s h = elim (Option-cases (live_record now key s.index)) [
      | inl gone ↦ record {
        own_key = λ k x m. ground (arith, gone, h.own_key k x);
        unique = ground (arith, gone, h.unique);
        saved = ground (arith, gone, h.saved);
      }
      | inr (r, live) ↦
          let new : MemoryRecord = record r { value = value; version = r.version + 1 } in
          let written = saves (values (insert key new s.index)) in
          let own =
            h.own_key key r
              (Has-lookup key r s.index (live_record-lookup now key r s.index live)) in
          record {
            own_key = λ k x m.
                ground (arith, live, written, own, h.own_key k x, Has-insert key new k x s.index);
            unique =
                ground (arith, live, written, h.unique, UniqueKeys-insert key new s.index h.unique);
            saved = ground (arith, live, written, h.saved);
          }
    ]

    purge_expired-IsStored :
        (now : ℕ) (s : MemoryService)
        → IsStored s
        → IsStored (Memory.purge_expired can_save now s).1
    unfolding Memory.purge_expired persist
    purge_expired-IsStored now s h =
        let keys = expired_keys now s.index in
        let left = erase_all keys s.index in
        let t = (Memory.purge_expired can_save now s).1 in
        let records = expired_records now s.index in
        let own = λ (k : String) (x : MemoryRecord) (m : Has k x left).
          h.own_key k x (Has-erase_all keys k x s.index m) in
        let u = UniqueKeys-erase_all keys s.index h.unique in
        elim (List-cases keys) [
          | inl e ↦
              IsStored-of t left
                (ground (arith, e, publish_all_keeps records (record s { index = left })))
                (ground (arith, e, h.saved, publish_all_keeps records (record s { index = left })))
                own u
          | inr (k, (ks, e)) ↦
              let written = saves (values left) in
              IsStored-of t left
                (ground (
                  arith,
                  e,
                  written,
                  publish_all_keeps records (record s { index = left; saved = values left }),
                ))
                (ground (
                  arith,
                  e,
                  written,
                  publish_all_keeps records (record s { index = left; saved = values left }),
                ))
                own u
        ]

    call-IsStored : (c : Call) (s : MemoryService) → IsStored s → IsStored (call c s)
    unfolding call
    call-IsStored (Call.put r) s h = put-IsStored r s h
    call-IsStored (Call.delete now key) s h = delete-IsStored now key s h
    call-IsStored (Call.update now key value) s h = update-IsStored now key value s h
    call-IsStored (Call.purge_expired now) s h = purge_expired-IsStored now s h

    run-IsStored : (cs : List Call) (s : MemoryService) → IsStored s → IsStored (run cs s)
    unfolding run
    run-IsStored [] s h = h
    run-IsStored (c ∷ cs) s h = run-IsStored cs (call c s) (call-IsStored c s h)

    -- Where no save fails: after any calls, refused or not, a service that is loaded from the storage
    -- has the same index, in the same order.
    pub load_all-run :
        (cs : List Call) (s : MemoryService)
        → IsStored s
        → load_all (run cs s).saved [] ≡ (run cs s).index
    load_all-run cs s h =
        let k = run-IsStored cs s h in
        ap (λ rs. load_all rs []) k.saved
        ∙ load_all-values (run cs s).index [] k.own_key k.unique (Apart-empty (run cs s).index)
