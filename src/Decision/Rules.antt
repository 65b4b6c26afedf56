-- ===== src/Decision/Rules.antt =====
-- argus/decision/engine.py: the dict of rules and the list of their ids name the same rules, in the
-- order in which they were registered.
use argus_os.Prelude.{
  String, ◌≡◌, refl, ap, ◌∙◌, none, some, List, [], ◌∷◌, ◌++◌, map, arith, inl, inr, string_eq,
  eq_iff, ◌==◌, Bool-cases, Option-cases,
}
use argus_os.Prelude.Dict.{Dict, lookup, insert, erase}
use argus_os.Prelude.Entries.{
  Has, Has-insert, Has-erase, UniqueKeys, UniqueKeys-insert, UniqueKeys-erase,
}
use argus_os.Decision.{DecisionRule, DecisionEngine, remove_first}
use argus_os.Decision

abbrev pub keys : {V : Type 0} → Dict String V → List String
keys d = map (λ e. e.0) d

module _ {V : Type 0} where
  -- A new key goes to the end.
  keys-insert :
      (k : String) (v : V) (d : Dict String V)
      → lookup k d ≡ none
      → keys (insert k v d) ≡ keys d ++ k ∷ []
  unfolding lookup insert
  keys-insert k v [] h = refl
  keys-insert k v ((j, w) ∷ d) h = ground (arith, keys-insert k v d)

  erase-absent : (k : String) (d : Dict String V) → lookup k d ≡ none → erase k d ≡ d
  unfolding lookup erase
  erase-absent k [] h = refl
  erase-absent k ((j, w) ∷ d) h = ground (arith, erase-absent k d)

  keys-erase :
      (k : String) (v : V) (d : Dict String V)
      → UniqueKeys d
      → lookup k d ≡ some v
      → remove_first k (keys d) ≡ some (keys (erase k d))
  unfolding lookup erase remove_first
  keys-erase k v [] u h = cc
  keys-erase k v ((j, w) ∷ d) u h = elim (Bool-cases (j == k)) [
    | inl e ↦
        let gone : lookup k d ≡ none = rw (← (eq_iff j k).0 e) u.0 in
        rw (e, erase-absent k d gone) refl
    | inr e ↦ rw (e, keys-erase k v d u.1 (rw e at h)) refl
  ]

-- The list has the ids of the dict in its order, no id twice, and each rule is stored under its id.
pub record IsRegistered (s : DecisionEngine) : Type 0 where
  pub order : s.registration_order ≡ keys s.rules
  pub unique : UniqueKeys s.rules
  pub own_id : (k : String) (r : DecisionRule) → Has k r s.rules → r.id ≡ k

pub data Call : Type 0 where
  register_rule : DecisionRule → Call
  remove_rule : String → Call

unfoldable pub call : Call → DecisionEngine → DecisionEngine
call (Call.register_rule r) s = (Decision.register_rule r s).1
call (Call.remove_rule id) s = (Decision.remove_rule id s).1

unfoldable pub run : List Call → DecisionEngine → DecisionEngine
run [] s = s
run (c ∷ cs) s = run cs (call c s)

register_rule-IsRegistered :
    (r : DecisionRule) (s : DecisionEngine)
    → IsRegistered s
    → IsRegistered (Decision.register_rule r s).1
unfolding Decision.register_rule
register_rule-IsRegistered r s h = record {
  order = ground (arith, h.order, keys-insert r.id r s.rules);
  unique = ground (arith, h.unique, UniqueKeys-insert r.id r s.rules h.unique);
  own_id = λ k q m. ground (arith, h.own_id k q, Has-insert r.id r k q s.rules);
}

-- `remove_rule` finds the id in the list.
remove_rule-IsRegistered :
    (id : String) (s : DecisionEngine) → IsRegistered s → IsRegistered (Decision.remove_rule id s).1
unfolding Decision.remove_rule Decision.require_rule
remove_rule-IsRegistered id s h = elim (Option-cases (lookup id s.rules)) [
  | inl gone ↦ record {
    order = ground (arith, gone, h.order);
    unique = ground (arith, gone, h.unique);
    own_id = λ k q m. ground (arith, gone, h.own_id k q);
  }
  | inr (r, found) ↦
      let same : remove_first id s.registration_order ≡ some (keys (erase id s.rules)) =
        ap (remove_first id) h.order ∙ keys-erase id r s.rules h.unique found in
      record {
        order = ground (arith, found, same, h.order);
        unique = ground (arith, found, same, h.unique, UniqueKeys-erase id s.rules h.unique);
        own_id = λ k q m. ground (arith, found, same, h.own_id k q, Has-erase id k q s.rules);
      }
]

pub run-IsRegistered :
    (cs : List Call) (s : DecisionEngine) → IsRegistered s → IsRegistered (run cs s)
unfolding run call
run-IsRegistered [] s h = h
run-IsRegistered (Call.register_rule r ∷ cs) s h =
    run-IsRegistered cs _ (register_rule-IsRegistered r s h)
run-IsRegistered (Call.remove_rule id ∷ cs) s h =
    run-IsRegistered cs _ (remove_rule-IsRegistered id s h)
