-- ===== src/Decision.antt =====
-- argus/decision/engine.py, rule.py, decision.py: DecisionEngine. The arguments have the classes
-- that their annotations say. A rule's predicate is any function, `none` where it raises. The texts
-- of errors are left out, and a new uuid is an argument.
pub mod Rules
pub mod Listing
pub mod Evaluation
mod Tests
use argus_os.Prelude.{
  ℕ, zero, suc, ◌+◌, String, Bool, true, false, not, refl, Option, none, some, List, [], ◌∷◌, ◌++◌,
  map, Exec, pure, raise, gets, modify, guard, or_raise, ◌>>=◌, ◌>>◌, ◌&&◌, ◌||◌, is_empty,
  string_eq, ◌==◌, if◌then◌else◌, leb, eqb,
}
use argus_os.Prelude.Lists.{length}
use argus_os.Prelude.Sort.{sort}
use argus_os.Prelude.Dict.{Dict, lookup, insert, erase, contains}
use argus_os.Lifecycle.{LifecycleState}
use argus_os.Events.{EventType, Event, Payload, text, number}
use argus_os.Service.{Stateful}
use argus_os.Service
use argus_os.Reasoning.Engine.{ReasoningResult}

-- Python's int: n, and -1 - n.
pub data ℤ : Type 0 where
  pos : ℕ → ℤ
  negsuc : ℕ → ℤ

-- `<=` on ints.
unfoldable pub int_leb : ℤ → ℤ → Bool
int_leb (pos m) (pos n) = leb m n
int_leb (pos m) (negsuc n) = false
int_leb (negsuc m) (pos n) = true
int_leb (negsuc m) (negsuc n) = leb n m

pub record DecisionRule : Type 0 where
  pub name : String
  pub predicate : List ReasoningResult → Option Bool
  pub priority : ℤ
  pub id : String
  pub description : String

-- An entry of `rule_evaluations`.
pub record RuleEvaluation : Type 0 where
  pub rule_id : String
  pub name : String
  pub matched : Bool

pub record Decision : Type 0 where
  pub decision_type : String
  pub decision_id : String
  pub matched_rules : List DecisionRule
  pub reasoning_results : List ReasoningResult
  pub rule_evaluations : List RuleEvaluation
  pub counts : Payload

pub record DecisionEngine : Type 0 where
  pub rules : Dict String DecisionRule
  pub registration_order : List String
  pub state : LifecycleState
  pub published : List Event

-- `key_error` is what `self._rules[id]` and `registration_index[id]` would raise in `list_rules`,
-- `value_error` what `list.remove` would in `remove_rule`.
pub data DecisionError : Type 0 where
  decision_error invalid_decision_rule duplicate_rule rule_not_found : DecisionError
  invalid_decision_input rule_evaluation key_error value_error : DecisionError

abbrev pub Method : Type 0 → Type 0
Method A = Exec DecisionError DecisionEngine A

instance abbrev pub decision_stateful : Stateful DecisionEngine
decision_stateful = record {
  get_state = λ s. s.state;
  set_state = λ x s. record s { state = x };
  get_state-set_state = λ x s. refl;
}

initialize : Method Unit
initialize = Service.initialize decision_error

start : Method Unit
start = Service.start decision_error

stop : Method Unit
stop = Service.stop decision_error

unfoldable pub publish : EventType → Payload → Method Unit
publish type payload = modify (λ s. record s {
  published = record { type = type; source = "decision_engine"; payload = payload } ∷ s.published;
})

unfoldable pub register_rule : DecisionRule → Method Unit
register_rule rule = do
  guard (not (is_empty rule.id)) invalid_decision_rule
  guard (not (is_empty rule.name)) invalid_decision_rule
  taken ← gets (λ s. contains rule.id s.rules)
  guard (not taken) duplicate_rule
  modify (λ s. record s { rules = insert rule.id rule s.rules })
  modify (λ s. record s { registration_order = s.registration_order ++ rule.id ∷ [] })

unfoldable pub require_rule : String → Method DecisionRule
require_rule id = do
  guard (not (is_empty id)) invalid_decision_rule
  found ← gets (λ s. lookup id s.rules)
  or_raise found rule_not_found

-- `list.remove`: the first that is equal goes; `none` where it raises.
unfoldable pub remove_first : String → List String → Option (List String)
remove_first id [] = none
remove_first id (k ∷ ks) =
    let rest = remove_first id ks in
    if k == id then some ks else elim rest [ none ↦ none | some l ↦ some (k ∷ l) ]

unfoldable pub remove_rule : String → Method Unit
unfolding require_rule
remove_rule id = do
  require_rule id
  modify (λ s. record s { rules = erase id s.rules })
  found ← gets (λ s. remove_first id s.registration_order)
  order ← or_raise found value_error
  modify (λ s. record s { registration_order = order })

-- `{rule_id: index for index, rule_id in enumerate(ids)}`, from an index on.
unfoldable pub registration_index : ℕ → List String → Dict String ℕ → Dict String ℕ
registration_index n [] d = d
registration_index n (id ∷ ids) d = registration_index (n + 1) ids (insert id n d)

-- A rule with its index: the sort key is the priority and the index.
abbrev pub Keyed : Type 0
Keyed = DecisionRule × ℕ

-- `<=` on the tuples of a priority and an index.
unfoldable pub goes_before : Keyed → Keyed → Bool
goes_before a b =
    if int_leb a.0.priority b.0.priority
    then (if int_leb b.0.priority a.0.priority then leb a.1 b.1 else true)
    else false

-- The keys of the dict, each with its rule and its sort key.
unfoldable pub keyed : Dict String ℕ → Dict String DecisionRule → Method (List Keyed)
keyed index [] = pure []
keyed index ((id, rule) ∷ rest) = do
  n ← or_raise (lookup id index) key_error
  ks ← keyed index rest
  pure ((rule, n) ∷ ks)

abbrev pub rule_of : Keyed → DecisionRule
rule_of k = k.0

unfoldable pub list_rules : Method (List DecisionRule)
unfolding keyed
list_rules = do
  order ← gets (λ s. s.registration_order)
  rules ← gets (λ s. s.rules)
  ks ← keyed (registration_index 0 order []) rules
  pure (map rule_of (sort goes_before ks))

module _ (decision_type : String) (results : List ReasoningResult) where
  -- The loop of `evaluate_all`.
  unfoldable pub evaluate_rules :
      List DecisionRule
      → (matched_rules : List DecisionRule) (evaluations : List RuleEvaluation)
      → Method (List DecisionRule × List RuleEvaluation)
  unfolding publish
  evaluate_rules [] matched_rules evaluations = pure (matched_rules, evaluations)
  evaluate_rules (rule ∷ rules) matched_rules evaluations = elim (rule.predicate results) [
    | none ↦ do
      publish EventType.decision_failed
          (("decision_type", text decision_type) ∷ ("rule_id", text rule.id) ∷ [])
      raise rule_evaluation
    | some matched ↦
        evaluate_rules rules (if matched then matched_rules ++ rule ∷ [] else matched_rules)
          (evaluations ++ record { rule_id = rule.id; name = rule.name; matched = matched } ∷ [])
  ]

  unfoldable pub evaluate_all : (new_id : String) → Method Decision
  unfolding list_rules publish
  evaluate_all new_id = do
    guard (not (is_empty decision_type)) invalid_decision_input
    guard (not (eqb (length results) 0)) invalid_decision_input
    rules ← list_rules
    found ← evaluate_rules rules [] []
    publish EventType.decision_evaluated (
        ("decision_type", text decision_type)
        ∷ ("rule_count", number (length rules))
        ∷ ("matched_rule_count", number (length found.0))
        ∷ [])
    let decision : Decision = record {
      decision_type = decision_type;
      decision_id = new_id;
      matched_rules = found.0;
      reasoning_results = results;
      rule_evaluations = found.1;
      counts =
          ("matched_rule_count", number (length found.0))
          ∷ ("total_rule_count", number (length rules))
          ∷ ("reasoning_result_count", number (length results))
          ∷ [];
    }
    publish EventType.decision_created (
        ("decision_type", text decision_type)
        ∷ ("decision_id", text new_id)
        ∷ ("matched_rule_count", number (length found.0))
        ∷ [])
    pure decision

unfoldable pub evaluate : ReasoningResult → (decision_type new_id : String) → Method Decision
unfolding evaluate_all
evaluate result decision_type new_id = evaluate_all decision_type (result ∷ []) new_id

-- An entry of the summary.
pub record RuleSummary : Type 0 where
  pub id : String
  pub name : String
  pub priority : ℤ

decision_summary : Method (ℕ × List RuleSummary)
unfolding list_rules
decision_summary = do
  rules ← list_rules
  pure (
    length rules,
    map (λ (r : DecisionRule). record { id = r.id; name = r.name; priority = r.priority }) rules,
  )
