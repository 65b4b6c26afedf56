-- ===== src/Decision/Evaluation.antt =====
-- argus/decision/engine.py: what `evaluate_all` decides.
use mathlib.Core.List.{append_assoc, append-nil}
use argus_os.Prelude.{
  String, Bool, ◌≡◌, refl, true, false, Option, none, some, List, [], ◌∷◌, ◌++◌, map, arith, Result,
  ok, err, inl, inr, is_empty, Option-cases, eqb,
}
use argus_os.Prelude.Lists.{length, select}
use argus_os.Prelude.Dict.{values}
use argus_os.Prelude.Sort.{sort}
use argus_os.Events.{EventType, Event, Payload, text, number}
use argus_os.Reasoning.Engine.{ReasoningResult}
use argus_os.Decision.{
  DecisionRule, RuleEvaluation, Decision, DecisionEngine, DecisionError, rule_evaluation, publish,
  evaluate_rules, evaluate_all,
}
use argus_os.Decision.Rules.{Call, IsRegistered, run, run-IsRegistered}
use argus_os.Decision.Listing.{by_priority, list_rules_lem}

abbrev pub event : EventType → Payload → Event
event type payload = record { type = type; source = "decision_engine"; payload = payload }

module _ (results : List ReasoningResult) where
  -- The first rule whose predicate raises.
  abbrev pub first_raising : List DecisionRule → Option DecisionRule
  first_raising [] = none
  first_raising (r ∷ rs) = elim (r.predicate results) [ none ↦ some r | some b ↦ first_raising rs ]

  abbrev pub matches : DecisionRule → Bool
  matches r = elim (r.predicate results) [ none ↦ false | some b ↦ b ]

  abbrev pub evaluation : DecisionRule → RuleEvaluation
  evaluation r = record { rule_id = r.id; name = r.name; matched = matches r }

  module _ (type : String) where
    abbrev failed_event : DecisionRule → Event
    failed_event r =
        event EventType.decision_failed (("decision_type", text type) ∷ ("rule_id", text r.id) ∷ [])

    evaluate_rules-ok :
        (rs matched : List DecisionRule) (evs : List RuleEvaluation) (s : DecisionEngine)
        → first_raising rs ≡ none
        → evaluate_rules type results rs matched evs s
          ≡ (ok (matched ++ select matches rs, evs ++ map evaluation rs), s)
    unfolding evaluate_rules select
    evaluate_rules-ok [] matched evs s h = rw (append-nil matched, append-nil evs) refl
    evaluate_rules-ok (r ∷ rs) matched evs s h = elim (Option-cases (r.predicate results)) [
      | inl raises ↦ absurd (cc (rw raises at h))
      | inr (true, e) ↦ ground (
        arith,
        e,
        h,
        evaluate_rules-ok rs (matched ++ r ∷ []) (evs ++ evaluation r ∷ []) s,
        append_assoc matched (r ∷ []) (select matches rs),
        append_assoc evs (evaluation r ∷ []) (map evaluation rs),
      )
      | inr (false, e) ↦ ground (
        arith,
        e,
        h,
        evaluate_rules-ok rs matched (evs ++ evaluation r ∷ []) s,
        append_assoc evs (evaluation r ∷ []) (map evaluation rs),
      )
    ]

    evaluate_rules-err :
        (rs matched : List DecisionRule) (evs : List RuleEvaluation) (s : DecisionEngine)
        (r : DecisionRule)
        → first_raising rs ≡ some r
        → evaluate_rules type results rs matched evs s
          ≡ (err rule_evaluation, record s { published = failed_event r ∷ s.published })
    unfolding evaluate_rules publish
    evaluate_rules-err [] matched evs s r h = cc
    evaluate_rules-err (q ∷ rs) matched evs s r h = elim (Option-cases (q.predicate results)) [
      | inl raises ↦ ground (arith, raises, h)
      | inr (true, e) ↦
          ground
            (arith, e, h, evaluate_rules-err rs (matched ++ q ∷ []) (evs ++ evaluation q ∷ []) s r)
      | inr (false, e) ↦
          ground (arith, e, h, evaluate_rules-err rs matched (evs ++ evaluation q ∷ []) s r)
    ]

-- What `evaluate_all` answers and leaves, by the first rule in the order that raises.
abbrev pub Decided :
    (type new_id : String) (results : List ReasoningResult) (rules : List DecisionRule)
    → DecisionEngine
    → Option DecisionRule
    → Result DecisionError Decision × DecisionEngine
Decided type new_id results rules s (some r) = (
  err rule_evaluation,
  record s {
    published =
        event EventType.decision_failed (("decision_type", text type) ∷ ("rule_id", text r.id) ∷ [])
        ∷ s.published;
  },
)
Decided type new_id results rules s none =
    let matched = select (matches results) rules in
    let count : Payload = ("matched_rule_count", number (length matched)) ∷ [] in
    (
      ok (record {
        decision_type = type;
        decision_id = new_id;
        matched_rules = matched;
        reasoning_results = results;
        rule_evaluations = map (evaluation results) rules;
        counts =
            ("matched_rule_count", number (length matched))
            ∷ ("total_rule_count", number (length rules))
            ∷ ("reasoning_result_count", number (length results))
            ∷ [];
      }),
      record s {
        published =
            event EventType.decision_created
              (("decision_type", text type) ∷ ("decision_id", text new_id) ∷ count)
            ∷ event EventType.decision_evaluated
                (("decision_type", text type) ∷ ("rule_count", number (length rules)) ∷ count)
            ∷ s.published;
      },
    )

evaluate_all-Decided :
    (type new_id : String) (results : List ReasoningResult) (s : DecisionEngine)
    → IsRegistered s
    → is_empty type ≡ false
    → eqb (length results) 0 ≡ false
    → evaluate_all type results new_id s
      ≡ Decided type new_id results
          (sort by_priority (values s.rules))
          s
          (first_raising results (sort by_priority (values s.rules)))
unfolding evaluate_all publish
evaluate_all-Decided type new_id results s h t n =
    let rules = sort by_priority (values s.rules) in
    elim (Option-cases (first_raising results rules)) [
      | inl e ↦
          rw e (
            ground
              (arith, t, n, list_rules_lem s h, evaluate_rules-ok results type rules [] [] s e))
      | inr (r, e) ↦ rw e (
          ground
            (arith, t, n, list_rules_lem s h, evaluate_rules-err results type rules [] [] s r e))
    ]

-- After any registrations and removals, refused or not, from a consistent engine, for a non-empty
-- type and at least one result: the engine is consistent, and the rules are tried in a stable order
-- by priority. The first that raises ends the evaluation with an error and the event FAILED alone;
-- otherwise the decision has exactly the rules that match, in that order, an evaluation of each
-- rule, and EVALUATED and then CREATED are published. The rules stay as they are.
pub evaluate_all_lem :
    (cs : List Call) (type new_id : String) (results : List ReasoningResult) (s : DecisionEngine)
    → IsRegistered s
    → is_empty type ≡ false
    → eqb (length results) 0 ≡ false
    → IsRegistered (run cs s)
      × (evaluate_all type results new_id (run cs s)
          ≡ Decided type new_id results
              (sort by_priority (values (run cs s).rules))
              (run cs s)
              (first_raising results (sort by_priority (values (run cs s).rules))))
evaluate_all_lem cs type new_id results s h t n =
    let kept = run-IsRegistered cs s h in
    (kept, evaluate_all-Decided type new_id results (run cs s) kept t n)
