-- ===== src/Decision/Tests.antt =====
-- Three rules, and the theorems at them.
use argus_os.Prelude.{
  String, Bool, ◌≡◌, refl, true, false, Option, none, some, List, [], ◌∷◌, string_eq, is_empty,
}
use argus_os.Prelude.Dict.{values}
use argus_os.Prelude.Sort.{sort}
use argus_os.Lifecycle.{LifecycleState}
use argus_os.Reasoning.Engine.{ReasoningResult}
use argus_os.Decision.{ℤ, pos, negsuc, DecisionRule, DecisionEngine, evaluate_all}
use argus_os.Decision.Rules.{Call, run, IsRegistered}
use argus_os.Decision.Listing.{by_priority}
use argus_os.Decision.Evaluation.{Decided, first_raising, evaluate_all_lem}

abbrev rule : String → ℤ → Option Bool → DecisionRule
rule id priority answer = record {
  name = "rule";
  predicate = λ results. answer;
  priority = priority;
  id = id;
  description = "";
}

abbrev no_rules : DecisionEngine
no_rules = record {
  rules = [];
  registration_order = [];
  state = LifecycleState.running;
  published = [];
}

no_rules-IsRegistered : IsRegistered no_rules
no_rules-IsRegistered = record { order = refl; unique = tt; own_id = λ k r h. absurd h }

-- The second "a" is refused, and so is the removal of "z".
abbrev calls : List Call
calls =
    Call.register_rule (rule "a" (pos 2) (some true))
    ∷ Call.register_rule (rule "b" (negsuc 0) (some false))
    ∷ Call.register_rule (rule "a" (pos 0) none)
    ∷ Call.register_rule (rule "c" (pos 2) (some true))
    ∷ Call.remove_rule "z"
    ∷ []

abbrev nothing : ReasoningResult
nothing = record { matched_entities = []; matched_relationships = []; metadata = []; paths = [] }

type_given : is_empty "go" ≡ false
unfolding is_empty
type_given = refl

evaluate_all_lem_example :
    IsRegistered (run calls no_rules)
    × (evaluate_all "go" (nothing ∷ []) "d" (run calls no_rules)
        ≡ Decided "go" "d"
            (nothing ∷ [])
            (sort by_priority (values (run calls no_rules).rules))
            (run calls no_rules)
            (first_raising (nothing ∷ []) (sort by_priority (values (run calls no_rules).rules))))
evaluate_all_lem_example =
    evaluate_all_lem calls "go" "d" (nothing ∷ []) no_rules no_rules-IsRegistered type_given refl
