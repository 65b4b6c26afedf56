-- ===== src/Planner/Tests.antt =====
-- A planner with one plan of two steps.
use argus_os.Prelude.{
  ℕ, String, Bool, true, false, ◌≡◌, refl, none, some, List, [], ◌∷◌, map, ok, string_eq, ◌==◌,
  arith,
}
use argus_os.Prelude.Lists.{is_in, NoDup}
use argus_os.Prelude.Dict.{lookup, insert, lookup-empty}
use argus_os.Planner.{
  IntentType, PlanStep, PlanStatus, Plan, Planner, step_id, reorder_steps, is_permutation, all_in,
  is_distinct,
}
use argus_os.Planner.Numbering.{Call, run, AllSound, run-AllSound}
use argus_os.Planner.Reorder.{reorder_steps_lem}

abbrev step_of : String → ℕ → PlanStep
step_of name order = record {
  description = name;
  required_capability = name;
  id = name;
  order = order;
  optional = false;
  metadata = [];
}

abbrev two_steps : Plan
two_steps = record {
  originating_intent = record {
    name = IntentType.command;
    id = "i";
    entities = [];
    parameters = [];
  };
  id = "p";
  status = PlanStatus.created;
  steps = step_of "a" 0 ∷ step_of "b" 1 ∷ [];
  tasks = [];
  metadata = [];
}

abbrev planner : Planner
planner = record { plans = ("p", two_steps) ∷ []; published = [] }

planner-found : lookup "p" planner.plans ≡ some two_steps
unfolding lookup
planner-found = refl

two_steps-NoDup : NoDup (map step_id two_steps.steps)
unfolding is_in
two_steps-NoDup = (refl, (refl, tt))

swap-is_permutation : is_permutation ("b" ∷ "a" ∷ []) (map step_id two_steps.steps) ≡ true
unfolding is_permutation is_distinct all_in is_in
swap-is_permutation = refl

reorder_steps_lem_example :
    (updated : Plan) × (((reorder_steps "p" ("b" ∷ "a" ∷ []) planner).0 ≡ ok updated)
      × (((reorder_steps "p" ("b" ∷ "a" ∷ []) planner).1.plans ≡ insert "p" updated planner.plans)
          × (map step_id updated.steps ≡ ("b" ∷ "a" ∷ []))))
reorder_steps_lem_example =
    reorder_steps_lem "p" ("b" ∷ "a" ∷ []) planner two_steps planner-found two_steps-NoDup
      swap-is_permutation

abbrev no_plans : Planner
no_plans = record { plans = []; published = [] }

no_plans-AllSound : (registered : String → Bool) → AllSound registered no_plans.plans
no_plans-AllSound f id plan found = absurd (ground (arith, lookup-empty {V = Plan} id))

abbrev some_calls : List Call
some_calls =
    Call.create_plan two_steps.originating_intent "p" [] none
    ∷ Call.add_step "p" "call" "phone" false [] "a"
    ∷ Call.add_step "p" "write" "mail" false [] "b"
    ∷ Call.reorder_steps "p" ("b" ∷ "a" ∷ [])
    ∷ Call.remove_step "p" "a"
    ∷ Call.validate_plan "p"
    ∷ []

run-AllSound_example :
    AllSound (λ c. c == "mail") (run (λ c. c == "mail") some_calls no_plans).plans
run-AllSound_example =
    run-AllSound (λ c. c == "mail") some_calls no_plans (no_plans-AllSound (λ c. c == "mail"))
