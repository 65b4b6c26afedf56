-- ===== src/Planner.antt =====
-- argus/planner/planner.py, plan.py, step.py: Planner; and the Intent of argus/intent/intent.py and
-- the Task of argus/task/task.py as far as a plan holds them (confidence and the times are left
-- out, since nothing here reads them). The arguments have the classes that their annotations say.
-- New uuids are arguments, and so is the capability registry's `contains`.
pub mod Numbering
pub mod Reorder
mod Tests
use argus_os.Prelude.{
  ℕ, suc, String, Bool, true, false, not, Option, none, some, List, [], ◌∷◌, ◌++◌, map, Exec, pure,
  raise, gets, modify, guard, or_raise, ◌>>=◌, ◌>>◌, ◌&&◌, ◌||◌, is_empty, string_eq, ◌==◌,
  if◌then◌else◌, eqb,
}
use argus_os.Prelude.Lists.{length, is_in, select, any}
use argus_os.Prelude.Dict.{Dict, lookup, insert, values}
use argus_os.Events.{EventType, Event, Payload, text}

pub data IntentType : Type 0 where
  question command memory schedule unknown : IntentType

pub record Intent : Type 0 where
  pub name : IntentType
  pub id : String
  pub entities : Payload
  pub parameters : Payload

pub record Task : Type 0 where
  pub task_id : String
  pub name : String
  pub description : String

pub record PlanStep : Type 0 where
  pub description : String
  pub required_capability : String
  pub id : String
  pub order : ℕ
  pub optional : Bool
  pub metadata : Payload

pub data PlanStatus : Type 0 where
  created validated ready failed completed : PlanStatus

unfoldable pub is_validated : PlanStatus → Bool
is_validated PlanStatus.validated = true
is_validated _ = false

pub record Plan : Type 0 where
  pub originating_intent : Intent
  pub id : String
  pub status : PlanStatus
  pub steps : List PlanStep
  pub tasks : List Task
  pub metadata : Payload

pub record Planner : Type 0 where
  pub plans : Dict String Plan
  pub published : List Event

-- `key_error` is what `by_id[step_id]` would raise in `reorder_steps`.
pub data PlannerError : Type 0 where
  invalid_plan plan_not_found step_not_found plan_validation_error key_error : PlannerError

abbrev pub Method : Type 0 → Type 0
Method A = Exec PlannerError Planner A

unfoldable pub publish : EventType → Payload → Method Unit
publish type payload = modify (λ p. record p {
  published = record { type = type; source = "planner"; payload = payload } ∷ p.published;
})

unfoldable pub require_plan : String → Method Plan
require_plan id = do found ← gets (λ p. lookup id p.plans); or_raise found plan_not_found

unfoldable pub put : String → Plan → Method Unit
put id plan = modify (λ p. record p { plans = insert id plan p.plans })

-- The loop of `_validate_tasks`, with `seen_ids`.
unfoldable pub has_duplicate : List String → List Task → Bool
has_duplicate seen [] = false
has_duplicate seen (t ∷ ts) = is_in t.task_id seen || has_duplicate (t.task_id ∷ seen) ts

unfoldable pub validate_tasks : Option (List Task) → Method (List Task)
validate_tasks none = pure []
validate_tasks (some tasks) = do guard (not (has_duplicate [] tasks)) invalid_plan; pure tasks

unfoldable pub create_plan : Intent → (new_id : String) → Payload → Option (List Task) → Method Plan
unfolding validate_tasks put publish
create_plan intent new_id metadata tasks = do
  checked ← validate_tasks tasks
  let plan : Plan = record {
    originating_intent = intent;
    id = new_id;
    status = PlanStatus.created;
    steps = [];
    tasks = checked;
    metadata = metadata;
  }
  put new_id plan
  publish EventType.plan_created (("plan_id", text new_id) ∷ [])
  pure plan

unfoldable pub add_step :
    (plan_id description required_capability : String) (optional : Bool) (metadata : Payload)
    (new_id : String)
    → Method Plan
unfolding require_plan put publish
add_step plan_id description required_capability optional metadata new_id = do
  plan ← require_plan plan_id
  guard (not (is_empty description)) invalid_plan
  guard (not (is_empty required_capability)) invalid_plan
  let step : PlanStep = record {
    description = description;
    required_capability = required_capability;
    id = new_id;
    order = length plan.steps;
    optional = optional;
    metadata = metadata;
  }
  let updated = record plan { steps = plan.steps ++ step ∷ []; status = PlanStatus.created }
  put plan_id updated
  publish EventType.plan_updated
      (("plan_id", text plan_id) ∷ ("change", text "added_step") ∷ ("step_id", text new_id) ∷ [])
  pure updated

-- `replace(step, order=index) for index, step in enumerate(steps)`
unfoldable pub renumber : ℕ → List PlanStep → List PlanStep
renumber k [] = []
renumber k (s ∷ ss) = record s { order = k } ∷ renumber (suc k) ss

unfoldable pub remove_step : (plan_id step_id : String) → Method Plan
unfolding require_plan put publish
remove_step plan_id step_id = do
  plan ← require_plan plan_id
  guard (any (λ s. s.id == step_id) plan.steps) step_not_found
  let remaining = select (λ s. not (s.id == step_id)) plan.steps
  let updated = record plan { steps = renumber 0 remaining; status = PlanStatus.created }
  put plan_id updated
  publish EventType.plan_updated
      (("plan_id", text plan_id) ∷ ("change", text "removed_step") ∷ ("step_id", text step_id) ∷ [])
  pure updated

-- `{step.id: step for step in steps}`, on top of a dict that is there
unfoldable pub by_id : Dict String PlanStep → List PlanStep → Dict String PlanStep
by_id d [] = d
by_id d (s ∷ ss) = by_id (insert s.id s d) ss

abbrev pub step_id : PlanStep → String
step_id s = s.id

abbrev pub key : String × PlanStep → String
key e = e.0

unfoldable pub all_in : List String → List String → Bool
all_in [] ys = true
all_in (x ∷ xs) ys = is_in x ys && all_in xs ys

unfoldable pub is_distinct : List String → Bool
is_distinct [] = true
is_distinct (x ∷ xs) = not (is_in x xs) && is_distinct xs

-- The test of `reorder_steps`: as many ids as steps, no id twice, and the same set.
unfoldable pub is_permutation : List String → List String → Bool
is_permutation candidate keys =
    eqb (length candidate) (length keys)
    && (is_distinct candidate && (all_in candidate keys && all_in keys candidate))

-- `by_id[step_id] for step_id in candidate`
unfoldable pub get_steps : Dict String PlanStep → List String → Option (List PlanStep)
get_steps d [] = some []
get_steps d (i ∷ is) = elim (lookup i d) [
  | none ↦ none
  | some s ↦ elim (get_steps d is) [ none ↦ none | some ss ↦ some (s ∷ ss) ]
]

unfoldable pub reorder_steps : (plan_id : String) (step_ids : List String) → Method Plan
unfolding require_plan put publish
reorder_steps plan_id step_ids = do
  plan ← require_plan plan_id
  let steps = by_id [] plan.steps
  guard (is_permutation step_ids (map key steps)) invalid_plan
  chosen ← or_raise (get_steps steps step_ids) key_error
  let updated = record plan { steps = renumber 0 chosen; status = PlanStatus.created }
  put plan_id updated
  publish EventType.plan_updated (("plan_id", text plan_id) ∷ ("change", text "reordered") ∷ [])
  pure updated

-- A step that `validate_plan` lists as missing.
unfoldable pub is_missing : (String → Bool) → PlanStep → Bool
is_missing registered s = not s.optional && not (registered s.required_capability)

unfoldable pub validate_plan : (registered : String → Bool) (plan_id : String) → Method Plan
unfolding require_plan put publish
validate_plan registered plan_id = do
  plan ← require_plan plan_id
  let is_failing = any (is_missing registered) plan.steps
  put plan_id
      (record plan { status = if is_failing then PlanStatus.failed else PlanStatus.validated })
  guard (not is_failing) plan_validation_error
  publish EventType.plan_validated (("plan_id", text plan_id) ∷ [])
  pure (record plan { status = PlanStatus.validated })

get_plan : String → Method Plan
get_plan = require_plan

list_plans : Method (List Plan)
list_plans = gets (λ p. values p.plans)
