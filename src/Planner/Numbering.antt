-- ===== src/Planner/Numbering.antt =====
-- What every sequence of calls of argus/planner/planner.py keeps: the steps of each plan are
-- numbered as they stand, and a plan that says VALIDATED can be run.
use argus_os.Prelude.{
  ℕ, suc, ◌+◌, String, Bool, false, not, ◌≡◌, refl, ap, sym, ◌∙◌, Option, none, some, List, [], ◌∷◌,
  ◌++◌, map, arith, ◌||◌, ◌==◌, string_eq, Bool-cases, Option-cases, is_empty, ◌⊎◌, inl, inr,
  eq_of_some,
}
use argus_os.Prelude.Lists.{length, select, any}
use argus_os.Prelude.Dict.{Dict, lookup, insert, lookup-insert}
use argus_os.Events.{Payload}
use argus_os.Planner.{
  Intent, Task, PlanStep, PlanStatus, Plan, Planner, is_missing, renumber, key, by_id, get_steps,
  is_permutation, has_duplicate,
}
use argus_os.Planner

-- The steps' orders count up from a number.
abbrev pub Numbered : ℕ → List PlanStep → Type 0
Numbered k [] = Unit
Numbered k (s ∷ ss) = (s.order ≡ k) × Numbered (suc k) ss

renumber-Numbered : (k : ℕ) (ss : List PlanStep) → Numbered k (renumber k ss)
unfolding renumber
renumber-Numbered k [] = tt
renumber-Numbered k (s ∷ ss) = (refl, renumber-Numbered (suc k) ss)

Numbered-snoc :
    (k : ℕ) (ss : List PlanStep) (s : PlanStep)
    → Numbered k ss
    → s.order ≡ k + length ss
    → Numbered k (ss ++ s ∷ [])
Numbered-snoc k [] s n e = (omega arith, tt)
Numbered-snoc k (t ∷ ss) s n e = (n.0, Numbered-snoc (suc k) ss s n.1 (omega arith))

module _ (registered : String → Bool) where
  -- What holds of a plan: its steps are numbered from 0, and if it is VALIDATED, each step is
  -- optional or its capability is registered.
  abbrev pub IsSound : Plan → Type 0
  IsSound plan =
      Numbered 0 plan.steps
      × (plan.status ≡ PlanStatus.validated → any (is_missing registered) plan.steps ≡ false)

  abbrev pub AllSound : Dict String Plan → Type 0
  AllSound d = (id : String) (plan : Plan) → lookup id d ≡ some plan → IsSound plan

  -- A call stores at most one plan, and that one is sound.
  abbrev StoresSound : Dict String Plan → Dict String Plan → Type 0
  StoresSound d d' = (d' ≡ d) ⊎ ((id : String) × ((q : Plan) × ((d' ≡ insert id q d) × IsSound q)))

  StoresSound-AllSound : (d d' : Dict String Plan) → StoresSound d d' → AllSound d → AllSound d'
  StoresSound-AllSound d d' (inl e) all id plan found = all id plan (ap (lookup id) (sym e) ∙ found)
  StoresSound-AllSound d d' (inr (k, (q, (e, sound)))) all id plan found =
      elim (Bool-cases (k == id)) [
        | inl h ↦
            let same : q ≡ plan = eq_of_some (ground (arith, lookup-insert k id q d)) in
            rw (sym same) sound
        | inr h ↦ all id plan (ground (arith, lookup-insert k id q d))
      ]

  abbrev empty_plan : Intent → String → Payload → List Task → Plan
  empty_plan intent id metadata tasks = record {
    originating_intent = intent;
    id = id;
    status = PlanStatus.created;
    steps = [];
    tasks = tasks;
    metadata = metadata;
  }

  abbrev edited : Plan → List PlanStep → Plan
  edited plan steps = record plan { steps = steps; status = PlanStatus.created }

  edited-IsSound :
      (plan : Plan) (steps : List PlanStep) → Numbered 0 steps → IsSound (edited plan steps)
  edited-IsSound plan steps n = (n, λ h. cc)

  stores :
      (d d' : Dict String Plan) (id : String) (q : Plan)
      → d' ≡ insert id q d
      → IsSound q
      → StoresSound d d'
  stores d d' id q e sound = inr (id, (q, (e, sound)))

  create_plan_sound :
      (intent : Intent) (new_id : String) (metadata : Payload) (tasks : Option (List Task))
      (p : Planner)
      → StoresSound p.plans (Planner.create_plan intent new_id metadata tasks p).1.plans
  unfolding Planner.create_plan Planner.validate_tasks
  create_plan_sound intent new_id metadata none p =
      stores p.plans _ new_id (empty_plan intent new_id metadata []) refl (tt, λ h. cc)
  create_plan_sound intent new_id metadata (some tasks) p =
      elim (Bool-cases (has_duplicate [] tasks)) [
        | inl e ↦ inl (ground arith)
        | inr e ↦
            stores p.plans _ new_id (empty_plan intent new_id metadata tasks) (ground arith)
              (tt, λ h. cc)
      ]

  module _ (p : Planner) (all : AllSound p.plans) (plan_id : String) where
    add_step_sound :
        (description required_capability : String) (optional : Bool) (metadata : Payload)
        (new_id : String)
        → StoresSound p.plans
            (Planner.add_step plan_id description required_capability optional metadata new_id
              p).1.plans
    unfolding Planner.add_step
    add_step_sound description required_capability optional metadata new_id =
        elim (Option-cases (lookup plan_id p.plans)) [
          | inl n ↦ inl (ground arith)
          | inr (plan, found) ↦
              elim (Bool-cases (is_empty description || is_empty required_capability)) [
                | inl e ↦ inl (ground arith)
                | inr e ↦
                    let step : PlanStep = record {
                      description = description;
                      required_capability = required_capability;
                      id = new_id;
                      order = length plan.steps;
                      optional = optional;
                      metadata = metadata;
                    } in
                    stores p.plans _ plan_id (edited plan (plan.steps ++ step ∷ [])) (ground arith)
                      (edited-IsSound plan _
                        (Numbered-snoc 0 plan.steps step (all plan_id plan found).0 (omega arith)))
              ]
        ]

    remove_step_sound :
        (step_id : String) → StoresSound p.plans (Planner.remove_step plan_id step_id p).1.plans
    unfolding Planner.remove_step
    remove_step_sound step_id = elim (Option-cases (lookup plan_id p.plans)) [
      | inl n ↦ inl (ground arith)
      | inr (plan, found) ↦ elim (Bool-cases (any (λ s. s.id == step_id) plan.steps)) [
        | inr e ↦ inl (ground arith)
        | inl e ↦
            let remaining = select (λ (s : PlanStep). not (s.id == step_id)) plan.steps in
            stores p.plans _ plan_id (edited plan (renumber 0 remaining)) (ground arith)
              (edited-IsSound plan _ (renumber-Numbered 0 remaining))
      ]
    ]

    reorder_steps_sound :
        (step_ids : List String)
        → StoresSound p.plans (Planner.reorder_steps plan_id step_ids p).1.plans
    unfolding Planner.reorder_steps
    reorder_steps_sound step_ids = elim (Option-cases (lookup plan_id p.plans)) [
      | inl n ↦ inl (ground arith)
      | inr (plan, found) ↦
          elim (Bool-cases (is_permutation step_ids (map key (by_id [] plan.steps)))) [
            | inr e ↦ inl (ground arith)
            | inl e ↦ elim (Option-cases (get_steps (by_id [] plan.steps) step_ids)) [
              | inl n ↦ inl (ground arith)
              | inr (chosen, c) ↦
                  stores p.plans _ plan_id (edited plan (renumber 0 chosen)) (ground arith)
                    (edited-IsSound plan _ (renumber-Numbered 0 chosen))
            ]
          ]
    ]

    validate_plan_sound : StoresSound p.plans (Planner.validate_plan registered plan_id p).1.plans
    unfolding Planner.validate_plan
    validate_plan_sound = elim (Option-cases (lookup plan_id p.plans)) [
      | inl n ↦ inl (ground arith)
      | inr (plan, found) ↦ elim (Bool-cases (any (is_missing registered) plan.steps)) [
        | inl e ↦
            stores p.plans _ plan_id (record plan { status = PlanStatus.failed }) (ground arith)
              ((all plan_id plan found).0, λ h. cc)
        | inr e ↦
            stores p.plans _ plan_id (record plan { status = PlanStatus.validated }) (ground arith)
              ((all plan_id plan found).0, λ h. e)
      ]
    ]

-- A call of one method, as a value.
pub data Call : Type 0 where
  create_plan :
      (intent : Intent) (new_id : String) (metadata : Payload) (tasks : Option (List Task)) → Call
  add_step :
      (plan_id description required_capability : String) (optional : Bool) (metadata : Payload)
      (new_id : String)
      → Call
  remove_step : (plan_id step_id : String) → Call
  reorder_steps : (plan_id : String) (step_ids : List String) → Call
  validate_plan : (plan_id : String) → Call

pub call : (registered : String → Bool) → Call → Planner → Planner
call registered (Call.create_plan intent new_id metadata tasks) p =
    (Planner.create_plan intent new_id metadata tasks p).1
call registered (Call.add_step plan_id description required_capability optional metadata new_id) p =
    (Planner.add_step plan_id description required_capability optional metadata new_id p).1
call registered (Call.remove_step plan_id step_id) p = (Planner.remove_step plan_id step_id p).1
call registered (Call.reorder_steps plan_id step_ids) p =
    (Planner.reorder_steps plan_id step_ids p).1
call registered (Call.validate_plan plan_id) p = (Planner.validate_plan registered plan_id p).1

pub run : (registered : String → Bool) → List Call → Planner → Planner
run registered [] p = p
run registered (c ∷ cs) p = run registered cs (call registered c p)

call-AllSound :
    (registered : String → Bool) (c : Call) (p : Planner)
    → AllSound registered p.plans
    → AllSound registered (call registered c p).plans
unfolding call
call-AllSound f (Call.create_plan i k m t) p all =
    StoresSound-AllSound f p.plans _ (create_plan_sound f i k m t p) all
call-AllSound f (Call.add_step k d r o m n) p all =
    StoresSound-AllSound f p.plans _ (add_step_sound f p all k d r o m n) all
call-AllSound f (Call.remove_step k s) p all =
    StoresSound-AllSound f p.plans _ (remove_step_sound f p all k s) all
call-AllSound f (Call.reorder_steps k s) p all =
    StoresSound-AllSound f p.plans _ (reorder_steps_sound f p all k s) all
call-AllSound f (Call.validate_plan k) p all =
    StoresSound-AllSound f p.plans _ (validate_plan_sound f p all k) all

-- With a capability registry that does not change: if every plan's steps are numbered from 0 in
-- their order, and a VALIDATED plan has no required step whose capability is not registered, then
-- this holds after any sequence of calls.
pub run-AllSound :
    (registered : String → Bool) (cs : List Call) (p : Planner)
    → AllSound registered p.plans
    → AllSound registered (run registered cs p).plans
unfolding run
run-AllSound f [] p all = all
run-AllSound f (c ∷ cs) p all = run-AllSound f cs (call f c p) (call-AllSound f c p all)
