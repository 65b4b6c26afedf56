-- ===== src/Scheduler/Due.antt =====
-- Which tasks a tick of argus/scheduler/scheduler.py runs, and in which order.
use mathlib.Core.List.{Perm}
use argus_os.Prelude.{
  ℕ, ◌<◌, ◌≤◌, String, ◌≡◌, refl, ap, ◌∙◌, Bool, true, false, not, Option, none, some, List, [],
  ◌∷◌, arith, string_eq, ◌⊎◌, inl, inr, ◌&&◌, ltb, eqb, Bool-cases, Option-cases,
}
use argus_os.Prelude.Lists.{select, All, length, select_agree, All-always, select-All}
use argus_os.Prelude.Sort.{
  sort, sort-perm, sort-Ordered, sort_stable, Ordered, IsOrder, alike, All-sort, length-sort,
}
use argus_os.Prelude.Dict.{Dict, values}
use argus_os.Scheduler.{TaskPriority, ScheduledTask, priority_order, goes_before, due_tasks, is_due}
use argus_os.Scheduler.Triggers.{Trigger}

goes_before-IsOrder : IsOrder goes_before
goes_before-IsOrder = record { total = λ x y h. ground arith; trans = λ x y z h k. ground arith }

-- How urgent a priority is.
abbrev pub urgency : TaskPriority → ℕ
urgency TaskPriority.low = 0
urgency TaskPriority.normal = 1
urgency TaskPriority.high = 2
urgency TaskPriority.critical = 3

-- The task is enabled and has a next run, which is not later than the given time.
abbrev pub runs_at : (now : ℕ) (enabled : Bool) (next_run : Option ℕ) → Bool
runs_at now true (some t) = not (ltb now t)
runs_at now true none = false
runs_at now false next_run = false

abbrev pub runs : ℕ → ScheduledTask → Bool
runs now task = runs_at now task.enabled task.next_run

-- The first task is more urgent, or it is as urgent and its next run is not later.
abbrev pub Precedes : ScheduledTask → ScheduledTask → Type 0
Precedes a b =
    (urgency b.priority < urgency a.priority)
    ⊎ ((urgency a.priority ≡ urgency b.priority)
        × ((s : ℕ) × ((t : ℕ) × ((a.next_run ≡ some s) × ((b.next_run ≡ some t) × (s ≤ t))))))

abbrev pub is_at : ℕ → Option ℕ → Bool
is_at t none = false
is_at t (some u) = eqb t u

-- A task of this priority with this time of its next run.
abbrev pub ranked : TaskPriority → ℕ → ScheduledTask → Bool
ranked priority t task = eqb (urgency priority) (urgency task.priority) && is_at t task.next_run

abbrev HasRun : ScheduledTask → Type 0
HasRun task = (t : ℕ) × (task.next_run ≡ some t)

runs-HasRun : (now : ℕ) (task : ScheduledTask) → runs now task ≡ true → HasRun task
runs-HasRun now task h = elim (Option-cases task.next_run) [
  | inl never ↦ absurd (ground (arith, never))
  | inr (t, next) ↦ (t, next)
]

All-HasRun :
    (now : ℕ) (tasks : List ScheduledTask)
    → All (λ task. runs now task ≡ true) tasks
    → All HasRun tasks
All-HasRun now [] h = tt
All-HasRun now (t ∷ ts) h = (runs-HasRun now t h.0, All-HasRun now ts h.1)

pub is_due-runs : (now : ℕ) (task : ScheduledTask) → is_due now task ≡ runs now task
unfolding is_due
is_due-runs now task = ground arith

select-runs :
    (now : ℕ) (tasks : List ScheduledTask) → select (is_due now) tasks ≡ select (runs now) tasks
select-runs now tasks =
    select_agree (is_due now) (runs now) tasks (All-always _ tasks (is_due-runs now))

order-urgency :
    (p q : TaskPriority)
    → (ltb (priority_order p) (priority_order q) ≡ ltb (urgency q) (urgency p))
      × (ltb (priority_order q) (priority_order p) ≡ ltb (urgency p) (urgency q))
order-urgency p q = ground arith

goes_before-Precedes :
    (a b : ScheduledTask) → HasRun a → HasRun b → goes_before a b ≡ true → Precedes a b
goes_before-Precedes a b (s, at) (t, bt) h =
    elim (Bool-cases (ltb (urgency b.priority) (urgency a.priority))) [
      | inl more ↦ inl (ground arith)
      | inr same ↦ inr (
        ground (arith, order-urgency a.priority b.priority, at, bt),
        (s, (t, (at, (bt, ground (arith, order-urgency a.priority b.priority, at, bt))))),
      )
    ]

-- Some task of a priority with a next run.
abbrev sample : TaskPriority → ℕ → ScheduledTask
sample priority t = record {
  name = "";
  callback = 0;
  trigger = Trigger.one_shot t;
  id = "";
  priority = priority;
  enabled = true;
  next_run = some t;
  last_run = none;
}

alike-ranked :
    (priority : TaskPriority) (t : ℕ) (task : ScheduledTask)
    → HasRun task
    → alike goes_before (sample priority t) task ≡ ranked priority t task
alike-ranked priority t task (u, next) = ground (arith, next, order-urgency priority task.priority)

All-alike :
    (priority : TaskPriority) (t : ℕ) (tasks : List ScheduledTask)
    → All HasRun tasks
    → All (λ x. alike goes_before (sample priority t) x ≡ ranked priority t x) tasks
All-alike priority t [] h = tt
All-alike priority t (x ∷ xs) h = (alike-ranked priority t x h.0, All-alike priority t xs h.1)

-- The tasks of a tick are the enabled tasks with a next run that is not later than the time of the
-- tick, each once; a more urgent one (CRITICAL, HIGH, NORMAL, LOW) goes first, and of two that are
-- as urgent the one with the earlier next run; tasks with the same priority and the same next run
-- keep the order of their registration.
pub due_tasks_lem :
    (now : ℕ) (tasks : Dict String ScheduledTask)
    → Perm (due_tasks now tasks) (select (runs now) (values tasks))
      × Ordered Precedes (due_tasks now tasks)
      × ((priority : TaskPriority) (t : ℕ)
          → select (ranked priority t) (due_tasks now tasks)
            ≡ select (ranked priority t) (select (runs now) (values tasks)))
unfolding due_tasks
due_tasks_lem now tasks =
    let due : List ScheduledTask = select (runs now) (values tasks) in
    let same : select (is_due now) (values tasks) ≡ due = select-runs now (values tasks) in
    let run : All HasRun due = All-HasRun now due (select-All (runs now) (values tasks)) in
    rw same (
      sort-perm goes_before due,
      sort-Ordered goes_before goes_before-IsOrder HasRun Precedes goes_before-Precedes due run,
      λ priority t.
          rw
            (
              ← select_agree _ (ranked priority t) due (All-alike priority t due run),
              ← select_agree _ (ranked priority t) (sort goes_before due) (
                  All-alike priority t (sort goes_before due)
                    (All-sort goes_before HasRun due run)),
              sort_stable goes_before goes_before-IsOrder (sample priority t) due,
            )
            refl,
    )

-- How many tasks a tick runs.
pub length-due_tasks :
    (now : ℕ) (tasks : Dict String ScheduledTask)
    → length (due_tasks now tasks) ≡ length (select (runs now) (values tasks))
unfolding due_tasks
length-due_tasks now tasks =
    length-sort goes_before (select (is_due now) (values tasks))
    ∙ ap length (select-runs now (values tasks))
