-- ===== src/Scheduler/Tests.antt =====
-- A small scheduler, and the theorems at it.
use argus_os.Prelude.{
  ℕ, ◌<◌, String, ◌≡◌, refl, true, Option, none, some, [], ◌∷◌, ok, string_eq, arith, eqb,
  if◌then◌else◌, inl, inr,
}
use argus_os.Prelude.Lists.{length, select}
use mathlib.Core.List.{Perm}
use argus_os.Prelude.Sort.{sort, Ordered}
use argus_os.Prelude.Dict.{lookup, values}
use argus_os.Lifecycle.{LifecycleState}
use argus_os.Scheduler.{TaskPriority, ScheduledTask, Scheduler, is_due, due_tasks, tick}
use argus_os.Scheduler.Triggers.{
  Trigger, make, next_fire_time, next_fire_time_later, next_fire_time_stands,
}
use argus_os.Scheduler.Due.{runs, Precedes, ranked, due_tasks_lem}
use argus_os.Scheduler.Registered.{IsRegistry, runs_option}
use argus_os.Scheduler.Tick.{IsQuiet, mark, tick_lem, tick_twice}

next_fire_time_later_example : 7_000_000 < 7_000_005
unfolding next_fire_time
next_fire_time_later_example =
    next_fire_time_later (Trigger.interval 4_600 none) 7_000_000 7_000_005 (omega arith) refl

next_fire_time_stands_example :
    (make (Trigger.interval 100 (some 3)) ≡ ok (Trigger.interval 100 (some 3)))
    × (next_fire_time (Trigger.interval 100 (some 3)) 7 ≡ some 7)
next_fire_time_stands_example =
    next_fire_time_stands 100 (some 3) 7 (omega arith) (omega arith) (omega arith)

abbrev backup : ScheduledTask
backup = record {
  name = "backup";
  callback = 1;
  trigger = Trigger.interval 60_000_000_000 none;
  id = "t1";
  priority = TaskPriority.low;
  enabled = true;
  next_run = some 50;
  last_run = none;
}

abbrev alarm : ScheduledTask
alarm = record backup {
  name = "alarm";
  callback = 2;
  trigger = Trigger.one_shot 60;
  id = "t2";
  priority = TaskPriority.critical;
  next_run = some 60;
}

abbrev scheduler : Scheduler
scheduler = record {
  state = LifecycleState.running;
  tasks = ("t1", backup) ∷ ("t2", alarm) ∷ [];
  published = [];
}

-- The alarm's callback raises.
abbrev callbacks : ℕ → Scheduler → Option String × Scheduler
callbacks c s = (if eqb c 2 then some "no speaker" else none, s)

callbacks-IsQuiet : IsQuiet callbacks
callbacks-IsQuiet = record { quiet = λ c s. refl }

due_tasks_test : due_tasks 70 scheduler.tasks ≡ alarm ∷ backup ∷ []
unfolding due_tasks is_due sort select
due_tasks_test = refl

tasks-IsRegistry : IsRegistry scheduler.tasks
unfolding lookup
tasks-IsRegistry = record {
  named = λ k t h. ground arith;
  valid = λ k t h. elim h [
    | inl p ↦ rw (← p.1) (omega arith)
    | inr q ↦ elim q [ inl p ↦ rw (← p.1) tt | inr no_more ↦ absurd no_more ]
  ];
  unique = (refl, (refl, tt));
}

tick_lem_example :
    ((tick callbacks 70 scheduler).0 ≡ ok (length (select (runs 70) (values scheduler.tasks))))
    × ((k : String)
        → lookup k (tick callbacks 70 scheduler).1.tasks ≡ (
            if runs_option 70 (lookup k scheduler.tasks)
            then mark 70 (lookup k scheduler.tasks)
            else lookup k scheduler.tasks))
tick_lem_example = tick_lem callbacks callbacks-IsQuiet 70 scheduler refl tasks-IsRegistry

tick_twice_example : due_tasks 70 (tick callbacks 70 scheduler).1.tasks ≡ []
tick_twice_example = tick_twice callbacks callbacks-IsQuiet 70 scheduler refl tasks-IsRegistry

due_tasks_lem_example :
    Perm (due_tasks 70 scheduler.tasks) (select (runs 70) (values scheduler.tasks))
    × Ordered Precedes (due_tasks 70 scheduler.tasks)
    × ((priority : TaskPriority) (t : ℕ)
        → select (ranked priority t) (due_tasks 70 scheduler.tasks)
          ≡ select (ranked priority t) (select (runs 70) (values scheduler.tasks)))
due_tasks_lem_example = due_tasks_lem 70 scheduler.tasks
