-- ===== src/Scheduler/Tick.antt =====
-- What `tick` of argus/scheduler/scheduler.py does to the tasks.
use argus_os.Prelude.{
  ℕ, String, ◌≡◌, refl, sym, ap, ◌∙◌, false, Option, none, some, List, [], ◌∷◌, ok, arith,
  if◌then◌else◌, string_eq, eq_iff, ◌==◌, Bool-cases, Option-cases, eq_of_some, inl, inr,
}
use argus_os.Prelude.Lists.{any, length, select}
use argus_os.Prelude.Dict.{Dict, lookup, insert, lookup-insert, values}
use argus_os.Prelude.Entries.{Has, UniqueKeys, UniqueKeys-insert, Has-lookup, lookup-Has}
use argus_os.Lifecycle.{LifecycleState}
use argus_os.Events.{EventType}
use argus_os.Scheduler.{
  ScheduledTask, Scheduler, is_due, due_tasks, rescheduled, from_scheduler, task_payload, run_one,
  run_all, tick,
}
use argus_os.Scheduler.Triggers.{IsValid, next_fire_time, next_fire_time_later}
use argus_os.Scheduler.Due.{runs, length-due_tasks}
use argus_os.Scheduler.Registered.{
  IsRegistry, is_due_option, has_id, due_tasks-has_id, due_tasks_none, runs_option,
  is_due_option-runs_option,
}

-- Callbacks return or raise, and leave the tasks alone.
pub record IsQuiet (invoke : ℕ → Scheduler → Option String × Scheduler) : Type 0 where
  pub quiet : (c : ℕ) (s : Scheduler) → (invoke c s).1.tasks ≡ s.tasks

-- A task after a tick that ran it: the time of the tick is its last run, and its trigger has given it
-- the next one.
abbrev pub mark : ℕ → Option ScheduledTask → Option ScheduledTask
mark now none = none
mark now (some t) = some (record t { last_run = some now; next_run = next_fire_time t.trigger now })

mark-mark : (now : ℕ) (o : Option ScheduledTask) → mark now (mark now o) ≡ mark now o
mark-mark now none = refl
mark-mark now (some t) = refl

-- What `finish` does to the tasks.
abbrev finished : String → ℕ → Dict String ScheduledTask → Dict String ScheduledTask
finished id now tasks = elim (lookup id tasks) [
  | none ↦ tasks
  | some t ↦ insert id (rescheduled now t) tasks
]

abbrev all_finished : List ScheduledTask → ℕ → Dict String ScheduledTask → Dict String ScheduledTask
all_finished [] now tasks = tasks
all_finished (t ∷ ts) now tasks = all_finished ts now (finished t.id now tasks)

lookup-finished :
    (id k : String) (now : ℕ) (tasks : Dict String ScheduledTask)
    → lookup k (finished id now tasks)
      ≡ (if id == k then mark now (lookup k tasks) else lookup k tasks)
lookup-finished id k now tasks = elim (Option-cases (lookup id tasks)) [
  | inl absent ↦ ground (arith, eq_iff id k)
  | inr (t, found) ↦ ground (arith, eq_iff id k, lookup-insert id k (rescheduled now t) tasks)
]

finished-UniqueKeys :
    (id : String) (now : ℕ) (tasks : Dict String ScheduledTask)
    → UniqueKeys tasks
    → UniqueKeys (finished id now tasks)
finished-UniqueKeys id now tasks u = elim (Option-cases (lookup id tasks)) [
  | inl absent ↦ ground arith
  | inr (t, found) ↦ ground (arith, UniqueKeys-insert id (rescheduled now t) tasks u)
]

lookup-all_finished :
    (ts : List ScheduledTask) (k : String) (now : ℕ) (tasks : Dict String ScheduledTask)
    → lookup k (all_finished ts now tasks)
      ≡ (if any (has_id k) ts then mark now (lookup k tasks) else lookup k tasks)
unfolding any
lookup-all_finished [] k now tasks = refl
lookup-all_finished (t ∷ ts) k now tasks = ground (
  arith,
  lookup-all_finished ts k now (finished t.id now tasks),
  lookup-finished t.id k now tasks,
  mark-mark now (lookup k tasks),
)

all_finished-UniqueKeys :
    (ts : List ScheduledTask) (now : ℕ) (tasks : Dict String ScheduledTask)
    → UniqueKeys tasks
    → UniqueKeys (all_finished ts now tasks)
all_finished-UniqueKeys [] now tasks u = u
all_finished-UniqueKeys (t ∷ ts) now tasks u =
    all_finished-UniqueKeys ts now (finished t.id now tasks) (finished-UniqueKeys t.id now tasks u)

-- A task that has just been rescheduled is not due.
rescheduled_not_due :
    (now : ℕ) (t : ScheduledTask) → IsValid t.trigger → is_due now (rescheduled now t) ≡ false
unfolding is_due
rescheduled_not_due now t v = elim (Option-cases (next_fire_time t.trigger now)) [
  | inl never ↦ ground arith
  | inr (u, next) ↦ ground (arith, next_fire_time_later t.trigger now u v next)
]

not_due :
    (now : ℕ) (o : Option ScheduledTask) (t : ScheduledTask)
    → ((x : ScheduledTask) → o ≡ some x → IsValid x.trigger)
    → (if is_due_option now o then mark now o else o) ≡ some t
    → is_due now t ≡ false
not_due now none t v h = cc
not_due now (some x) t v h = elim (Bool-cases (is_due now x)) [
  | inl due ↦ rw (← eq_of_some (rw due at h)) (rescheduled_not_due now x (v x refl))
  | inr early ↦ rw (← eq_of_some (rw early at h)) early
]

module _ (invoke : ℕ → Scheduler → Option String × Scheduler) (q : IsQuiet invoke) (now : ℕ) where
  run_one_lem :
      (task : ScheduledTask) (s : Scheduler)
      → ((run_one invoke task now s).0 ≡ ok tt)
        × ((run_one invoke task now s).1.tasks ≡ finished task.id now s.tasks)
  unfolding run_one
  run_one_lem task s = ground (
    arith,
    q.quiet task.callback (record s {
      published = from_scheduler EventType.task_started (task_payload task) ∷ s.published;
    }),
  )

  run_all_lem :
      (ts : List ScheduledTask) (s : Scheduler)
      → ((run_all invoke ts now s).0 ≡ ok tt)
        × ((run_all invoke ts now s).1.tasks ≡ all_finished ts now s.tasks)
  unfolding run_all
  run_all_lem [] s = (refl, refl)
  run_all_lem (t ∷ ts) s =
      ground (arith, run_one_lem t s, run_all_lem ts (run_one invoke t now s).1)

  tick_tasks :
      (s : Scheduler)
      → s.state ≡ LifecycleState.running
      → ((tick invoke now s).0 ≡ ok (length (due_tasks now s.tasks)))
        × ((tick invoke now s).1.tasks ≡ all_finished (due_tasks now s.tasks) now s.tasks)
  unfolding tick
  tick_tasks s on = ground (arith, run_all_lem (due_tasks now s.tasks) s)

  tick-lookup :
      (s : Scheduler)
      → s.state ≡ LifecycleState.running
      → IsRegistry s.tasks
      → (k : String)
      → lookup k (tick invoke now s).1.tasks ≡ (
          if is_due_option now (lookup k s.tasks)
          then mark now (lookup k s.tasks)
          else lookup k s.tasks)
  tick-lookup s on r k =
      rw ((tick_tasks s on).1, lookup-all_finished, due_tasks-has_id now k s.tasks r)

  -- If callbacks leave the tasks alone, a tick of a running scheduler with a proper registry answers
  -- with the number of the enabled tasks with a next run that is not later than the time of the
  -- tick; each of these, whether its callback returned or raised, has the time of the tick as its
  -- last run and the next time of its trigger after it as its next run, and is else as it was; every
  -- other task is as before.
  pub tick_lem :
      (s : Scheduler)
      → s.state ≡ LifecycleState.running
      → IsRegistry s.tasks
      → ((tick invoke now s).0 ≡ ok (length (select (runs now) (values s.tasks))))
        × ((k : String)
            → lookup k (tick invoke now s).1.tasks ≡ (
                if runs_option now (lookup k s.tasks)
                then mark now (lookup k s.tasks)
                else lookup k s.tasks))
  tick_lem s on r = (
    (tick_tasks s on).0 ∙ ap ok (length-due_tasks now s.tasks),
    λ k. rw (← is_due_option-runs_option now (lookup k s.tasks)) (tick-lookup s on r k),
  )

  -- If callbacks leave the tasks alone, then after a tick of a running scheduler with a proper
  -- registry no task is due at the time of the tick: a second tick at that time has nothing to run.
  pub tick_twice :
      (s : Scheduler)
      → s.state ≡ LifecycleState.running
      → IsRegistry s.tasks
      → due_tasks now (tick invoke now s).1.tasks ≡ []
  tick_twice s on r = due_tasks_none now (tick invoke now s).1.tasks not_due_after
    where
      unique : UniqueKeys (tick invoke now s).1.tasks
      unique =
          rw ((tick_tasks s on).1)
            (all_finished-UniqueKeys (due_tasks now s.tasks) now s.tasks r.unique)

      not_due_after :
          (k : String) (t : ScheduledTask)
          → Has k t (tick invoke now s).1.tasks
          → is_due now t ≡ false
      not_due_after k t h =
          not_due now (lookup k s.tasks) t (λ x found. r.valid k x (Has-lookup k x s.tasks found))
            (sym (tick-lookup s on r k) ∙ lookup-Has k t (tick invoke now s).1.tasks unique h)
