-- ===== src/Scheduler/Registered.antt =====
-- A proper registry of argus/scheduler/scheduler.py, and which of its ids are due.
use argus_os.Prelude.{
  ℕ, String, ◌≡◌, refl, Bool, false, Option, none, some, [], ◌∷◌, arith, string_eq, eq_iff, ◌==◌,
  inl, inr,
}
use argus_os.Prelude.Lists.{select, any}
use argus_os.Prelude.Sort.{sort, any-sort}
use argus_os.Prelude.Dict.{Dict, lookup, values}
use argus_os.Prelude.Entries.{Has, UniqueKeys}
use argus_os.Scheduler.{ScheduledTask, due_tasks, is_due}
use argus_os.Scheduler.Triggers.{IsValid}
use argus_os.Scheduler.Due.{runs, is_due-runs}

-- Each task is stored under its own id and has a valid trigger, and no id is listed twice.
pub record IsRegistry (tasks : Dict String ScheduledTask) : Type 0 where
  pub named : (k : String) (t : ScheduledTask) → Has k t tasks → t.id ≡ k
  pub valid : (k : String) (t : ScheduledTask) → Has k t tasks → IsValid t.trigger
  pub unique : UniqueKeys tasks

-- The task under an id is due.
abbrev pub is_due_option : ℕ → Option ScheduledTask → Bool
is_due_option now none = false
is_due_option now (some t) = is_due now t

abbrev pub has_id : String → ScheduledTask → Bool
has_id k t = t.id == k

select-has_id :
    (now : ℕ) (k : String) (tasks : Dict String ScheduledTask)
    → ((j : String) (t : ScheduledTask) → Has j t tasks → t.id ≡ j)
    → UniqueKeys tasks
    → any (has_id k) (select (is_due now) (values tasks)) ≡ is_due_option now (lookup k tasks)
unfolding select any lookup
select-has_id now k [] named u = refl
select-has_id now k ((j, t) ∷ tasks) named u = ground (
  arith,
  select-has_id now k tasks (λ i s h. named i s (inr h)) u.1,
  named j t (inl (refl, refl)),
  eq_iff j k,
)

abbrev pub runs_option : ℕ → Option ScheduledTask → Bool
runs_option now none = false
runs_option now (some task) = runs now task

pub is_due_option-runs_option :
    (now : ℕ) (o : Option ScheduledTask) → is_due_option now o ≡ runs_option now o
is_due_option-runs_option now none = refl
is_due_option-runs_option now (some task) = is_due-runs now task

pub due_tasks-has_id :
    (now : ℕ) (k : String) (tasks : Dict String ScheduledTask)
    → IsRegistry tasks
    → any (has_id k) (due_tasks now tasks) ≡ is_due_option now (lookup k tasks)
unfolding due_tasks
due_tasks-has_id now k tasks r = rw any-sort (select-has_id now k tasks r.named r.unique)

select_none :
    (now : ℕ) (tasks : Dict String ScheduledTask)
    → ((k : String) (t : ScheduledTask) → Has k t tasks → is_due now t ≡ false)
    → select (is_due now) (values tasks) ≡ []
unfolding select
select_none now [] h = refl
select_none now ((k, t) ∷ tasks) h =
    rw (h k t (inl (refl, refl)), select_none now tasks (λ j s m. h j s (inr m)))

pub due_tasks_none :
    (now : ℕ) (tasks : Dict String ScheduledTask)
    → ((k : String) (t : ScheduledTask) → Has k t tasks → is_due now t ≡ false)
    → due_tasks now tasks ≡ []
unfolding due_tasks sort
due_tasks_none now tasks h = rw (select_none now tasks h)
