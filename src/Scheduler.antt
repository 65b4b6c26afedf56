-- ===== src/Scheduler.antt =====
-- argus/scheduler/scheduler.py, task.py: Scheduler. A time is a number of microseconds. A task's
-- callback is a number; what a call of it does is the parameter `invoke`, which answers the text of
-- an exception or nothing, and may call the scheduler. The lock is left out: the calls of one
-- thread are modelled. The reading of the clock and a new uuid are arguments.
pub mod Triggers
pub mod Due
pub mod Registered
pub mod Tick
mod Tests
use argus_os.Prelude.{
  ℕ, String, Bool, true, false, not, Option, none, some, List, [], ◌∷◌, ◌++◌, Exec, pure, raise,
  gets, modify, guard, or_raise, ◌>>=◌, ◌>>◌, ◌&&◌, is_some, is_empty, string_eq, refl,
  if◌then◌else◌, ltb, leb, eqb, ok,
}
use argus_os.Prelude.Lists.{select, length}
use argus_os.Prelude.Sort.{sort}
use argus_os.Prelude.Dict.{Dict, lookup, insert, erase, contains, values}
use argus_os.Lifecycle.{LifecycleState}
use argus_os.Events.{EventType, Event, Payload, text, number}
use argus_os.Service.{Stateful, require_state}
use argus_os.Service
use Triggers.{Trigger, next_fire_time}

pub data TaskPriority : Type 0 where
  low normal high critical : TaskPriority

abbrev pub priority_order : TaskPriority → ℕ
priority_order critical = 0
priority_order high = 1
priority_order normal = 2
priority_order low = 3

pub record ScheduledTask : Type 0 where
  pub name : String
  pub callback : ℕ
  pub trigger : Trigger
  pub id : String
  pub priority : TaskPriority
  pub enabled : Bool
  pub next_run : Option ℕ
  pub last_run : Option ℕ

pub record Scheduler : Type 0 where
  pub state : LifecycleState
  pub tasks : Dict String ScheduledTask
  pub published : List Event

pub data SchedulerError : Type 0 where
  scheduler_error task_already_exists task_not_found : SchedulerError

abbrev pub Method : Type 0 → Type 0
Method A = Exec SchedulerError Scheduler A

instance abbrev pub scheduler_stateful : Stateful Scheduler
scheduler_stateful = record {
  get_state = λ s. s.state;
  set_state = λ x s. record s { state = x };
  get_state-set_state = λ x s. refl;
}

initialize : Method Unit
initialize = Service.initialize scheduler_error

start : Method Unit
start = Service.start scheduler_error

stop : Method Unit
stop = Service.stop scheduler_error

abbrev pub from_scheduler : EventType → Payload → Event
from_scheduler type payload = record { type = type; source = "scheduler"; payload = payload }

abbrev pub task_payload : ScheduledTask → Payload
task_payload task = ("task_id", text task.id) ∷ ("task_name", text task.name) ∷ []

unfoldable pub publish : EventType → Payload → Method Unit
publish type payload =
    modify (λ s. record s { published = from_scheduler type payload ∷ s.published })

unfoldable pub require_task : String → Method ScheduledTask
require_task id = do found ← gets (λ s. lookup id s.tasks); or_raise found task_not_found

unfoldable pub put : ScheduledTask → String → Method Unit
put task id = modify (λ s. record s { tasks = insert id task s.tasks })

abbrev given_or_new : Option String → String → String
given_or_new none new_id = new_id
given_or_new (some id) new_id = id

unfoldable pub schedule :
    (name : String) (callback : ℕ) (trigger : Trigger) (task_id : Option String) (new_id : String)
    (priority : TaskPriority) (now : ℕ)
    → Method ScheduledTask
unfolding put publish
schedule name callback trigger task_id new_id priority now = do
  guard (not (is_empty name)) scheduler_error
  let id = given_or_new task_id new_id
  taken ← gets (λ s. contains id s.tasks)
  guard (not taken) task_already_exists
  let task : ScheduledTask = record {
    name = name;
    callback = callback;
    trigger = trigger;
    id = id;
    priority = priority;
    enabled = true;
    next_run = next_fire_time trigger now;
    last_run = none;
  }
  put task id
  publish EventType.task_scheduled (task_payload task)
  pure task

unfoldable pub cancel : String → Method Unit
unfolding require_task publish
cancel id = do
  task ← require_task id
  modify (λ s. record s { tasks = erase id s.tasks })
  publish EventType.task_cancelled (task_payload task)

unfoldable pub pause : String → Method Unit
unfolding require_task put publish
pause id = do
  task ← require_task id
  put (record task { enabled = false }) id
  publish EventType.task_paused (task_payload task)

unfoldable pub resume : String → (now : ℕ) → Method Unit
unfolding require_task put publish
resume id now = do
  task ← require_task id
  put (record task { enabled = true; next_run = next_fire_time task.trigger now }) id
  publish EventType.task_resumed (task_payload task)

get_task : String → Method ScheduledTask
get_task = require_task

list_tasks : Method (List ScheduledTask)
list_tasks = gets (λ s. values s.tasks)

-- `task.next_run is not None and task.next_run <= now`
abbrev pub has_come : Option ℕ → ℕ → Bool
has_come none now = false
has_come (some t) now = leb t now

unfoldable pub is_due : ℕ → ScheduledTask → Bool
is_due now task = task.enabled && has_come task.next_run now

-- The key `(_PRIORITY_ORDER[task.priority], task.next_run)`; the tasks compared have a next run.
abbrev pub run_key : Option ℕ → ℕ
run_key none = 0
run_key (some t) = t

abbrev pub goes_before : ScheduledTask → ScheduledTask → Bool
goes_before a b =
    let p = priority_order a.priority in
    let q = priority_order b.priority in
    if ltb p q
    then true
    else if ltb q p
    then false
    else leb (run_key a.next_run) (run_key b.next_run)

unfoldable pub due_tasks : ℕ → Dict String ScheduledTask → List ScheduledTask
due_tasks now tasks = sort goes_before (select (is_due now) (values tasks))

abbrev pub rescheduled : ℕ → ScheduledTask → ScheduledTask
rescheduled now task = record task {
  next_run = next_fire_time task.trigger now;
  last_run = some now;
}

-- A task that was cancelled meanwhile is left out.
unfoldable pub finish : String → ℕ → Method Unit
finish id now s = elim (lookup id s.tasks) [
  | none ↦ (ok tt, s)
  | some current ↦ (ok tt, record s { tasks = insert id (rescheduled now current) s.tasks })
]

module _ (invoke : ℕ → Scheduler → Option String × Scheduler) where
  -- What follows the call of the callback. Of the error its text is kept.
  abbrev settle : ScheduledTask → ℕ → Option String → Method Unit
  settle task now none = do finish task.id now; publish EventType.task_completed (task_payload task)
  settle task now (some error) = do
    finish task.id now
    publish EventType.task_failed (task_payload task ++ ("error", text error) ∷ [])

  unfoldable pub run_one : ScheduledTask → ℕ → Method Unit
  unfolding publish finish
  run_one task now = do
    publish EventType.task_started (task_payload task)
    λ s. let (outcome, s') = invoke task.callback s in settle task now outcome s'

  unfoldable pub run_all : List ScheduledTask → ℕ → Method Unit
  run_all [] now = pure tt
  run_all (task ∷ rest) now = do run_one task now; run_all rest now

  unfoldable pub tick : ℕ → Method ℕ
  unfolding require_state publish
  tick now = do
    require_state LifecycleState.running scheduler_error
    due ← gets (λ s. due_tasks now s.tasks)
    run_all due now
    publish EventType.scheduler_tick (("now", number now) ∷ ("executed", number (length due)) ∷ [])
    pure (length due)
