-- ===== src/Scheduler/Triggers.antt =====
-- argus/scheduler/triggers.py. A time is a number of microseconds since a midnight (UTC).
-- `interval_seconds` is a number of nanoseconds here; `timedelta` rounds it to microseconds, half
-- to even. Times are not bounded, and an interval is a whole number of nanoseconds: the overflow of
-- `datetime` and `timedelta`, which raises, and finer float intervals are outside of the model.
use argus_os.Prelude.{
  ℕ, ◌+◌, ◌*◌, ◌/◌, ◌%◌, ◌≤◌, ◌<◌, ◌≡◌, Option, none, some, Result, ok, err, arith, ltb, leb, eqb,
  if◌then◌else◌,
}

pub data Trigger : Type 0 where
  one_shot : (run_at : ℕ) → Trigger
  interval : (nanoseconds : ℕ) (start_at : Option ℕ) → Trigger
  daily : (hour minute second : ℕ) → Trigger

pub data TriggerError : Type 0 where
  invalid_trigger : TriggerError

-- `timedelta(seconds=…)`
abbrev pub to_microseconds : ℕ → ℕ
to_microseconds n =
    let q = n / 1000 in
    let r = n % 1000 in
    if ltb r 500 then q else if ltb 500 r then q + 1 else if eqb (q % 2) 0 then q else q + 1

-- The three `__post_init__` methods.
unfoldable pub make : Trigger → Result TriggerError Trigger
make (one_shot run_at) = ok (one_shot run_at)
make (interval n start_at) = if leb n 0 then err invalid_trigger else ok (interval n start_at)
make (daily hour minute second) =
    if leb hour 23
    then (if leb minute 59
        then (if leb second 59 then ok (daily hour minute second) else err invalid_trigger)
        else err invalid_trigger)
    else err invalid_trigger

abbrev pub day : ℕ
day = 86_400_000_000

abbrev pub time_of_day : ℕ → ℕ → ℕ → ℕ
time_of_day hour minute second = ((hour * 60 + minute) * 60 + second) * 1_000_000

-- `self.start_at if self.start_at is not None and self.start_at > after`
abbrev interval_from : ℕ → Option ℕ → ℕ → ℕ
interval_from n none after = after + to_microseconds n
interval_from n (some start_at) after =
    if ltb after start_at then start_at else after + to_microseconds n

-- `after.replace(hour=…, minute=…, second=…, microsecond=0)`
abbrev candidate : ℕ → ℕ → ℕ
candidate time after = (after / day) * day + time

unfoldable pub next_fire_time : Trigger → ℕ → Option ℕ
next_fire_time (one_shot run_at) after = if ltb after run_at then some run_at else none
next_fire_time (interval n start_at) after = some (interval_from n start_at after)
next_fire_time (daily hour minute second) after =
    let c = candidate (time_of_day hour minute second) after in
    if leb c after then some (c + day) else some c

-- The interval is longer than half a microsecond; the other triggers are as `make` leaves them.
abbrev pub IsValid : Trigger → Type 0
IsValid (one_shot run_at) = Unit
IsValid (interval n start_at) = 500 < n
IsValid (daily hour minute second) = (hour < 24) × (minute < 60) × (second < 60)

-- A valid trigger (an interval longer than half a microsecond) fires strictly after the given time,
-- if it fires again.
pub next_fire_time_later :
    (trigger : Trigger) (after t : ℕ)
    → IsValid trigger
    → next_fire_time trigger after ≡ some t
    → after < t
unfolding next_fire_time
next_fire_time_later (one_shot run_at) after t v h = ground arith
next_fire_time_later (interval n none) after t v h = ground arith
next_fire_time_later (interval n (some start_at)) after t v h = ground arith
next_fire_time_later (daily hour minute second) after t v h = ground arith

-- A valid daily trigger fires at most one day after the given time, and at its time of day.
next_fire_time-daily :
    (hour minute second after t : ℕ)
    → IsValid (daily hour minute second)
    → next_fire_time (daily hour minute second) after ≡ some t
    → (t ≤ after + day) × (t % day ≡ time_of_day hour minute second)
unfolding next_fire_time
next_fire_time-daily hour minute second after t v h = ground arith

-- The interval does not wait for its start.
abbrev pub HasStarted : Option ℕ → ℕ → Type 0
HasStarted none after = Unit
HasStarted (some start_at) after = start_at ≤ after

-- An interval above zero and of half a microsecond or less is accepted with any `start_at`; where
-- it has no `start_at`, or one that is not later than the given time, it fires again at that very
-- time.
pub next_fire_time_stands :
    (n : ℕ) (start_at : Option ℕ) (after : ℕ)
    → 0 < n
    → n ≤ 500
    → HasStarted start_at after
    → (make (interval n start_at) ≡ ok (interval n start_at))
      × (next_fire_time (interval n start_at) after ≡ some after)
unfolding make next_fire_time
next_fire_time_stands n none after p q h = ground arith
next_fire_time_stands n (some start_at) after p q h = ground arith
