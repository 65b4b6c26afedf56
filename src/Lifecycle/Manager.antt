-- ===== src/Lifecycle/Manager.antt =====
-- What the methods of LifecycleManager (argus/lifecycle/lifecycle.py) do to the state of each
-- service, in any order of calls.
use argus_os.Prelude.{
  String, ◌≡◌, ◌≢◌, inl, inr, Bool, true, false, Option, none, some, List, [], ◌∷◌, ok, err,
  is_empty, string_eq, eq_iff, arith, Bool-cases, if◌then◌else◌, ◌==◌,
}
use argus_os.Prelude.Dict.{lookup, insert, lookup-insert, insert-insert}
use argus_os.Lifecycle.{
  LifecycleState, created, registered, initializing, running, stopping, stopped, failed,
  LifecycleError, lifecycle_error, invalid_state_transition, LifecycleManager, Method,
}
use argus_os.Lifecycle
use argus_os.Lifecycle.Edges.{
  register_edge, initialize_edge, start_edge, stop_edge, stopped_edge, fail_registered,
  fail_initializing, fail_running, fail_stopping, Reaches, here, next, Reaches-trans, IsTerminal,
  Reaches-IsTerminal,
}

-- A service that the manager does not know is CREATED.
abbrev known_state : Option LifecycleState → LifecycleState
known_state none = created
known_state (some s) = s

abbrev pub state_of : String → LifecycleManager → LifecycleState
state_of name m = known_state (lookup name m)

-- One of the calls that change a state.
pub data Call : Type 0 where
  register initialize start stop fail : String → Call

abbrev pub target : Call → String
target (Call.register n) = n
target (Call.initialize n) = n
target (Call.start n) = n
target (Call.stop n) = n
target (Call.fail n) = n

unfoldable pub call : Call → Method Unit
call (Call.register n) = Lifecycle.register n
call (Call.initialize n) = Lifecycle.initialize n
call (Call.start n) = Lifecycle.start n
call (Call.stop n) = Lifecycle.stop n
call (Call.fail n) = Lifecycle.fail n

-- The calls in order; one that raises is caught by the caller, and the next is made.
unfoldable pub run : List Call → LifecycleManager → LifecycleManager
unfolding call
run [] m = m
run (c ∷ cs) m = run cs (call c m).1

-- The states in which a call is accepted, and the state that it leaves.
abbrev pub accepted : Call → LifecycleState → Option LifecycleState
accepted (Call.register n) created = some registered
accepted (Call.initialize n) registered = some initializing
accepted (Call.start n) initializing = some running
accepted (Call.stop n) running = some stopped
accepted (Call.fail n) registered = some failed
accepted (Call.fail n) initializing = some failed
accepted (Call.fail n) running = some failed
accepted (Call.fail n) stopping = some failed
accepted _ _ = none

-- CREATED is never stored: it stands for a name that is not known.
pub record IsStored (m : LifecycleManager) : Type 0 where
  pub not_created : (n : String) → lookup n m ≡ some created → ⊥

-- The table as a method: a call with an empty name or in a wrong state raises and changes
-- nothing, any other writes the state of its service.
abbrev pub by_table : Call → Method Unit
by_table c m =
    if is_empty (target c)
    then (err lifecycle_error, m)
    else elim (accepted c (state_of (target c) m)) [
      | none ↦ (err invalid_state_transition, m)
      | some s ↦ (ok tt, insert (target c) s m)
    ]

-- In a manager that stores no CREATED, each call is the table: an empty name or a wrong state raises
-- and changes nothing, and an accepted call writes exactly the state that the table names.
pub call-eq-by_table : (c : Call) (m : LifecycleManager) → IsStored m → call c m ≡ by_table c m
unfolding call Lifecycle.register Lifecycle.initialize Lifecycle.start Lifecycle.stop Lifecycle.fail
call-eq-by_table (Call.register n) m h = ground (arith, h.not_created n)
call-eq-by_table (Call.initialize n) m h = ground (arith, h.not_created n)
call-eq-by_table (Call.start n) m h = ground (arith, h.not_created n)
call-eq-by_table (Call.stop n) m h = ground (arith, insert-insert n stopped stopping m)
call-eq-by_table (Call.fail n) m h = ground (arith, h.not_created n)

-- The state that a call leaves, if it is accepted.
abbrev after_call : Call → LifecycleManager → Option LifecycleState
after_call c m = if is_empty (target c) then none else accepted c (state_of (target c) m)

abbrev write : String → Option LifecycleState → LifecycleManager → LifecycleManager
write n none m = m
write n (some s) m = insert n s m

call-write :
    (c : Call) (m : LifecycleManager)
    → IsStored m
    → (call c m).1 ≡ write (target c) (after_call c m) m
call-write c m h = ground (arith, call-eq-by_table c m h)

-- What a call may leave: a state that the edges reach, and not CREATED.
abbrev IsLegal : LifecycleState → Option LifecycleState → Type 0
IsLegal s none = Unit
IsLegal s (some t) = Reaches s t × (t ≢ created)

accepted-IsLegal : (c : Call) (s : LifecycleState) → IsLegal s (accepted c s)
accepted-IsLegal (Call.register n) created = (next here register_edge, ground arith)
accepted-IsLegal (Call.initialize n) registered = (next here initialize_edge, ground arith)
accepted-IsLegal (Call.start n) initializing = (next here start_edge, ground arith)
accepted-IsLegal (Call.stop n) running = (next (next here stop_edge) stopped_edge, ground arith)
accepted-IsLegal (Call.fail n) registered = (next here fail_registered, ground arith)
accepted-IsLegal (Call.fail n) initializing = (next here fail_initializing, ground arith)
accepted-IsLegal (Call.fail n) running = (next here fail_running, ground arith)
accepted-IsLegal (Call.fail n) stopping = (next here fail_stopping, ground arith)
accepted-IsLegal _ _ = tt

IsLegal-if :
    (b : Bool) (s : LifecycleState) (o : Option LifecycleState)
    → IsLegal s o
    → IsLegal s (if b then none else o)
IsLegal-if true s o l = tt
IsLegal-if false s o l = l

after_call-IsLegal :
    (c : Call) (m : LifecycleManager) → IsLegal (state_of (target c) m) (after_call c m)
after_call-IsLegal c m =
    IsLegal-if (is_empty (target c)) _ (accepted c (state_of (target c) m))
      (accepted-IsLegal c (state_of (target c) m))

write-Reaches :
    (k n : String) (o : Option LifecycleState) (m : LifecycleManager)
    → IsLegal (state_of k m) o
    → Reaches (state_of n m) (state_of n (write k o m))
write-Reaches k n none m l = here
write-Reaches k n (some t) m l = elim (Bool-cases (k == n)) [
  | inl same ↦ rw (lookup-insert, same, ← (eq_iff k n).0 same) l.0
  | inr other ↦ rw (lookup-insert, other) here
]

write-IsStored :
    (k : String) (o : Option LifecycleState) (m : LifecycleManager)
    → IsLegal (state_of k m) o
    → IsStored m
    → IsStored (write k o m)
write-IsStored k none m l h = h
write-IsStored k (some t) m l h = record {
  not_created = λ n e. ground (arith, lookup-insert k n t m, h.not_created n);
}

call-IsStored : (c : Call) (m : LifecycleManager) → IsStored m → IsStored (call c m).1
call-IsStored c m h =
    rw (call-write c m h) (write-IsStored (target c) (after_call c m) m (after_call-IsLegal c m) h)

call-Reaches :
    (c : Call) (m : LifecycleManager) (n : String)
    → IsStored m
    → Reaches (state_of n m) (state_of n (call c m).1)
call-Reaches c m n h =
    rw (call-write c m h) (write-Reaches (target c) n (after_call c m) m (after_call-IsLegal c m))

pub run-IsStored : (cs : List Call) (m : LifecycleManager) → IsStored m → IsStored (run cs m)
unfolding run
run-IsStored [] m h = h
run-IsStored (c ∷ cs) m h = run-IsStored cs (call c m).1 (call-IsStored c m h)

-- From a manager that stores no CREATED, whatever calls are made, in whatever order, the state of
-- every service moves along legal edges.
pub run-Reaches :
    (cs : List Call) (m : LifecycleManager) (n : String)
    → IsStored m
    → Reaches (state_of n m) (state_of n (run cs m))
unfolding run
run-Reaches [] m n h = here
run-Reaches (c ∷ cs) m n h =
    Reaches-trans (call-Reaches c m n h) (run-Reaches cs (call c m).1 n (call-IsStored c m h))

-- In a manager that stores no CREATED, a service that is STOPPED or FAILED stays so, whatever calls
-- are made.
run-IsTerminal :
    (cs : List Call) (m : LifecycleManager) (n : String)
    → IsStored m
    → IsTerminal (state_of n m)
    → state_of n (run cs m) ≡ state_of n m
run-IsTerminal cs m n h t = Reaches-IsTerminal (run-Reaches cs m n h) t
