-- ===== src/Lifecycle.antt =====
-- argus/lifecycle/lifecycle.py: the states of a service, and the manager that holds one state for
-- each service name. CREATED is the state of a name that the manager does not know.
pub mod Edges
pub mod Manager
mod Tests
use argus_os.Prelude.{
  String, Bool, true, false, not, Option, none, some, Exec, pure, raise, gets, modify, guard,
  or_raise, ◌>>=◌, ◌>>◌, is_some, is_empty, string_eq, ◌≡◌, refl,
}
use argus_os.Prelude.Dict.{Dict, lookup, insert}

pub data LifecycleState : Type 0 where
  created registered initializing running stopping stopped failed : LifecycleState

-- `==` on the enumeration
unfoldable pub same_state : LifecycleState → LifecycleState → Bool
same_state created created = true
same_state registered registered = true
same_state initializing initializing = true
same_state running running = true
same_state stopping stopping = true
same_state stopped stopped = true
same_state failed failed = true
same_state _ _ = false

pub same_state_eq : (s : LifecycleState) → same_state s running ≡ true → s ≡ running
unfolding same_state
same_state_eq running e = refl
same_state_eq _ e = cc

-- `current in _FAILABLE_STATES`, where `None` is in no set of states
unfoldable pub is_failable : Option LifecycleState → Bool
is_failable (some registered) = true
is_failable (some initializing) = true
is_failable (some running) = true
is_failable (some stopping) = true
is_failable _ = false

pub data LifecycleError : Type 0 where
  lifecycle_error invalid_state_transition : LifecycleError

abbrev pub LifecycleManager : Type 0
LifecycleManager = Dict String LifecycleState

abbrev pub Method : Type 0 → Type 0
Method A = Exec LifecycleError LifecycleManager A

unfoldable pub require_name : String → Method Unit
require_name name = guard (not (is_empty name)) lifecycle_error

unfoldable pub is_at : LifecycleState → Option LifecycleState → Bool
unfolding same_state
is_at required none = false
is_at required (some s) = same_state s required

unfoldable pub transition : String → LifecycleState → LifecycleState → Method Unit
unfolding require_name is_at
transition name required target = do
  require_name name
  current ← gets (lookup name)
  guard (is_at required current) invalid_state_transition
  modify (insert name target)

unfoldable pub register : String → Method Unit
unfolding require_name
register name = do
  require_name name
  current ← gets (lookup name)
  guard (not (is_some current)) invalid_state_transition
  modify (insert name registered)

unfoldable pub initialize : String → Method Unit
unfolding transition
initialize name = transition name registered initializing

unfoldable pub start : String → Method Unit
unfolding transition
start name = transition name initializing running

unfoldable pub stop : String → Method Unit
unfolding transition
stop name = do transition name running stopping; modify (insert name stopped)

unfoldable pub fail : String → Method Unit
unfolding require_name is_failable
fail name = do
  require_name name
  current ← gets (lookup name)
  guard (is_failable current) invalid_state_transition
  modify (insert name failed)

unfoldable pub status : String → Method LifecycleState
unfolding require_name
status name = do require_name name; current ← gets (lookup name); or_raise current lifecycle_error
