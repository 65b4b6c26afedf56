-- ===== src/Lifecycle/Edges.antt =====
-- The legal edges of the lifecycle, as the docstrings of argus/lifecycle/lifecycle.py list them,
-- and the states that they reach.
use argus_os.Prelude.{◌≡◌, refl}
use argus_os.Lifecycle.{
  LifecycleState, created, registered, initializing, running, stopping, stopped, failed,
}

pub data Edge : LifecycleState → LifecycleState → Type 0 where
  register_edge : Edge created registered
  initialize_edge : Edge registered initializing
  start_edge : Edge initializing running
  stop_edge : Edge running stopping
  stopped_edge : Edge stopping stopped
  fail_registered : Edge registered failed
  fail_initializing : Edge initializing failed
  fail_running : Edge running failed
  fail_stopping : Edge stopping failed

-- Zero or more edges.
pub data Reaches (s : LifecycleState) : LifecycleState → Type 0 where
  here : Reaches s s
  next : {t u : LifecycleState} → Reaches s t → Edge t u → Reaches s u

pub Reaches-trans : {s t u : LifecycleState} → Reaches s t → Reaches t u → Reaches s u
Reaches-trans r here = r
Reaches-trans r (next q e) = next (Reaches-trans r q) e

abbrev pub IsTerminal : LifecycleState → Type 0
IsTerminal stopped = Unit
IsTerminal failed = Unit
IsTerminal _ = ⊥

Edge-not_terminal : {s t : LifecycleState} → Edge s t → IsTerminal s → ⊥
Edge-not_terminal register_edge h = h
Edge-not_terminal initialize_edge h = h
Edge-not_terminal start_edge h = h
Edge-not_terminal stop_edge h = h
Edge-not_terminal stopped_edge h = h
Edge-not_terminal fail_registered h = h
Edge-not_terminal fail_initializing h = h
Edge-not_terminal fail_running h = h
Edge-not_terminal fail_stopping h = h

pub Reaches-IsTerminal : {s t : LifecycleState} → Reaches s t → IsTerminal s → t ≡ s
Reaches-IsTerminal here h = refl
Reaches-IsTerminal (next r e) h = absurd (Edge-not_terminal e (rw (Reaches-IsTerminal r h) h))
