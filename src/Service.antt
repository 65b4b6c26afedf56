-- ===== src/Service.antt =====
-- The IService part that each engine repeats (initialize, start and stop of
-- argus/workflow/engine.py, argus/scheduler/scheduler.py, argus/knowledge_graph/graph.py and
-- argus/runtime/runtime.py), over an interface to the engine's `_state`.
pub mod Agreement
use argus_os.Prelude.{◌≡◌, Exec, gets, modify, guard, ◌>>=◌, ◌>>◌}
use argus_os.Lifecycle.{
  LifecycleState, created, initializing, running, stopping, stopped, same_state,
}

-- An engine with a `_state` that can be read and assigned.
pub record Stateful (S : Type 0) : Type 0 where
  pub get_state : S → LifecycleState
  pub set_state : LifecycleState → S → S
  pub get_state-set_state : (x : LifecycleState) (s : S) → get_state (set_state x s) ≡ x

module _ {E S : Type 0} ⦃h : Stateful S⦄ where
  -- `if self._state != required: raise error`
  unfoldable pub require_state : LifecycleState → E → Exec E S Unit
  unfolding same_state
  require_state required error = do s ← gets h.get_state; guard (same_state s required) error

  abbrev assign : LifecycleState → Exec E S Unit
  assign x = modify (h.set_state x)

  unfoldable pub initialize : E → Exec E S Unit
  unfolding require_state
  initialize error = do require_state created error; assign initializing

  unfoldable pub start : E → Exec E S Unit
  unfolding require_state
  start error = do require_state initializing error; assign running

  unfoldable pub stop : E → Exec E S Unit
  unfolding require_state
  stop error = do require_state running error; assign stopping; assign stopped
