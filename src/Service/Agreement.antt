-- ===== src/Service/Agreement.antt =====
-- The state that an engine keeps for itself and the state that a LifecycleManager
-- (argus/lifecycle/lifecycle.py) keeps under the engine's name: two copies of one lifecycle, which
-- calls made to both keep in step.
use argus_os.Prelude.{String, ◌≡◌, ◌≢◌, false, List, [], ◌∷◌, map, is_empty, arith, string_eq}
use argus_os.Prelude.Dict.{lookup-insert, beq_refl}
use argus_os.Lifecycle.{
  LifecycleState, created, registered, initializing, running, stopping, stopped, LifecycleManager,
}
use argus_os.Lifecycle.Manager.{Call, call, state_of, IsStored, call-eq-by_table, run-IsStored, run}
use argus_os.Service.{Stateful}
use argus_os.Service

pub data ServiceCall : Type 0 where
  initialize start stop : ServiceCall

-- The call to the manager that goes with a call to the engine.
abbrev pub managed_call : String → ServiceCall → Call
managed_call n ServiceCall.initialize = Call.initialize n
managed_call n ServiceCall.start = Call.start n
managed_call n ServiceCall.stop = Call.stop n

-- An engine begins as CREATED where the manager, which was told its name, has REGISTERED.
abbrev pub managed_state : LifecycleState → LifecycleState
managed_state created = registered
managed_state s = s

-- The state that a call leaves.
abbrev next_state : ServiceCall → LifecycleState → LifecycleState
next_state ServiceCall.initialize created = initializing
next_state ServiceCall.start initializing = running
next_state ServiceCall.stop running = stopped
next_state _ s = s

next_state-ne-registered :
    (c : ServiceCall) (s : LifecycleState) → s ≢ registered → next_state c s ≢ registered
next_state-ne-registered ServiceCall.initialize s r = ground arith
next_state-ne-registered ServiceCall.start s r = ground arith
next_state-ne-registered ServiceCall.stop s r = ground arith

module _ {E S : Type 0} ⦃h : Stateful S⦄ (error : E) where
  pub serve : ServiceCall → S → S
  serve ServiceCall.initialize s = (Service.initialize error s).1
  serve ServiceCall.start s = (Service.start error s).1
  serve ServiceCall.stop s = (Service.stop error s).1

  pub serve_all : List ServiceCall → S → S
  serve_all [] s = s
  serve_all (c ∷ cs) s = serve_all cs (serve c s)

  serve_next : (c : ServiceCall) (s : S) → h.get_state (serve c s) ≡ next_state c (h.get_state s)
  unfolding serve Service.initialize Service.start Service.stop
  serve_next ServiceCall.initialize s = ground (arith, h.get_state-set_state initializing s)
  serve_next ServiceCall.start s = ground (arith, h.get_state-set_state running s)
  serve_next ServiceCall.stop s =
      ground (arith, h.get_state-set_state stopped (h.set_state stopping s))

module _ (n : String) (named : is_empty n ≡ false) where
  manager_next :
      (c : ServiceCall) (s : LifecycleState) (m : LifecycleManager)
      → IsStored m
      → s ≢ registered
      → state_of n m ≡ managed_state s
      → state_of n (call (managed_call n c) m).1 ≡ managed_state (next_state c s)
  manager_next ServiceCall.initialize s m v r e = ground (
    arith,
    call-eq-by_table (Call.initialize n) m v,
    lookup-insert n n initializing m,
    beq_refl n,
  )
  manager_next ServiceCall.start s m v r e =
      ground (arith, call-eq-by_table (Call.start n) m v, lookup-insert n n running m, beq_refl n)
  manager_next ServiceCall.stop s m v r e =
      ground (arith, call-eq-by_table (Call.stop n) m v, lookup-insert n n stopped m, beq_refl n)

  -- Calls of initialize, start and stop, in any order and refused or not, made to an engine (whose
  -- state is never REGISTERED) and to the manager (which stores no CREATED) under its non-empty name:
  -- if their states agreed before, they agree after.
  pub serve_all-agrees :
      {E S : Type 0} ⦃h : Stateful S⦄ (error : E) (cs : List ServiceCall) (s : S)
      (m : LifecycleManager)
      → IsStored m
      → h.get_state s ≢ registered
      → state_of n m ≡ managed_state (h.get_state s)
      → state_of n (run (map (managed_call n) cs) m)
        ≡ managed_state (h.get_state (serve_all error cs s))
  unfolding serve_all run
  serve_all-agrees error [] s m v r e = e
  serve_all-agrees ⦃h⦄ error (c ∷ cs) s m v r e =
      serve_all-agrees error cs (serve error c s) (call (managed_call n c) m).1
        (unfold run in run-IsStored (managed_call n c ∷ []) m v)
        (rw serve_next (next_state-ne-registered c (h.get_state s) r))
        (rw serve_next (manager_next c (h.get_state s) m v r e))
