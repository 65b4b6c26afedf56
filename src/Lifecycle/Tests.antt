-- ===== src/Lifecycle/Tests.antt =====
-- A small manager, and the theorems at it.
use argus_os.Prelude.{◌≡◌, refl, List, [], ◌∷◌, is_empty, string_eq, arith}
use argus_os.Prelude.Dict.{lookup, insert}
use argus_os.Lifecycle.{LifecycleState, LifecycleManager, running, stopped, failed}
use argus_os.Lifecycle
use argus_os.Lifecycle.Edges.{Reaches}
use argus_os.Lifecycle.Manager.{
  Call, call, run, state_of, IsStored, by_table, call-eq-by_table, run-Reaches,
}

abbrev no_services : LifecycleManager
no_services = []

no_services-IsStored : IsStored no_services
unfolding lookup
no_services-IsStored = record { not_created = λ n e. cc }

-- The second start and the call for an unknown name are refused.
abbrev script : List Call
script =
    Call.register "bus"
    ∷ Call.initialize "bus"
    ∷ Call.start "bus"
    ∷ Call.start "bus"
    ∷ Call.stop "disk"
    ∷ Call.stop "bus"
    ∷ []

script_test : run script no_services ≡ ("bus", stopped) ∷ []
unfolding run call Lifecycle.register Lifecycle.initialize Lifecycle.start Lifecycle.stop is_empty
    lookup insert
script_test = refl

abbrev one_running : LifecycleManager
one_running = ("bus", running) ∷ []

call-eq-by_table_example :
    call (Call.stop "bus") no_services ≡ by_table (Call.stop "bus") no_services
call-eq-by_table_example = call-eq-by_table (Call.stop "bus") no_services no_services-IsStored

run-Reaches_example : Reaches (state_of "bus" no_services) (state_of "bus" (run script no_services))
run-Reaches_example = run-Reaches script no_services "bus" no_services-IsStored

abbrev one_failed : LifecycleManager
one_failed = ("bus", failed) ∷ []

one_failed-IsStored : IsStored one_failed
unfolding lookup
one_failed-IsStored = record { not_created = λ n e. ground arith }
