-- ===== src/Registry/Tests.antt =====
-- A registry of numbers as services.
use argus_os.Prelude.{ℕ, String, ◌≡◌, refl, List, [], ◌∷◌, ok, string_eq}
use argus_os.Prelude.Dict.{lookup}
use argus_os.Registry.{ServiceDescriptor, resolve}
use argus_os.Registry.View.{Call, run, run_partial, view, run-view}

abbrev service : String → ℕ → ServiceDescriptor ℕ
service name n = record {
  name = name;
  instance_object = n;
  interface = "IService";
  version = "1.0";
  metadata = [];
}

abbrev calls : List (Call ℕ)
calls =
    Call.register (service "bus" 1)
    ∷ Call.register (service "bus" 2)
    ∷ Call.register (service "" 3)
    ∷ Call.unregister "shell"
    ∷ Call.unregister "bus"
    ∷ Call.register (service "bus" 4)
    ∷ []

run-view_example : run_partial calls (view []) ≡ ((run calls []).0, view (run calls []).1)
run-view_example = run-view calls []

-- A service that is registered is found.
resolve_test : (resolve "bus" (("bus", service "bus" 4) ∷ [])).0 ≡ ok 4
unfolding resolve lookup
resolve_test = refl
