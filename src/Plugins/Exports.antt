-- ===== src/Plugins/Exports.antt =====
-- argus/plugins/manager.py: how the calls change what `list_exported_capabilities` lists.
use mathlib.Core.List.{append_assoc, append-nil}
use argus_os.Prelude.{
  String, Bool, ◌≡◌, true, false, none, some, List, [], ◌∷◌, ◌++◌, arith, inl, inr, ok, err, Result,
  string_eq, Option-cases,
}
use argus_os.Prelude.Dict.{Dict, lookup, insert, values}
use argus_os.Capabilities.{Capability}
use argus_os.Plugins.{
  Plugin, PluginManager, PluginError, publish, validate_plugin, require_plugin, register, enable,
  disable, switched, exports_of, list_exported_capabilities,
}

exports_of-insert :
    (k : String) (p : Plugin) (d : Dict String Plugin)
    → lookup k d ≡ none
    → exports_of (values (insert k p d)) ≡ exports_of (values d) ++ p.exported_capabilities
unfolding exports_of lookup insert
exports_of-insert k p [] h = append-nil p.exported_capabilities
exports_of-insert k p ((j, q) ∷ d) h = ground (
  arith,
  exports_of-insert k p d,
  append_assoc q.exported_capabilities (exports_of (values d)) p.exported_capabilities,
)

exports_of-replace :
    (on : Bool) (k : String) (p : Plugin) (d : Dict String Plugin)
    → lookup k d ≡ some p
    → exports_of (values (insert k (switched on p) d)) ≡ exports_of (values d)
unfolding exports_of lookup insert
exports_of-replace on k p [] h = cc
exports_of-replace on k p ((j, q) ∷ d) h = ground (arith, exports_of-replace on k p d)

-- What the list is after a registration, by its answer.
abbrev exported : Result PluginError Unit → List Capability → List Capability → List Capability
exported (ok u) before own = before ++ own
exported (err e) before own = before

-- A plugin that is registered adds its capabilities at the end of the list, and one that is refused
-- adds none.
register-exports :
    (p : Plugin) (m : PluginManager)
    → list_exported_capabilities (register p m).1
      ≡ exported (register p m).0 (list_exported_capabilities m) p.exported_capabilities
unfolding register validate_plugin publish list_exported_capabilities
register-exports p m = elim (Option-cases (lookup p.id m.plugins)) [
  | inl free ↦ ground (arith, free, exports_of-insert p.id p m.plugins free)
  | inr (q, taken) ↦ ground (arith, taken)
]

-- The capabilities of a plugin are listed whether it is enabled or not.
switch-exports :
    (id : String) (m : PluginManager)
    → (list_exported_capabilities (enable id m).1 ≡ list_exported_capabilities m)
      × (list_exported_capabilities (disable id m).1 ≡ list_exported_capabilities m)
unfolding enable disable require_plugin publish list_exported_capabilities
switch-exports id m = elim (Option-cases (lookup id m.plugins)) [
  | inl gone ↦ (ground (arith, gone), ground (arith, gone))
  | inr (p, found) ↦ (
    ground (arith, found, exports_of-replace true id p m.plugins found),
    ground (arith, found, exports_of-replace false id p m.plugins found),
  )
]
