-- ===== src/Registry/View.antt =====
-- What argus/services/service_registry.py promises, without the order in which it lists: a partial
-- function from names to descriptors.
use argus_os.Prelude.{
  String, true, false, ◌≡◌, refl, sym, ap, Option, none, some, List, [], ◌∷◌, Result, ok, err,
  is_some, is_empty, string_eq, arith, if◌then◌else◌, ◌==◌, ◌||◌, Bool-cases, inl, inr,
}
use argus_os.Prelude.Dict.{lookup, insert, erase, lookup-insert, lookup-erase}
use argus_os.Registry.{
  ServiceDescriptor, ServiceRegistry, RegistryError, service_not_found, service_registration_error,
}
use argus_os.Registry

-- A call of one method, as a value.
pub data Call (I : Type 0) : Type 0 where
  register : ServiceDescriptor I → Call I
  unregister : String → Call I

abbrev pub Partial : Type 0 → Type 0
Partial I = String → Option (ServiceDescriptor I)

module _ {I : Type 0} where
  pub call : Call I → ServiceRegistry I → Result RegistryError Unit × ServiceRegistry I
  call (Call.register d) r = Registry.register d r
  call (Call.unregister name) r = Registry.unregister name r

  -- The answers of the calls, and the registry in the end.
  pub run : List (Call I) → ServiceRegistry I → List (Result RegistryError Unit) × ServiceRegistry I
  run [] r = ([], r)
  run (c ∷ cs) r = let (a, s) = call c r in let (rest, t) = run cs s in (a ∷ rest, t)

  -- The calls on a partial function: a name is set once, and taken back.
  pub call_partial : Call I → Partial I → Result RegistryError Unit × Partial I
  call_partial (Call.register d) m =
      if is_empty d.name || is_some (m d.name)
      then (err service_registration_error, m)
      else (ok tt, λ k. if d.name == k then some d else m k)
  call_partial (Call.unregister name) m =
      if is_some (m name)
      then (ok tt, λ k. if name == k then none else m k)
      else (err service_not_found, m)

  pub run_partial : List (Call I) → Partial I → List (Result RegistryError Unit) × Partial I
  run_partial [] m = ([], m)
  run_partial (c ∷ cs) m =
      let (a, n) = call_partial c m in let (rest, o) = run_partial cs n in (a ∷ rest, o)

  abbrev pub view : ServiceRegistry I → Partial I
  view r k = lookup k r

  module _ (d : ServiceDescriptor I) (r : ServiceRegistry I) where
    register_refused :
        is_empty d.name || is_some (lookup d.name r) ≡ true
        → Registry.register d r ≡ (err service_registration_error, r)
    unfolding Registry.register
    register_refused e = ground arith

    register_accepted :
        is_empty d.name || is_some (lookup d.name r) ≡ false
        → Registry.register d r ≡ (ok tt, insert d.name d r)
    unfolding Registry.register
    register_accepted e = ground arith

  module _ (name : String) (r : ServiceRegistry I) where
    unregister_accepted :
        is_some (lookup name r) ≡ true → Registry.unregister name r ≡ (ok tt, erase name r)
    unfolding Registry.unregister
    unregister_accepted e = ground arith

    unregister_refused :
        is_some (lookup name r) ≡ false → Registry.unregister name r ≡ (err service_not_found, r)
    unfolding Registry.unregister
    unregister_refused e = ground arith

  call-view :
      (c : Call I) (r : ServiceRegistry I)
      → call_partial c (view r) ≡ ((call c r).0, view (call c r).1)
  unfolding call call_partial
  call-view (Call.register d) r = elim (Bool-cases (is_empty d.name || is_some (lookup d.name r))) [
    | inl e ↦ rw (call, call_partial, e, register_refused d r e)
    | inr e ↦
        rw (call, call_partial, e, register_accepted d r e)
          (ap (λ (m : Partial I). (ok tt, m)) (λ i k. sym (lookup-insert d.name k d r) i))
  ]
  call-view (Call.unregister name) r = elim (Bool-cases (is_some (lookup name r))) [
    | inl e ↦
        rw (call, call_partial, e, unregister_accepted name r e)
          (ap (λ (m : Partial I). (ok tt, m)) (λ i k. sym (lookup-erase name k r) i))
    | inr e ↦ rw (call, call_partial, e, unregister_refused name r e)
  ]

  -- Any sequence of calls gives the answers that a partial function from names gives, where a name is
  -- refused if it is empty or set, and taken back only if it is set; and in the end the registry
  -- finds under every name what that function has there.
  pub run-view :
      (cs : List (Call I)) (r : ServiceRegistry I)
      → run_partial cs (view r) ≡ ((run cs r).0, view (run cs r).1)
  unfolding run run_partial
  run-view [] r = refl
  run-view (c ∷ cs) r = rw (run_partial, call-view c r, run-view cs (call c r).1)
