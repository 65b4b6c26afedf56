-- ===== src/Connectors/Paired.antt =====
-- argus/connectors/manager.py: the two dicts of the manager.
use argus_os.Prelude.{
  String, Bool, ◌≡◌, refl, true, false, List, [], ◌∷◌, Result, ok, err, arith, inl, inr, string_eq,
  eq_iff, Option-cases,
}
use argus_os.Prelude.Dict.{lookup, insert, contains, lookup-insert, lookup-erase}
use argus_os.Events.{Payload}
use argus_os.Connectors.{
  Connector, ConnectorError, key_error, IConnector, Reply, ConnectorManager, require_connector,
  publish, note_outcome, use_connector,
}
use argus_os.Connectors

module _ (I : Type 0) (behind : IConnector I) where
  pub data Call : Type 0 where
    initialize start stop : Call
    register_connector : Connector → I → Call
    unregister_connector enable_connector disable_connector : String → Call
    invoke : (id operation : String) → Payload → Call

  -- Each connector has an implementation, and nothing else has one.
  abbrev pub IsPaired : ConnectorManager I → Type 0
  IsPaired m = (k : String) → contains k m.connectors ≡ contains k m.implementations

  abbrev pub is_key_error : ConnectorError → Bool
  is_key_error key_error = true
  is_key_error _ = false

  abbrev pub raises_key_error : {A : Type 0} → Result ConnectorError A → Bool
  raises_key_error (ok a) = false
  raises_key_error (err e) = is_key_error e

  register-IsPaired :
      (c : Connector) (implementation : I) (m : ConnectorManager I)
      → IsPaired m
      → IsPaired (Connectors.register_connector I behind c implementation m).1
  unfolding Connectors.register_connector publish
  register-IsPaired c implementation m h k = ground (
    arith,
    h k,
    lookup-insert c.id k c m.connectors,
    lookup-insert c.id k implementation m.implementations,
  )

  unregister-IsPaired :
      (id : String) (m : ConnectorManager I)
      → IsPaired m
      → IsPaired (Connectors.unregister_connector I behind id m).1
  unfolding Connectors.unregister_connector require_connector
  unregister-IsPaired id m h k =
      ground (arith, h k, h id, lookup-erase id k m.connectors, lookup-erase id k m.implementations)

  unregister-clean :
      (id : String) (m : ConnectorManager I)
      → IsPaired m
      → raises_key_error (Connectors.unregister_connector I behind id m).0 ≡ false
  unfolding Connectors.unregister_connector require_connector
  unregister-clean id m h = ground (arith, h id)

  abbrev switched : Bool → Connector → Connector
  switched on c = record c { enabled = on }

  switch-IsPaired :
      (id : String) (m : ConnectorManager I)
      → IsPaired m
      → IsPaired (Connectors.enable_connector I behind id m).1
        × IsPaired (Connectors.disable_connector I behind id m).1
  unfolding Connectors.enable_connector Connectors.disable_connector require_connector publish
  switch-IsPaired id m h = elim (Option-cases (lookup id m.connectors)) [
    | inl gone ↦ (λ k. ground (arith, gone, h k), λ k. ground (arith, gone, h k))
    | inr (c, found) ↦ (
      λ k.
          ground (
            arith,
            found,
            h k,
            h id,
            eq_iff id k,
            lookup-insert id k (switched true c) m.connectors,
          ),
      λ k. ground (
        arith,
        found,
        h k,
        h id,
        eq_iff id k,
        lookup-insert id k (switched false c) m.connectors,
      ),
    )
  ]

  note_outcome_keeps :
      (id operation : String) (r : Result String Reply) (m : ConnectorManager I)
      → ((note_outcome I behind id operation r m).1.connectors ≡ m.connectors)
        × (((note_outcome I behind id operation r m).1.implementations ≡ m.implementations)
            × (raises_key_error (note_outcome I behind id operation r m).0 ≡ false))
  unfolding note_outcome publish
  note_outcome_keeps id operation (ok p) m = (refl, (refl, refl))
  note_outcome_keeps id operation (err e) m = (refl, (refl, refl))

  invoke-IsPaired :
      (id operation : String) (payload : Payload) (m : ConnectorManager I)
      → IsPaired m
      → IsPaired (Connectors.invoke I behind id operation payload m).1
  unfolding Connectors.invoke require_connector
  invoke-IsPaired id operation payload m h = elim (Option-cases (lookup id m.implementations)) [
    | inl gone ↦ λ k. ground (arith, gone, h k)
    | inr (x, found) ↦
        let r = (use_connector I behind operation payload x).0 in
        let after = (use_connector I behind operation payload x).1 in
        let kept =
          note_outcome_keeps id operation r
            (record m { implementations = insert id after m.implementations }) in
        λ k.
          ground
            (arith, found, kept, h k, h id, eq_iff id k, lookup-insert id k after m.implementations)
  ]

  invoke-clean :
      (id operation : String) (payload : Payload) (m : ConnectorManager I)
      → IsPaired m
      → raises_key_error (Connectors.invoke I behind id operation payload m).0 ≡ false
  unfolding Connectors.invoke require_connector
  invoke-clean id operation payload m h = elim (Option-cases (lookup id m.implementations)) [
    | inl gone ↦ ground (arith, gone, h id)
    | inr (x, found) ↦
        let r = (use_connector I behind operation payload x).0 in
        let after = (use_connector I behind operation payload x).1 in
        let kept =
          note_outcome_keeps id operation r
            (record m { implementations = insert id after m.implementations }) in
        ground (arith, found, kept)
  ]

  lifecycle-IsPaired :
      (m : ConnectorManager I)
      → IsPaired m
      → IsPaired (Connectors.initialize I behind m).1
        × (IsPaired (Connectors.start I behind m).1 × IsPaired (Connectors.stop I behind m).1)
  unfolding Connectors.initialize Connectors.start Connectors.stop Connectors.assign
  lifecycle-IsPaired m h =
      (λ k. ground (arith, h k), (λ k. ground (arith, h k), λ k. ground (arith, h k)))

  unfoldable pub call : Call → ConnectorManager I → ConnectorManager I
  call Call.initialize m = (Connectors.initialize I behind m).1
  call Call.start m = (Connectors.start I behind m).1
  call Call.stop m = (Connectors.stop I behind m).1
  call (Call.register_connector c x) m = (Connectors.register_connector I behind c x m).1
  call (Call.unregister_connector id) m = (Connectors.unregister_connector I behind id m).1
  call (Call.enable_connector id) m = (Connectors.enable_connector I behind id m).1
  call (Call.disable_connector id) m = (Connectors.disable_connector I behind id m).1
  call (Call.invoke id operation payload) m = (Connectors.invoke I behind id operation payload m).1

  unfoldable pub run : List Call → ConnectorManager I → ConnectorManager I
  run [] m = m
  run (c ∷ cs) m = run cs (call c m)

  call-IsPaired : (c : Call) (m : ConnectorManager I) → IsPaired m → IsPaired (call c m)
  unfolding call
  call-IsPaired Call.initialize m h = (lifecycle-IsPaired m h).0
  call-IsPaired Call.start m h = (lifecycle-IsPaired m h).1.0
  call-IsPaired Call.stop m h = (lifecycle-IsPaired m h).1.1
  call-IsPaired (Call.register_connector c x) m h = register-IsPaired c x m h
  call-IsPaired (Call.unregister_connector id) m h = unregister-IsPaired id m h
  call-IsPaired (Call.enable_connector id) m h = (switch-IsPaired id m h).0
  call-IsPaired (Call.disable_connector id) m h = (switch-IsPaired id m h).1
  call-IsPaired (Call.invoke id operation payload) m h = invoke-IsPaired id operation payload m h

  run-IsPaired : (cs : List Call) (m : ConnectorManager I) → IsPaired m → IsPaired (run cs m)
  unfolding run
  run-IsPaired [] m h = h
  run-IsPaired (c ∷ cs) m h = run-IsPaired cs (call c m) (call-IsPaired c m h)

  -- After any calls, refused or failed, on a manager in which each connector has an implementation and
  -- nothing else has one: that still holds, and neither `unregister_connector` nor `invoke`, for any
  -- arguments, ends with the KeyError of a missing entry.
  pub run_clean :
      (cs : List Call) (id operation : String) (payload : Payload) (m : ConnectorManager I)
      → IsPaired m
      → IsPaired (run cs m)
        × ((raises_key_error (Connectors.unregister_connector I behind id (run cs m)).0 ≡ false)
            × (raises_key_error (Connectors.invoke I behind id operation payload (run cs m)).0
                ≡ false))
  run_clean cs id operation payload m h =
      let paired = run-IsPaired cs m h in
      (
        paired,
        (
          unregister-clean id (run cs m) paired,
          invoke-clean id operation payload (run cs m) paired,
        ),
      )
