-- ===== src/Events/Bus/Dispatch.antt =====
-- Which handlers a publication calls (argus/events/event_bus.py, publish and dispatch).
use argus_os.Prelude.{
  ◌≡◌, refl, Bool, true, false, List, [], ◌∷◌, Result, ok, err, arith, if◌then◌else◌, Bool-cases,
  inl, inr, is_empty,
}
use argus_os.Events.{Event}
use argus_os.Events.Bus.{
  Handler, Bus, BusError, validation_error, handler_error, Method, handlers_of, call_all, publish,
}

-- The handlers up to and with the first one that raises.
abbrev pub up_to_failure : (Handler → Bool) → List Handler → List Handler
up_to_failure fails [] = []
up_to_failure fails (h ∷ hs) = h ∷ (if fails h then [] else up_to_failure fails hs)

abbrev pub some_fails : (Handler → Bool) → List Handler → Bool
some_fails fails [] = false
some_fails fails (h ∷ hs) = if fails h then true else some_fails fails hs

-- The calls `hs` made after the calls `cs`, where the last call stands first.
abbrev pub called_after : List Handler → List Handler → List Handler
called_after [] cs = cs
called_after (h ∷ hs) cs = called_after hs (h ∷ cs)

-- Handlers may change who is subscribed, in any way; those that `fails` names raise. A handler
-- does not itself publish.
pub record Behaves (invoke : Handler → Event → Method Unit) (fails : Handler → Bool) (e : Event)
    : Type 0 where
  pub outcome :
      (h : Handler) (b : Bus) → (invoke h e b).0 ≡ (if fails h then err handler_error else ok tt)
  pub quiet : (h : Handler) (b : Bus) → (invoke h e b).1.calls ≡ b.calls

abbrev pub outcome_of : Bool → Result BusError Unit
outcome_of c = if c then err handler_error else ok tt

module _ (invoke : Handler → Event → Method Unit) (fails : Handler → Bool) (e : Event)
    (w : Behaves invoke fails e) where
  call_all_lem :
      (hs : List Handler) (b : Bus)
      → ((call_all invoke hs e b).0 ≡ outcome_of (some_fails fails hs))
        × ((call_all invoke hs e b).1.calls ≡ called_after (up_to_failure fails hs) b.calls)
  unfolding call_all
  call_all_lem [] b = (refl, refl)
  call_all_lem (h ∷ hs) b =
      let b' : Bus = record b { calls = h ∷ b.calls } in
      ground (arith, w.outcome h b', w.quiet h b', call_all_lem hs (invoke h e b').1)

  -- If handlers raise or return as `fails` says, change subscriptions as they like and publish
  -- nothing themselves, an event with a source is given to the handlers that are subscribed to its type when it is
  -- published, each once and in the order of subscription, whatever the handlers do to the
  -- subscriptions meanwhile; the first handler that raises ends this, and `publish` raises.
  -- An event with an empty source is given to none.
  pub publish_calls :
      (b : Bus)
      → ((publish invoke e b).0 ≡ (
          if is_empty e.source
          then err validation_error
          else outcome_of (some_fails fails (handlers_of e.type b))))
        × ((publish invoke e b).1.calls ≡ (
            if is_empty e.source
            then b.calls
            else called_after (up_to_failure fails (handlers_of e.type b)) b.calls))
  unfolding publish
  publish_calls b = elim (Bool-cases (is_empty e.source)) [
    | inl bad ↦ rw bad (refl, refl)
    | inr good ↦ rw good (call_all_lem (handlers_of e.type b) b)
  ]
