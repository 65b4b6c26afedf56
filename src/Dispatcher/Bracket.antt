-- ===== src/Dispatcher/Bracket.antt =====
-- argus/dispatcher/dispatcher.py: how every dispatch begins and ends.
use argus_os.Prelude.{
  String, Bool, ◌≡◌, refl, true, false, Option, none, some, List, [], ◌∷◌, ◌++◌, Result, ok, err,
  arith, inl, inr, Option-cases, Result-cases,
}
use argus_os.Prelude.Lists.{All}
use argus_os.Lifecycle.{LifecycleState}
use argus_os.Events.{EventType, Event, Payload, text}
use argus_os.Planner.{Intent}
use argus_os.Capabilities.{Capability, find_by_intent_type}
use argus_os.Workflow.{Context, WorkflowError}
use argus_os.Dispatcher.{
  Action, IntentDispatcher, DispatcherError, no_capability, action_execution, intent_payload,
  publish, publish_failed, first_enabled, resolve, with_failure, publish_selected, run_action,
  dispatch,
}

abbrev pub event : EventType → Payload → Event
event type payload = record { type = type; source = "intent_dispatcher"; payload = payload }

abbrev pub failed : Intent → String → Event
failed i stage = event EventType.dispatch_failed (intent_payload i ++ ("stage", text stage) ∷ [])

-- The event that ends a dispatch.
abbrev pub is_last : EventType → Bool
is_last EventType.dispatch_completed = true
is_last EventType.dispatch_failed = true
is_last _ = false

-- COMPLETED where it answers, FAILED with the stage where it raises.
abbrev pub Ends : Intent → Result DispatcherError Context → Event → Type 0
Ends i (ok c) e = e ≡ event EventType.dispatch_completed (intent_payload i)
Ends i (err x) e = (stage : String) × (e ≡ failed i stage)

-- The registry and the lifecycle state stay, and the new events are INTENT_DISPATCHED, others that
-- do not end a dispatch, and one that does.
abbrev pub Bracketed :
    Intent → IntentDispatcher → Result DispatcherError Context → IntentDispatcher → Type 0
Bracketed i d r t =
    (t.registry ≡ d.registry)
    × ((t.state ≡ d.state)
        × ((last : Event) × ((middle : List Event) × (Ends i r last
                × (All (λ e. is_last e.type ≡ false) middle
                    × (t.published
                        ≡ last ∷ middle
                          ++ event EventType.intent_dispatched (intent_payload i)
                            ∷ d.published))))))

abbrev pub answer : Result WorkflowError Context → Result DispatcherError Context
answer (ok c) = ok c
answer (err e) = err action_execution

module _ (i : Intent) where
  -- The events up to DISPATCH_STARTED.
  abbrev pub selected : Option String → List Event → List Event
  selected none log = log
  selected (some id) log =
      event EventType.workflow_selected (intent_payload i ++ ("workflow_id", text id) ∷ []) ∷ log

  abbrev resolved : Capability → Action → Event
  resolved c a =
      event EventType.action_resolved
        (intent_payload i ++ ("capability_id", text c.id) ∷ ("action_kind", text a.kind) ∷ [])

  abbrev pub middle : Capability → Action → List Event
  middle c a =
      event EventType.dispatch_started (intent_payload i) ∷ selected a.workflow (resolved c a ∷ [])

  abbrev pub last : Result WorkflowError Context → Event
  last (ok c) = event EventType.dispatch_completed (intent_payload i)
  last (err e) = failed i "execute"

  middle-All : (c : Capability) (a : Action) → All (λ e. is_last e.type ≡ false) (middle c a)
  middle-All c a = ground arith

module _ (action_factory : Capability → Result DispatcherError Action) (i : Intent)
    (context : Context) (d : IntentDispatcher) (is_running : d.state ≡ LifecycleState.running) where
  abbrev chosen : Option Capability
  chosen = first_enabled (find_by_intent_type i.name d.registry)

  abbrev begun : List Event
  begun = event EventType.intent_dispatched (intent_payload i) ∷ d.published

  unresolved :
      chosen ≡ none
      → dispatch action_factory i context d
        ≡ (err no_capability, record d { published = failed i "resolve" ∷ begun })
  unfolding dispatch publish publish_failed with_failure resolve
  unresolved h = ground (arith, is_running, h)

  unbuilt :
      (c : Capability) (e : DispatcherError)
      → chosen ≡ some c
      → action_factory c ≡ err e
      → dispatch action_factory i context d
        ≡ (err action_execution, record d { published = failed i "build" ∷ begun })
  unfolding dispatch publish publish_failed with_failure resolve
  unbuilt c e h k = ground (arith, is_running, h, k)

  pub executed :
      (c : Capability) (a : Action)
      → chosen ≡ some c
      → action_factory c ≡ ok a
      → dispatch action_factory i context d ≡ (
        answer (a.execute context d.workflows).0,
        record d {
          workflows = (a.execute context d.workflows).1;
          published = last i (a.execute context d.workflows).0 ∷ middle i c a ++ begun;
        },
      )
  unfolding dispatch publish publish_failed with_failure resolve run_action publish_selected
  executed c a h k = ground (arith, is_running, h, k)

  -- For any factory of actions: a dispatch by a running dispatcher changes neither the registry nor
  -- the lifecycle state; its first event is INTENT_DISPATCHED; it ends with COMPLETED where it
  -- answers and with FAILED where it raises, and publishes neither of these before.
  pub dispatch-Bracketed :
      Bracketed i d (dispatch action_factory i context d).0 (dispatch action_factory i context d).1
  dispatch-Bracketed = elim (Option-cases chosen) [
    | inl gone ↦
        rw (unresolved gone)
          (refl, (refl, (failed i "resolve", ([], (("resolve", refl), (tt, refl))))))
    | inr (c, found) ↦ elim (Result-cases (action_factory c)) [
      | inr (e, refused) ↦
          rw (unbuilt c e found refused)
            (refl, (refl, (failed i "build", ([], (("build", refl), (tt, refl))))))
      | inl (a, built) ↦ elim (Result-cases (a.execute context d.workflows).0) [
        | inl (ctx, done) ↦
            rw (executed c a found built, done)
              (
                refl,
                (
                  refl,
                  (
                    event EventType.dispatch_completed (intent_payload i),
                    (middle i c a, (refl, (middle-All i c a, refl))),
                  ),
                ),
              )
        | inr (e, broke) ↦
            rw (executed c a found built, broke)
              (
                refl,
                (
                  refl,
                  (
                    failed i "execute",
                    (middle i c a, (("execute", refl), (middle-All i c a, refl))),
                  ),
                ),
              )
      ]
    ]
  ]
