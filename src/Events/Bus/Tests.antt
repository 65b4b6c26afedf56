-- ===== src/Events/Bus/Tests.antt =====
-- Small buses, and the theorems at them.
use argus_os.Prelude.{◌≡◌, refl, [], ◌∷◌, ok, err, if◌then◌else◌, eqb, is_empty}
use argus_os.Prelude.Dict.{lookup}
use argus_os.Events.{EventType, Event, same_type, place, type_eq}
use argus_os.Events.Bus.{
  Handler, Bus, BusError, handler_error, Method, handlers_of, is_in, subscribe, unsubscribe,
  publish,
}
use argus_os.Events.Bus.Subscriptions.{IsValid, unsubscribe-subscribe}
use argus_os.Events.Bus.Dispatch.{
  Behaves, up_to_failure, some_fails, called_after, outcome_of, publish_calls,
}

abbrev empty_bus : Bus
empty_bus = record { subscribers = []; calls = [] }

abbrev started : Event
started = record { type = EventType.system_started; source = "runtime"; payload = [] }

abbrev two_handlers : Bus
two_handlers = record { subscribers = (EventType.system_started, 3 ∷ 5 ∷ []) ∷ []; calls = [] }

-- Handler 3 unsubscribes handler 5, and handler 5 raises.
abbrev meddling : Handler → Event → Method Unit
meddling h e b = (if eqb h 5 then err handler_error else ok tt, record b { subscribers = [] })

meddling-Behaves : Behaves meddling (λ h. eqb h 5) started
meddling-Behaves = record { outcome = λ h b. refl; quiet = λ h b. refl }

publish_calls_example :
    ((publish meddling started two_handlers).0 ≡ (
      if is_empty "runtime"
      then err BusError.validation_error
      else outcome_of
          (some_fails (λ h. eqb h 5) (handlers_of EventType.system_started two_handlers))))
    × ((publish meddling started two_handlers).1.calls ≡ (
        if is_empty "runtime"
        then []
        else called_after
            (up_to_failure (λ h. eqb h 5) (handlers_of EventType.system_started two_handlers))
            []))
publish_calls_example = publish_calls meddling (λ h. eqb h 5) started meddling-Behaves two_handlers

-- Handler 5 is called although handler 3 emptied the subscriptions.
snapshot_test : (publish meddling started two_handlers).1.calls ≡ 5 ∷ 3 ∷ []
unfolding publish is_empty lookup same_type place
snapshot_test = refl

empty_bus-IsValid : IsValid empty_bus
unfolding lookup
empty_bus-IsValid = record { once = λ t. tt }

unsubscribe-subscribe_example :
    ((subscribe EventType.task_failed 4 empty_bus).0 ≡ ok tt)
    × ((unsubscribe EventType.task_failed 4 (subscribe EventType.task_failed 4 empty_bus).1).0
        ≡ ok tt)
    × ((j : EventType)
        → handlers_of j
            (unsubscribe EventType.task_failed 4 (subscribe EventType.task_failed 4 empty_bus).1).1
          ≡ handlers_of j empty_bus)
unfolding lookup is_in
unsubscribe-subscribe_example = unsubscribe-subscribe EventType.task_failed 4 empty_bus refl
