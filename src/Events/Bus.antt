-- ===== src/Events/Bus.antt =====
-- argus/events/event_bus.py: InMemoryEventBus. Handlers are callables outside of the repository's
-- event package, named by numbers. What a call of a handler does is the parameter `invoke`: it may
-- subscribe and unsubscribe, and it returns or raises.
pub mod Subscriptions
pub mod Dispatch
mod Tests
use argus_os.Prelude.{
  ℕ, String, Bool, true, false, not, Option, none, some, List, [], ◌∷◌, ◌++◌, Result, ok, err, Exec,
  pure, raise, gets, modify, guard, ◌>>=◌, ◌>>◌, if◌then◌else◌, eqb, is_empty, ◌||◌,
}
use argus_os.Prelude.Dict.{Dict, lookup, insert}
use argus_os.Events.{EventType, Event, type_eq}

abbrev pub Handler : Type 0
Handler = ℕ

-- `calls` records which handlers were called, the last one first.
pub record Bus : Type 0 where
  pub subscribers : Dict EventType (List Handler)
  pub calls : List Handler

pub data BusError : Type 0 where
  subscription_error validation_error handler_error : BusError

abbrev pub Method : Type 0 → Type 0
Method A = Exec BusError Bus A

abbrev or_empty : Option (List Handler) → List Handler
or_empty none = []
or_empty (some hs) = hs

-- `self._subscribers.get(event_type, [])`
abbrev pub handlers_of : EventType → Bus → List Handler
handlers_of t b = or_empty (lookup t b.subscribers)

-- `handler in handlers`
unfoldable pub is_in : Handler → List Handler → Bool
is_in h [] = false
is_in h (g ∷ gs) = eqb g h || is_in h gs

-- `handlers.remove(handler)`: the first one that is equal
unfoldable pub remove : Handler → List Handler → List Handler
remove h [] = []
remove h (g ∷ gs) = let rest = remove h gs in if eqb g h then gs else g ∷ rest

abbrev write : EventType → List Handler → Method Unit
write t hs = modify (λ b. record b { subscribers = insert t hs b.subscribers })

-- The `setdefault` stays written when the handler turns out to be there already.
unfoldable pub subscribe : EventType → Handler → Method Unit
unfolding is_in
subscribe t h = do
  handlers ← gets (handlers_of t)
  write t handlers
  guard (not (is_in h handlers)) subscription_error
  write t (handlers ++ h ∷ [])

unfoldable pub unsubscribe : EventType → Handler → Method Unit
unfolding is_in remove
unsubscribe t h = do
  handlers ← gets (handlers_of t)
  guard (is_in h handlers) subscription_error
  write t (remove h handlers)

-- `_validate_event`, for a value whose class is right.
unfoldable pub validate_event : Event → Method Unit
validate_event e = guard (not (is_empty e.source)) validation_error

module _ (invoke : Handler → Event → Method Unit) where
  abbrev pub call : Handler → Event → Method Unit
  call h e = do modify (λ b. record b { calls = h ∷ b.calls }); invoke h e

  -- The loop over the copy of the handlers that was made before the first call.
  unfoldable pub call_all : List Handler → Event → Method Unit
  call_all [] e = pure tt
  call_all (h ∷ hs) e = do call h e; call_all hs e

  unfoldable pub dispatch : Event → Method Unit
  unfolding call_all
  dispatch e = do handlers ← gets (handlers_of e.type); call_all handlers e

  unfoldable pub publish : Event → Method Unit
  unfolding validate_event dispatch
  publish e = do validate_event e; dispatch e
