-- ===== src/Events/Bus/Subscriptions.antt =====
-- Subscribing and unsubscribing (argus/events/event_bus.py): who is subscribed afterwards, and that
-- no handler is subscribed to a type twice.
use argus_os.Prelude.{
  ◌≡◌, refl, Bool, true, false, List, [], ◌∷◌, ◌++◌, ok, sym, arith, if◌then◌else◌, ◌||◌, eqb, ◌==◌,
  Bool-cases, inl, inr,
}
use argus_os.Prelude.Dict.{insert, lookup-insert, beq_refl}
use argus_os.Events.{EventType, same_type_iff, type_eq}
use argus_os.Events.Bus.{Handler, Bus, handlers_of, is_in, remove, subscribe, unsubscribe}

abbrev pub NoDup : List Handler → Type 0
NoDup [] = Unit
NoDup (h ∷ hs) = (is_in h hs ≡ false) × NoDup hs

pub record IsValid (b : Bus) : Type 0 where
  pub once : (t : EventType) → NoDup (handlers_of t b)

is_in-append :
    (h g : Handler) (hs : List Handler) → is_in h (hs ++ g ∷ []) ≡ (is_in h hs || eqb g h)
unfolding is_in
is_in-append h g [] = ground arith
is_in-append h g (x ∷ hs) = ground (arith, is_in-append h g hs)

NoDup-append :
    (h : Handler) (hs : List Handler) → is_in h hs ≡ false → NoDup hs → NoDup (hs ++ h ∷ [])
unfolding is_in
NoDup-append h [] e n = (refl, tt)
NoDup-append h (x ∷ hs) e n =
    (ground (arith, is_in-append x h hs), NoDup-append h hs (ground arith) n.1)

is_in-remove :
    (h g : Handler) (hs : List Handler)
    → NoDup hs
    → is_in g (remove h hs) ≡ (if eqb h g then false else is_in g hs)
unfolding is_in remove
is_in-remove h g [] n = ground arith
is_in-remove h g (x ∷ hs) n = ground (arith, is_in-remove h g hs)

NoDup-remove : (h : Handler) (hs : List Handler) → NoDup hs → NoDup (remove h hs)
unfolding is_in remove
NoDup-remove h [] n = tt
NoDup-remove h (x ∷ hs) n = ground (arith, NoDup-remove h hs n.1, is_in-remove h x hs n.1)

-- A handler that stood nowhere in the list and was put at its end is taken from there.
remove-append :
    (h : Handler) (hs : List Handler) → is_in h hs ≡ false → remove h (hs ++ h ∷ []) ≡ hs
unfolding is_in remove
remove-append h [] e = ground arith
remove-append h (x ∷ hs) e = ground (arith, remove-append h hs)

-- A list that is written back as it was.
handlers_of_same :
    (t j : EventType) (b : Bus)
    → (if t == j then handlers_of t b else handlers_of j b) ≡ handlers_of j b
handlers_of_same t j b = elim (Bool-cases (t == j)) [
  | inl e ↦ rw (e, (same_type_iff t j).0 e)
  | inr e ↦ rw e
]

-- Who is subscribed after `subscribe`, for every event type.
pub handlers_of-subscribe :
    (t j : EventType) (h : Handler) (b : Bus)
    → handlers_of j (subscribe t h b).1 ≡ (
        if t == j
        then (if is_in h (handlers_of t b) then handlers_of t b else handlers_of t b ++ h ∷ [])
        else handlers_of j b)
unfolding subscribe
handlers_of-subscribe t j h b = elim (Bool-cases (is_in h (handlers_of t b))) [
  | inl e ↦
      rw e (ground (arith, lookup-insert t j (handlers_of t b) b.subscribers, same_type_iff t j))
  | inr e ↦ rw e (
      ground (
        arith,
        lookup-insert t j (handlers_of t b) b.subscribers,
        lookup-insert t j (handlers_of t b ++ h ∷ []) (insert t (handlers_of t b) b.subscribers),
      ))
]

-- Who is subscribed after `unsubscribe`, for every event type.
pub handlers_of-unsubscribe :
    (t j : EventType) (h : Handler) (b : Bus)
    → handlers_of j (unsubscribe t h b).1 ≡ (
        if t == j
        then (if is_in h (handlers_of t b) then remove h (handlers_of t b) else handlers_of t b)
        else handlers_of j b)
unfolding unsubscribe
handlers_of-unsubscribe t j h b = elim (Bool-cases (is_in h (handlers_of t b))) [
  | inl e ↦ rw e (ground (arith, lookup-insert t j (remove h (handlers_of t b)) b.subscribers))
  | inr e ↦ rw e (sym (handlers_of_same t j b))
]

if-NoDup : (c : Bool) (xs ys : List Handler) → NoDup xs → NoDup ys → NoDup (if c then xs else ys)
if-NoDup true xs ys hx hy = hx
if-NoDup false xs ys hx hy = hy

-- Subscribing keeps every list of handlers free of duplicates, whether it raises or not.
subscribe-IsValid :
    (t : EventType) (h : Handler) (b : Bus) → IsValid b → IsValid (subscribe t h b).1
subscribe-IsValid t h b v = record {
  once = λ j. rw handlers_of-subscribe (
      if-NoDup (t == j) _ _
        (elim (Bool-cases (is_in h (handlers_of t b))) [
          | inl e ↦ rw e (v.once t)
          | inr e ↦ rw e (NoDup-append h (handlers_of t b) e (v.once t))
        ])
        (v.once j));
}

pub unsubscribe-IsValid :
    (t : EventType) (h : Handler) (b : Bus) → IsValid b → IsValid (unsubscribe t h b).1
unsubscribe-IsValid t h b v = record {
  once = λ j. rw handlers_of-unsubscribe (
      if-NoDup (t == j) _ _
        (if-NoDup (is_in h (handlers_of t b)) _ _ (NoDup-remove h (handlers_of t b) (v.once t))
          (v.once t))
        (v.once j));
}

module _ (t : EventType) (h : Handler) (b : Bus) (new : is_in h (handlers_of t b) ≡ false) where
  subscribe_ok : (subscribe t h b).0 ≡ ok tt
  unfolding subscribe
  subscribe_ok = rw new

  handlers_of-subscribe_new : handlers_of t (subscribe t h b).1 ≡ handlers_of t b ++ h ∷ []
  handlers_of-subscribe_new = rw (handlers_of-subscribe, beq_refl, new)

  is_in-subscribe : is_in h (handlers_of t (subscribe t h b).1) ≡ true
  is_in-subscribe =
      rw handlers_of-subscribe_new (ground (arith, is_in-append h h (handlers_of t b)))

unsubscribe_ok :
    (t : EventType) (h : Handler) (b : Bus)
    → is_in h (handlers_of t b) ≡ true
    → (unsubscribe t h b).0 ≡ ok tt
unfolding unsubscribe
unsubscribe_ok t h b e = rw e

-- A handler that was not subscribed to `t`, subscribed and unsubscribed again: both calls return,
-- and the handlers of every type are as before, in their order.
pub unsubscribe-subscribe :
    (t : EventType) (h : Handler) (b : Bus)
    → is_in h (handlers_of t b) ≡ false
    → ((subscribe t h b).0 ≡ ok tt)
      × ((unsubscribe t h (subscribe t h b).1).0 ≡ ok tt)
      × ((j : EventType) → handlers_of j (unsubscribe t h (subscribe t h b).1).1 ≡ handlers_of j b)
unsubscribe-subscribe t h b e = (
  subscribe_ok t h b e,
  unsubscribe_ok t h (subscribe t h b).1 (is_in-subscribe t h b e),
  λ j.
      rw
        (
          handlers_of-unsubscribe,
          is_in-subscribe t h b e,
          handlers_of-subscribe_new t h b e,
          remove-append h (handlers_of t b) e,
        )
        (elim (Bool-cases (t == j)) [
          | inl same ↦ rw (same, (same_type_iff t j).0 same)
          | inr other ↦ rw (other, handlers_of-subscribe, other)
        ]),
)

-- In a bus whose lists of handlers have no duplicates, after `unsubscribe`, whether it raised or
-- not, the handler is not subscribed to the type.
unsubscribe_removes :
    (t : EventType) (h : Handler) (b : Bus)
    → IsValid b
    → is_in h (handlers_of t (unsubscribe t h b).1) ≡ false
unsubscribe_removes t h b v =
    rw (handlers_of-unsubscribe, beq_refl)
      (elim (Bool-cases (is_in h (handlers_of t b))) [
        | inl e ↦ rw e (ground (arith, is_in-remove h h (handlers_of t b) (v.once t)))
        | inr e ↦ rw e e
      ])
