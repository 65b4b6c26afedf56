-- ===== src/Conversation/Sessions.antt =====
-- argus/conversation/manager.py: the sessions that every manager keeps.
use argus_os.Prelude.{
  ℕ, String, ◌≡◌, refl, false, Option, none, some, List, [], ◌∷◌, arith, err, ◌⊎◌, inl, inr,
  is_empty, string_eq, Bool-cases, Option-cases, Result-cases,
}
use argus_os.Prelude.Dict.{Dict, lookup, insert}
use argus_os.Lifecycle.{LifecycleState, same_state, same_state_eq}
use argus_os.Service
use argus_os.Events.{Payload}
use argus_os.Planner.{Intent}
use argus_os.Workflow.{Context}
use argus_os.Workflow
use argus_os.Conversation.{
  ConversationState, ConversationError, is_closed, ConversationSession, ConversationManager,
  find_active, require_active_session,
}
use argus_os.Conversation
use argus_os.Conversation.Turns.{Turn, is_type_error, asked, answered, receive-eq-Turn}
use argus_os.Conversation.Settled.{IsSettled, update-IsSettled, open-IsSettled, close-IsSettled}

abbrev pub IsValid : ConversationManager → Type 0
IsValid m = IsSettled m.active_session_id m.sessions

IsValid-of :
    (m : ConversationManager) (active : Option String) (d : Dict String ConversationSession)
    → m.active_session_id ≡ active
    → m.sessions ≡ d
    → IsSettled active d
    → IsValid m
IsValid-of m active d p q h = rw (p, q) h

-- The session that `start_session` makes, and the one that `end_session` leaves.
abbrev fresh : Payload → String → ConversationSession
fresh metadata id = record {
  id = id;
  state = ConversationState.new;
  metadata = metadata;
  messages = [];
}

abbrev ended : ConversationSession → ConversationSession
ended s = record s { state = ConversationState.closed }

start_session-IsValid :
    (metadata : Payload) (new_id : String) (m : ConversationManager)
    → IsValid m
    → IsValid (Conversation.start_session metadata new_id m).1
unfolding Conversation.start_session is_closed
start_session-IsValid metadata new_id m h =
    let t = (Conversation.start_session metadata new_id m).1 in
    elim (Option-cases m.active_session_id) [
      | inr (k, e) ↦
          IsValid-of t (some k) m.sessions (ground (arith, e)) (ground (arith, e)) (rw e at h)
      | inl e ↦
          IsValid-of t (some new_id) (insert new_id (fresh metadata new_id) m.sessions)
            (ground (arith, e)) (ground (arith, e))
            (open-IsSettled new_id (fresh metadata new_id) m.sessions refl refl (rw e at h))
    ]

end_session-IsValid : (m : ConversationManager) → IsValid m → IsValid (Conversation.end_session m).1
unfolding Conversation.end_session require_active_session find_active is_closed
end_session-IsValid m h =
    let t = (Conversation.end_session m).1 in
    elim (Option-cases m.active_session_id) [
      | inl e ↦ IsValid-of t none m.sessions (ground (arith, e)) (ground (arith, e)) (rw e at h)
      | inr (k, e) ↦
          let (s, (found, live)) = h.live k e in
          let own = h.own_id k s found in
          IsValid-of t none (insert k (ended s) m.sessions) (ground (arith, e, found))
            (ground (arith, e, found, own))
            (close-IsSettled k (ended s) m.sessions own refl (rw e at h))
    ]

module _ (parse : String → Intent) (user_id assistant_id : String) (start_time end_time : ℕ)
    (content : String) (context : Context) where
  turn-IsValid :
      (workflow_id : Option String) (m : ConversationManager) (k : String) (s : ConversationSession)
      → m.active_session_id ≡ some k
      → lookup k m.sessions ≡ some s
      → IsValid m
      → IsValid
          (Turn parse user_id assistant_id start_time end_time s content context workflow_id m).1
  unfolding is_closed
  turn-IsValid none m k s e found h =
      let own = h.own_id k s found in
      let t = (Turn parse user_id assistant_id start_time end_time s content context none m).1 in
      let new = answered parse user_id assistant_id start_time end_time s content context in
      IsValid-of t (some k) (insert k new m.sessions) e (rw own refl)
        (update-IsSettled k new m.sessions own refl (rw e at h))
  turn-IsValid (some id) m k s e found h =
      let own = h.own_id k s found in
      let t =
        (Turn parse user_id assistant_id start_time end_time s content context (some id) m).1 in
      let both = answered parse user_id assistant_id start_time end_time s content context in
      let one = asked parse user_id assistant_id start_time end_time s content context in
      let waiting = update-IsSettled k both m.sessions own refl (rw e at h) in
      let active = update-IsSettled k one m.sessions own refl (rw e at h) in
      elim (Result-cases (Workflow.execute id context start_time end_time m.workflows).0) [
        | inl (c, p) ↦
            IsValid-of t (some k) (insert k both m.sessions) (ground (arith, p, e))
              (ground (arith, p, own)) waiting
        | inr (x, p) ↦ elim (Bool-cases (is_type_error x)) [
          | inl q ↦
              IsValid-of t (some k) (insert k one m.sessions) (ground (arith, p, q, e))
                (ground (arith, p, q, own)) active
          | inr q ↦
              IsValid-of t (some k) (insert k both m.sessions) (ground (arith, p, q, e))
                (ground (arith, p, q, own)) waiting
        ]
      ]

  -- `receive` refuses at once, or there is an active session.
  receive_gate :
      (workflow_id : Option String) (m : ConversationManager)
      → IsValid m
      → ((x : ConversationError) × (Conversation.receive parse user_id assistant_id start_time
              end_time content workflow_id context m
            ≡ (err x, m)))
        ⊎ ((k : String) × ((s : ConversationSession) × ((m.state ≡ LifecycleState.running)
                × ((is_empty content ≡ false)
                    × ((m.active_session_id ≡ some k) × (lookup k m.sessions ≡ some s))))))
  unfolding Conversation.receive require_active_session find_active
  receive_gate workflow_id m h = elim (Bool-cases (same_state m.state LifecycleState.running)) [
    | inr off ↦ inl (Conversation.conversation_error, ground arith)
    | inl on ↦ elim (Bool-cases (is_empty content)) [
      | inl blank ↦ inl (Conversation.invalid_message, ground arith)
      | inr full ↦ elim (Option-cases m.active_session_id) [
        | inl gone ↦ inl (Conversation.no_active_session, ground arith)
        | inr (k, e) ↦
            let (s, (found, live)) = h.live k e in
            inr (k, (s, (same_state_eq m.state on, (full, (e, found)))))
      ]
    ]
  ]

  receive-IsValid :
      (workflow_id : Option String) (m : ConversationManager)
      → IsValid m
      → IsValid
          (Conversation.receive parse user_id assistant_id start_time end_time content workflow_id
            context m).1
  receive-IsValid workflow_id m h = elim (receive_gate workflow_id m h) [
    | inl (x, p) ↦ rw p h
    | inr (k, (s, (r, (c, (e, found))))) ↦
        rw
          (receive-eq-Turn parse user_id assistant_id start_time end_time content workflow_id
            context m k s r c e found)
          (turn-IsValid workflow_id m k s e found h)
  ]

pub data Call : Type 0 where
  initialize start stop end_session : Call
  start_session : Payload → (new_id : String) → Call
  receive :
      (parse : String → Intent) (user_id assistant_id : String) (start_time end_time : ℕ)
      (content : String) (workflow_id : Option String) (context : Context)
      → Call

unfoldable pub call : Call → ConversationManager → ConversationManager
call Call.initialize m = (Conversation.initialize m).1
call Call.start m = (Conversation.start m).1
call Call.stop m = (Conversation.stop m).1
call Call.end_session m = (Conversation.end_session m).1
call (Call.start_session metadata new_id) m = (Conversation.start_session metadata new_id m).1
call (Call.receive parse uid aid t u content wid context) m =
    (Conversation.receive parse uid aid t u content wid context m).1

unfoldable pub run : List Call → ConversationManager → ConversationManager
run [] m = m
run (c ∷ cs) m = run cs (call c m)

-- The lifecycle calls change only the lifecycle state.
service-IsValid :
    (m : ConversationManager)
    → IsValid m
    → IsValid (Conversation.initialize m).1
      × IsValid (Conversation.start m).1
      × IsValid (Conversation.stop m).1
unfolding Conversation.initialize Conversation.start Conversation.stop Service.initialize
    Service.start Service.stop
service-IsValid m h = (
  IsValid-of (Conversation.initialize m).1 m.active_session_id m.sessions (ground arith)
      (ground arith) h,
  IsValid-of (Conversation.start m).1 m.active_session_id m.sessions (ground arith) (ground arith)
      h,
  IsValid-of (Conversation.stop m).1 m.active_session_id m.sessions (ground arith) (ground arith) h,
)

call-IsValid : (c : Call) (m : ConversationManager) → IsValid m → IsValid (call c m)
unfolding call
call-IsValid Call.initialize m h = (service-IsValid m h).0
call-IsValid Call.start m h = (service-IsValid m h).1
call-IsValid Call.stop m h = (service-IsValid m h).2
call-IsValid Call.end_session m h = end_session-IsValid m h
call-IsValid (Call.start_session metadata new_id) m h = start_session-IsValid metadata new_id m h
call-IsValid (Call.receive parse uid aid t u content wid context) m h =
    receive-IsValid parse uid aid t u content context wid m h

-- After any calls, refused or not: the active session is stored and not closed, every other session
-- is closed, and each is stored under its own id.
pub run-IsValid : (cs : List Call) (m : ConversationManager) → IsValid m → IsValid (run cs m)
unfolding run
run-IsValid [] m h = h
run-IsValid (c ∷ cs) m h = run-IsValid cs (call c m) (call-IsValid c m h)
