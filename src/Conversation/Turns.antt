-- ===== src/Conversation/Turns.antt =====
-- argus/conversation/manager.py over argus/workflow/engine.py: what `receive` does, on every path.
use argus_os.Prelude.{
  ℕ, String, ◌≡◌, refl, ◌∙◌, Bool, true, false, not, inl, inr, Result-cases, Option, none, some,
  List, [], ◌∷◌, ◌++◌, Result, ok, err, arith, is_empty, string_eq,
}
use argus_os.Prelude.Dict.{Dict, lookup, insert, insert-insert}
use argus_os.Lifecycle.{LifecycleState}
use argus_os.Events.{EventType, Event, Payload, text}
use argus_os.Planner.{Intent}
use argus_os.Dispatcher.{value_of}
use argus_os.Workflow.{Context, WorkflowEngine, WorkflowError}
use argus_os.Workflow
use argus_os.Conversation.{
  ConversationRole, ConversationMessage, ConversationState, ConversationSession,
  ConversationManager, ConversationError, workflow_type_error, message_payload, response_template,
  publish, append_message, transition, is_caught, run_workflow, turn, receive, find_active,
  require_active_session,
}

abbrev pub is_type_error : WorkflowError → Bool
is_type_error WorkflowError.type_error = true
is_type_error WorkflowError.workflow_error = false
is_type_error WorkflowError.invalid_workflow = false
is_type_error WorkflowError.duplicate_workflow = false
is_type_error WorkflowError.workflow_not_found = false

is_caught-is_type_error : (e : WorkflowError) → is_caught e ≡ not (is_type_error e)
unfolding is_caught
is_caught-is_type_error e = ground arith

abbrev pub event : EventType → Payload → Event
event type payload = record { type = type; source = "conversation_manager"; payload = payload }

module _ (parse : String → Intent) (user_id assistant_id : String) (start_time end_time : ℕ)
    (s : ConversationSession) (content : String) (context : Context) where
  abbrev pub question : ConversationMessage
  question = record { role = ConversationRole.user; content = content; id = user_id }

  abbrev pub reply : ConversationMessage
  reply = record {
    role = ConversationRole.assistant;
    content = response_template (parse content).name;
    id = assistant_id;
  }

  -- The session after the user's message, and after the reply.
  abbrev pub asked : ConversationSession
  asked = record s { state = ConversationState.active; messages = s.messages ++ question ∷ [] }

  abbrev pub answered : ConversationSession
  answered = record s {
    state = ConversationState.waiting;
    messages = (s.messages ++ question ∷ []) ++ reply ∷ [];
  }

  abbrev pub heard : List Event → List Event
  heard log =
      event EventType.intent_resolved (
        message_payload asked question
        ++ ("intent_name", text (value_of (parse content).name)) ∷ [])
      ∷ event EventType.message_received (message_payload asked question)
      ∷ log

  abbrev generated : Event
  generated = event EventType.response_generated (message_payload answered reply)

  -- The end of a turn with the engine `w` and the log so far: the session has both messages and
  -- waits.
  abbrev replied :
      ConversationManager
      → WorkflowEngine
      → List Event
      → Result ConversationError ConversationMessage × ConversationManager
  replied m w log = (
    ok reply,
    record m {
      sessions = insert s.id answered m.sessions;
      workflows = w;
      published = generated ∷ log;
    },
  )

  -- The turn by what the workflow engine answers: its error is passed over, but for a TypeError,
  -- which ends the turn with the user's message alone and the session ACTIVE.
  abbrev by_workflow :
      String
      → ConversationManager
      → Result WorkflowError Context
      → WorkflowEngine
      → Result ConversationError ConversationMessage × ConversationManager
  by_workflow id m (ok c) w = replied m w (
      event EventType.workflow_executed
        (message_payload asked question ++ ("workflow_id", text id) ∷ [])
      ∷ heard m.published)
  by_workflow id m (err e) w = elim (is_type_error e) [
    | false ↦ replied m w (heard m.published)
    | true ↦ (
      err workflow_type_error,
      record m {
        sessions = insert s.id asked m.sessions;
        workflows = w;
        published = heard m.published;
      },
    )
  ]

  abbrev pub Turn :
      Option String
      → ConversationManager
      → Result ConversationError ConversationMessage × ConversationManager
  Turn none m = replied m m.workflows (heard m.published)
  Turn (some id) m =
      by_workflow id m (Workflow.execute id context start_time end_time m.workflows).0
        (Workflow.execute id context start_time end_time m.workflows).1

  abbrev opened : ConversationSession
  opened = record s { state = ConversationState.active }

  abbrev spoken : ConversationSession
  spoken = record s {
    state = ConversationState.active;
    messages = (s.messages ++ question ∷ []) ++ reply ∷ [];
  }

  insert-asked :
      (d : Dict String ConversationSession)
      → insert s.id asked (insert s.id opened d) ≡ insert s.id asked d
  insert-asked d = insert-insert s.id asked opened d

  insert-answered :
      (d : Dict String ConversationSession)
      → insert s.id answered (insert s.id spoken (insert s.id asked d)) ≡ insert s.id answered d
  insert-answered d =
      insert-insert s.id answered spoken (insert s.id asked d) ∙ insert-insert s.id answered asked d

  turn-eq-Turn :
      (workflow_id : Option String) (m : ConversationManager)
      → turn parse user_id assistant_id start_time end_time s content workflow_id context m
        ≡ Turn workflow_id m
  unfolding turn append_message transition publish run_workflow
  turn-eq-Turn none m = rw (insert-asked m.sessions, insert-answered m.sessions) refl
  turn-eq-Turn (some id) m =
      elim (Result-cases (Workflow.execute id context start_time end_time m.workflows).0) [
        | inl (c, p) ↦ ground (arith, p, insert-asked m.sessions, insert-answered m.sessions)
        | inr (e, p) ↦ ground (
          arith,
          p,
          is_caught-is_type_error e,
          insert-asked m.sessions,
          insert-answered m.sessions,
        )
      ]

-- A message to a running manager with an open session: the session gets the message and then the
-- reply that belongs to the intent, and waits, whatever the workflow engine answers or raises,
-- except that a TypeError leaves it ACTIVE with the message alone; WORKFLOW_EXECUTED is published
-- only where the engine answered, and no other session is touched.
pub receive-eq-Turn :
    (parse : String → Intent) (user_id assistant_id : String) (start_time end_time : ℕ)
    (content : String) (workflow_id : Option String) (context : Context) (m : ConversationManager)
    (id : String) (s : ConversationSession)
    → m.state ≡ LifecycleState.running
    → is_empty content ≡ false
    → m.active_session_id ≡ some id
    → lookup id m.sessions ≡ some s
    → receive parse user_id assistant_id start_time end_time content workflow_id context m
      ≡ Turn parse user_id assistant_id start_time end_time s content context workflow_id m
unfolding receive require_active_session find_active
receive-eq-Turn parse user_id assistant_id start_time end_time content workflow_id context m id s r
      c a f =
    ground (
      arith,
      r,
      c,
      a,
      f,
      turn-eq-Turn parse user_id assistant_id start_time end_time s content context workflow_id m,
    )
