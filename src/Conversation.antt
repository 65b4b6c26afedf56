-- ===== src/Conversation.antt =====
-- argus/conversation/manager.py, session.py, message.py, state.py: ConversationManager, over the
-- workflow engine. The arguments have the classes that their annotations say. The intent router's
-- `parse` and new uuids are arguments. Times, the metadata of a message and the confidence of an
-- intent are left out.
pub mod Settled
pub mod Sessions
pub mod Turns
mod Tests
use argus_os.Prelude.{
  ℕ, String, Bool, true, false, not, refl, Option, none, some, List, [], ◌∷◌, ◌++◌, Result, ok, err,
  Exec, pure, raise, gets, modify, guard, or_raise, ◌>>=◌, ◌>>◌, string_eq, is_empty, is_some,
}
use argus_os.Prelude.Dict.{Dict, lookup, insert}
use argus_os.Lifecycle.{LifecycleState}
use argus_os.Events.{EventType, Event, Payload, text}
use argus_os.Service.{Stateful, require_state}
use argus_os.Service
use argus_os.Planner.{IntentType, Intent}
use argus_os.Dispatcher.{value_of}
use argus_os.Workflow.{Context, WorkflowEngine, WorkflowError, type_error}
use argus_os.Workflow

pub data ConversationRole : Type 0 where
  user assistant system : ConversationRole

pub record ConversationMessage : Type 0 where
  pub role : ConversationRole
  pub content : String
  pub id : String

pub data ConversationState : Type 0 where
  new active waiting closed : ConversationState

unfoldable pub is_closed : ConversationState → Bool
is_closed ConversationState.closed = true
is_closed _ = false

pub record ConversationSession : Type 0 where
  pub id : String
  pub state : ConversationState
  pub metadata : Payload
  pub messages : List ConversationMessage

pub record ConversationManager : Type 0 where
  pub state : LifecycleState
  pub sessions : Dict String ConversationSession
  pub active_session_id : Option String
  pub workflows : WorkflowEngine
  pub published : List Event

-- `key_error` is what `self._sessions[self._active_session_id]` would raise, `workflow_type_error`
-- what leaves the workflow engine and is not caught.
pub data ConversationError : Type 0 where
  conversation_error active_session_exists no_active_session session_not_found : ConversationError
  invalid_message key_error workflow_type_error : ConversationError

abbrev pub Method : Type 0 → Type 0
Method A = Exec ConversationError ConversationManager A

instance abbrev pub conversation_stateful : Stateful ConversationManager
conversation_stateful = record {
  get_state = λ m. m.state;
  set_state = λ x m. record m { state = x };
  get_state-set_state = λ x m. refl;
}

unfoldable pub initialize : Method Unit
initialize = Service.initialize conversation_error

unfoldable pub start : Method Unit
start = Service.start conversation_error

unfoldable pub stop : Method Unit
stop = Service.stop conversation_error

-- `_RESPONSE_TEMPLATES`, whose keys are the values of all intent types.
unfoldable pub response_template : IntentType → String
response_template IntentType.question = "I heard your question, but I have no way to answer it yet."
response_template IntentType.command = "Acknowledged: I will not execute that automatically."
response_template IntentType.memory = "Noted."
response_template IntentType.schedule = "Understood; nothing has been scheduled automatically."
response_template IntentType.unknown = "I'm not sure how to help with that yet."

unfoldable pub publish : EventType → Payload → Method Unit
publish type payload = modify (λ m. record m {
  published =
      record { type = type; source = "conversation_manager"; payload = payload } ∷ m.published;
})

unfoldable pub put : ConversationSession → Method Unit
put session = modify (λ m. record m { sessions = insert session.id session m.sessions })

unfoldable pub find_active : Option String → Method ConversationSession
find_active none = raise no_active_session
find_active (some id) = do found ← gets (λ m. lookup id m.sessions); or_raise found key_error

unfoldable pub require_active_session : Method ConversationSession
unfolding find_active
require_active_session = do id ← gets (λ m. m.active_session_id); find_active id

unfoldable pub require_session : String → Method ConversationSession
require_session id = do found ← gets (λ m. lookup id m.sessions); or_raise found session_not_found

unfoldable pub start_session : Payload → (new_id : String) → Method ConversationSession
unfolding put publish
start_session metadata new_id = do
  current ← gets (λ m. m.active_session_id)
  guard (not (is_some current)) active_session_exists
  let session : ConversationSession = record {
    id = new_id;
    state = ConversationState.new;
    metadata = metadata;
    messages = [];
  }
  put session
  modify (λ m. record m { active_session_id = some session.id })
  publish EventType.conversation_started (("session_id", text session.id) ∷ [])
  pure session

unfoldable pub end_session : Method ConversationSession
unfolding require_active_session put publish
end_session = do
  session ← require_active_session
  let closed : ConversationSession = record session { state = ConversationState.closed }
  put closed
  modify (λ m. record m { active_session_id = none })
  publish EventType.conversation_ended (("session_id", text closed.id) ∷ [])
  pure closed

-- The session that `history` reads.
chosen_session : Option String → Method ConversationSession
unfolding require_active_session require_session
chosen_session none = require_active_session
chosen_session (some id) = require_session id

history : Option String → Method (List ConversationMessage)
unfolding chosen_session
history id = do session ← chosen_session id; pure session.messages

find_session : Option String → Method (Option ConversationSession)
find_session none = pure none
find_session (some id) = do
  found ← gets (λ m. lookup id m.sessions)
  session ← or_raise found key_error
  pure (some session)

active_session : Method (Option ConversationSession)
unfolding find_session
active_session = do id ← gets (λ m. m.active_session_id); find_session id

unfoldable pub append_message :
    ConversationSession → ConversationMessage → Method ConversationSession
unfolding put
append_message session message = do
  let updated : ConversationSession = record session { messages = session.messages ++ message ∷ [] }
  put updated
  pure updated

unfoldable pub transition : ConversationSession → ConversationState → Method ConversationSession
unfolding put
transition session state = do
  let updated : ConversationSession = record session { state = state }
  put updated
  pure updated

-- `except (WorkflowNotFoundError, WorkflowError)`
unfoldable pub is_caught : WorkflowError → Bool
is_caught type_error = false
is_caught _ = true

-- The workflow engine's part of `receive`, with the payload of WORKFLOW_EXECUTED.
unfoldable pub run_workflow :
    Option String → Context → (start_time end_time : ℕ) → (String → Payload) → Method Unit
unfolding publish is_caught
run_workflow none context start_time end_time payload m = (ok tt, m)
run_workflow (some id) context start_time end_time payload m =
    let (r, w) = Workflow.execute id context start_time end_time m.workflows in
    let m' : ConversationManager = record m { workflows = w } in
    elim r [
      | ok c ↦ publish EventType.workflow_executed (payload id) m'
      | err e ↦ elim (is_caught e) [ true ↦ (ok tt, m') | false ↦ (err workflow_type_error, m') ]
    ]

abbrev pub message_payload : ConversationSession → ConversationMessage → Payload
message_payload session message =
    ("session_id", text session.id) ∷ ("message_id", text message.id) ∷ []

module _ (parse : String → Intent) (user_id assistant_id : String) (start_time end_time : ℕ) where
  -- `receive` from the active session on.
  unfoldable pub turn :
      ConversationSession
      → (content : String) → Option String
      → Context
      → Method ConversationMessage
  unfolding append_message transition publish run_workflow response_template value_of
  turn session content workflow_id context = do
    opened ← transition session ConversationState.active
    let user_message : ConversationMessage = record {
      role = ConversationRole.user;
      content = content;
      id = user_id;
    }
    asked ← append_message opened user_message
    publish EventType.message_received (message_payload asked user_message)
    let intent = parse content
    publish EventType.intent_resolved
        (message_payload asked user_message ++ ("intent_name", text (value_of intent.name)) ∷ [])
    run_workflow workflow_id context start_time end_time
        (λ id. message_payload asked user_message ++ ("workflow_id", text id) ∷ [])
    let assistant_message : ConversationMessage = record {
      role = ConversationRole.assistant;
      content = response_template intent.name;
      id = assistant_id;
    }
    answered ← append_message asked assistant_message
    last ← transition answered ConversationState.waiting
    publish EventType.response_generated (message_payload last assistant_message)
    pure assistant_message

  unfoldable pub receive : (content : String) → Option String → Context → Method ConversationMessage
  unfolding require_state require_active_session turn
  receive content workflow_id context = do
    require_state LifecycleState.running conversation_error
    guard (not (is_empty content)) invalid_message
    session ← require_active_session
    turn session content workflow_id context
