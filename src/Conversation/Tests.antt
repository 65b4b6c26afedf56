-- ===== src/Conversation/Tests.antt =====
-- A manager with one open session, and the theorems at it.
use argus_os.Prelude.{String, ◌≡◌, refl, false, none, some, List, [], ◌∷◌, string_eq, is_empty}
use argus_os.Prelude.Dict.{lookup}
use argus_os.Lifecycle.{LifecycleState}
use argus_os.Planner.{IntentType, Intent}
use argus_os.Workflow.{no_mapping, WorkflowState, Workflow, WorkflowEngine}
use argus_os.Conversation.{ConversationState, ConversationSession, ConversationManager, receive}
use argus_os.Conversation.Turns.{Turn, receive-eq-Turn}
use argus_os.Conversation.Sessions.{IsValid, Call, run, run-IsValid}

-- The step of this workflow returns no mapping.
abbrev broken : Workflow
broken = record {
  name = "broken";
  steps = record { name = "step"; action = λ ctx. no_mapping } ∷ [];
  id = "w1";
  state = WorkflowState.pending;
  started_at = none;
  completed_at = none;
  metadata = [];
}

abbrev engine : WorkflowEngine
engine = record { state = LifecycleState.running; workflows = ("w1", broken) ∷ []; published = [] }

abbrev session : ConversationSession
session = record { id = "s1"; state = ConversationState.new; metadata = []; messages = [] }

abbrev manager : ConversationManager
manager = record {
  state = LifecycleState.running;
  sessions = ("s1", session) ∷ [];
  active_session_id = some "s1";
  workflows = engine;
  published = [];
}

abbrev parse : String → Intent
parse content = record { name = IntentType.question; id = "i"; entities = []; parameters = [] }

session-found : lookup "s1" manager.sessions ≡ some session
unfolding lookup
session-found = refl

not_blank : is_empty "hello" ≡ false
unfolding is_empty
not_blank = refl

receive-eq-Turn_example :
    receive parse "u" "a" 1 2 "hello" (some "w1") [] manager
    ≡ Turn parse "u" "a" 1 2 session "hello" [] (some "w1") manager
receive-eq-Turn_example =
    receive-eq-Turn parse "u" "a" 1 2 "hello" (some "w1") [] manager "s1" session refl not_blank
      refl session-found

abbrev silent : ConversationManager
silent = record manager { sessions = []; active_session_id = none }

silent-IsValid : IsValid silent
unfolding lookup
silent-IsValid = record { own_id = λ k s f. cc; others = λ k s f. cc; live = λ k e. cc }

-- The second session is refused, and the turn with the workflow ends with a TypeError.
abbrev calls : List Call
calls =
    Call.start_session [] "s1"
    ∷ Call.receive parse "u1" "a1" 1 2 "hello" none []
    ∷ Call.start_session [] "s2"
    ∷ Call.receive parse "u2" "a2" 3 4 "again" (some "w1") []
    ∷ Call.end_session
    ∷ Call.start_session [] "s3"
    ∷ []

run-IsValid_example : IsValid (run calls silent)
run-IsValid_example = run-IsValid calls silent silent-IsValid
