-- ===== src/Events.antt =====
-- argus/events/event_types.py, event.py: the event types, and the events that components publish.
-- Of an Event its type, source and payload are modelled; no component reads its id, timestamp,
-- metadata or priority. A component's own events are kept in a list, the last one first.
pub mod Bus
use argus_os.Prelude.{
  ℕ, suc, String, ◌≡◌, refl, ◌↔◌, List, [], ◌∷◌, Option, none, some, Bool, true, Eq, eqb, eqb_iff,
  eq_of_some, ap, sym, ◌∙◌,
}
use argus_os.Prelude.Lists.{get_elem?}

pub data EventType : Type 0 where
  system_started system_stopping system_stopped service_started service_stopped event_published :
      EventType
  user_command memory_updated scheduler_tick log_message knowledge_created knowledge_updated :
      EventType
  knowledge_deleted task_scheduled task_started task_completed task_failed task_cancelled :
      EventType
  task_paused task_resumed intent_parsed intent_routed intent_failed workflow_started : EventType
  workflow_step_started workflow_step_completed workflow_completed workflow_failed : EventType
  workflow_cancelled conversation_started message_received intent_resolved workflow_executed :
      EventType
  response_generated conversation_ended intent_dispatched action_resolved workflow_selected :
      EventType
  dispatch_started dispatch_completed dispatch_failed capability_registered : EventType
  capability_unregistered plugin_registered plugin_unregistered plugin_enabled plugin_disabled :
      EventType
  plan_created plan_updated plan_validated execution_created execution_started step_started :
      EventType
  step_completed execution_completed execution_failed connector_registered connector_enabled :
      EventType
  connector_disabled connector_invoked connector_failed entity_added entity_removed : EventType
  relationship_added relationship_removed memory_synchronized memory_desynchronized : EventType
  memory_mapping_failed reasoning_query_executed reasoning_result_created : EventType
  reasoning_query_failed decision_evaluated decision_created decision_failed sales_module_event :
      EventType

pub data Value : Type 0 where
  text : String → Value
  number : ℕ → Value

abbrev pub Payload : Type 0
Payload = List (String × Value)

pub record Event : Type 0 where
  pub type : EventType
  pub source : String
  pub payload : Payload

-- The members of the enumeration in their order, and the place of each.
abbrev members : List EventType
members =
    EventType.system_started ∷ EventType.system_stopping ∷ EventType.system_stopped
    ∷ EventType.service_started ∷ EventType.service_stopped ∷ EventType.event_published
    ∷ EventType.user_command ∷ EventType.memory_updated ∷ EventType.scheduler_tick
    ∷ EventType.log_message ∷ EventType.knowledge_created ∷ EventType.knowledge_updated
    ∷ EventType.knowledge_deleted ∷ EventType.task_scheduled ∷ EventType.task_started
    ∷ EventType.task_completed ∷ EventType.task_failed ∷ EventType.task_cancelled
    ∷ EventType.task_paused ∷ EventType.task_resumed ∷ EventType.intent_parsed
    ∷ EventType.intent_routed ∷ EventType.intent_failed ∷ EventType.workflow_started
    ∷ EventType.workflow_step_started ∷ EventType.workflow_step_completed
    ∷ EventType.workflow_completed ∷ EventType.workflow_failed ∷ EventType.workflow_cancelled
    ∷ EventType.conversation_started ∷ EventType.message_received ∷ EventType.intent_resolved
    ∷ EventType.workflow_executed ∷ EventType.response_generated ∷ EventType.conversation_ended
    ∷ EventType.intent_dispatched ∷ EventType.action_resolved ∷ EventType.workflow_selected
    ∷ EventType.dispatch_started ∷ EventType.dispatch_completed ∷ EventType.dispatch_failed
    ∷ EventType.capability_registered ∷ EventType.capability_unregistered
    ∷ EventType.plugin_registered ∷ EventType.plugin_unregistered ∷ EventType.plugin_enabled
    ∷ EventType.plugin_disabled ∷ EventType.plan_created ∷ EventType.plan_updated
    ∷ EventType.plan_validated ∷ EventType.execution_created ∷ EventType.execution_started
    ∷ EventType.step_started ∷ EventType.step_completed ∷ EventType.execution_completed
    ∷ EventType.execution_failed ∷ EventType.connector_registered ∷ EventType.connector_enabled
    ∷ EventType.connector_disabled ∷ EventType.connector_invoked ∷ EventType.connector_failed
    ∷ EventType.entity_added ∷ EventType.entity_removed ∷ EventType.relationship_added
    ∷ EventType.relationship_removed ∷ EventType.memory_synchronized
    ∷ EventType.memory_desynchronized ∷ EventType.memory_mapping_failed
    ∷ EventType.reasoning_query_executed ∷ EventType.reasoning_result_created
    ∷ EventType.reasoning_query_failed ∷ EventType.decision_evaluated ∷ EventType.decision_created
    ∷ EventType.decision_failed ∷ EventType.sales_module_event ∷ []

place : EventType → ℕ
place EventType.system_started = 0
place EventType.system_stopping = 1
place EventType.system_stopped = 2
place EventType.service_started = 3
place EventType.service_stopped = 4
place EventType.event_published = 5
place EventType.user_command = 6
place EventType.memory_updated = 7
place EventType.scheduler_tick = 8
place EventType.log_message = 9
place EventType.knowledge_created = 10
place EventType.knowledge_updated = 11
place EventType.knowledge_deleted = 12
place EventType.task_scheduled = 13
place EventType.task_started = 14
place EventType.task_completed = 15
place EventType.task_failed = 16
place EventType.task_cancelled = 17
place EventType.task_paused = 18
place EventType.task_resumed = 19
place EventType.intent_parsed = 20
place EventType.intent_routed = 21
place EventType.intent_failed = 22
place EventType.workflow_started = 23
place EventType.workflow_step_started = 24
place EventType.workflow_step_completed = 25
place EventType.workflow_completed = 26
place EventType.workflow_failed = 27
place EventType.workflow_cancelled = 28
place EventType.conversation_started = 29
place EventType.message_received = 30
place EventType.intent_resolved = 31
place EventType.workflow_executed = 32
place EventType.response_generated = 33
place EventType.conversation_ended = 34
place EventType.intent_dispatched = 35
place EventType.action_resolved = 36
place EventType.workflow_selected = 37
place EventType.dispatch_started = 38
place EventType.dispatch_completed = 39
place EventType.dispatch_failed = 40
place EventType.capability_registered = 41
place EventType.capability_unregistered = 42
place EventType.plugin_registered = 43
place EventType.plugin_unregistered = 44
place EventType.plugin_enabled = 45
place EventType.plugin_disabled = 46
place EventType.plan_created = 47
place EventType.plan_updated = 48
place EventType.plan_validated = 49
place EventType.execution_created = 50
place EventType.execution_started = 51
place EventType.step_started = 52
place EventType.step_completed = 53
place EventType.execution_completed = 54
place EventType.execution_failed = 55
place EventType.connector_registered = 56
place EventType.connector_enabled = 57
place EventType.connector_disabled = 58
place EventType.connector_invoked = 59
place EventType.connector_failed = 60
place EventType.entity_added = 61
place EventType.entity_removed = 62
place EventType.relationship_added = 63
place EventType.relationship_removed = 64
place EventType.memory_synchronized = 65
place EventType.memory_desynchronized = 66
place EventType.memory_mapping_failed = 67
place EventType.reasoning_query_executed = 68
place EventType.reasoning_result_created = 69
place EventType.reasoning_query_failed = 70
place EventType.decision_evaluated = 71
place EventType.decision_created = 72
place EventType.decision_failed = 73
place EventType.sales_module_event = 74

member_at_place : (t : EventType) → get_elem? members (place t) ≡ some t
unfolding place
member_at_place EventType.system_started = refl
member_at_place _ = refl

-- `==` on the enumeration.
pub same_type : EventType → EventType → Bool
same_type s t = eqb (place s) (place t)

pub same_type_iff : (s t : EventType) → (same_type s t ≡ true) ↔ (s ≡ t)
unfolding same_type
same_type_iff s t = (
  λ h.
      eq_of_some
        (sym (member_at_place s) ∙ ap (get_elem? members) ((eqb_iff _ _).0 h) ∙ member_at_place t),
  λ e. (eqb_iff _ _).1 (ap place e),
)

instance abbrev pub type_eq : Eq EventType
type_eq = record { beq = same_type; beq_iff = same_type_iff }
