-- ===== src/Reasoning/Answered.antt =====
-- argus/reasoning/engine.py: what a request does to the engine, and what it publishes.
use argus_os.Prelude.{true, ◌≡◌, [], ◌∷◌, ◌++◌, arith, inl, inr, Result, ok, err, string_eq}
use argus_os.Prelude.Lists.{length}
use argus_os.Events.{EventType, Event, Payload, text, number}
use argus_os.Reasoning.Engine.{
  ReasoningResult, ReasoningEngine, Failure, is_reasoning_error, execute, publish,
}
use argus_os.Reasoning.Requests.{Request, work, answer, operation_name, base_payload}
use argus_os.Reasoning.Safe.{Reads-cases, Any, IsSound}
use argus_os.Reasoning.Reading.{work-Reads}

-- The request's payload with the operation's name.
abbrev pub request_payload : Request → Payload
request_payload request = base_payload request ++ ("operation", text (operation_name request)) ∷ []

abbrev pub event : EventType → Payload → Event
event type payload = record { type = type; source = "reasoning_engine"; payload = payload }

abbrev pub answer_payload : Request → ReasoningResult → Payload
answer_payload request result =
    request_payload request
    ++ ("matched_entity_count", number (length result.matched_entities))
      ∷ ("matched_relationship_count", number (length result.matched_relationships))
      ∷ []

-- What a request that is answered, or refused, leaves.
abbrev pub Outcome :
    Request → ReasoningEngine → Result Failure ReasoningResult → ReasoningEngine → Type 0
Outcome request s (ok result) t = t ≡ record s {
  published =
      event EventType.reasoning_result_created (answer_payload request result)
      ∷ event EventType.reasoning_query_executed (request_payload request)
      ∷ s.published;
}
Outcome request s (err e) t =
    (is_reasoning_error e ≡ true)
    × (t ≡ record s {
      published = event EventType.reasoning_query_failed (request_payload request) ∷ s.published;
    })

-- On a consistent graph without an entity under the empty id, every request, answered or refused,
-- leaves the graph and the lifecycle state as they are. An answer publishes EXECUTED and then
-- RESULT_CREATED with the counts of the answer; a refusal is an error of the package, and publishes
-- FAILED alone. No request ends with an error of the graph or a KeyError.
pub answer-Outcome :
    (status : Payload) (request : Request) (s : ReasoningEngine)
    → IsSound s.graph
    → Outcome request s (answer status request s).0 (answer status request s).1
unfolding answer execute publish
answer-Outcome status request s sound =
    elim (Reads-cases (work status request) s (Any s) (work-Reads status s sound request)) [
      | inl (result, (p, u)) ↦ ground (arith, p)
      | inr (e, (p, h)) ↦ ground (arith, p, h)
    ]
