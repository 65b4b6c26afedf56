-- ===== src/Runtime/Tests.antt =====
-- Runs of the agent runtime on a plan of two steps.
use argus_os.Prelude.{
  ℕ, String, false, ◌≡◌, refl, some, [], ◌∷◌, Result, ok, err, arith, string_eq, if◌then◌else◌,
  ◌==◌,
}
use argus_os.Prelude.Dict.{lookup, insert}
use argus_os.Lifecycle.{LifecycleState}
use argus_os.Events.{Value, number}
use argus_os.Planner.{Planner, Plan, PlanStep, PlanStatus, IntentType}
use argus_os.Runtime.{
  ExecutionStatus, is_running, Execution, AgentRuntime, StepCall, Dispatch, run, start_execution,
  cancel_execution, resume_execution,
}
use argus_os.Runtime.Loop.{after_step, at_call}
use argus_os.Runtime.Ended.{Ended, run-Ended, run-reentrant}
use argus_os.Runtime.Resumed.{resume_execution_lem}
use argus_os.Runtime.Played.{
  begun, first_events, quiet, play, reply, closed, step_events, start_execution_lem,
}

abbrev step_of : String → ℕ → PlanStep
step_of name order = record {
  description = name;
  required_capability = name;
  id = name;
  order = order;
  optional = false;
  metadata = [];
}

abbrev two_steps : Plan
two_steps = record {
  originating_intent = record {
    name = IntentType.command;
    id = "i";
    entities = [];
    parameters = [];
  };
  id = "p";
  status = PlanStatus.validated;
  steps = step_of "a" 0 ∷ step_of "b" 1 ∷ [];
  tasks = [];
  metadata = [];
}

abbrev planner : Planner
planner = record { plans = ("p", two_steps) ∷ []; published = [] }

abbrev idle : AgentRuntime
idle = record { state = LifecycleState.running; executions = []; plans = []; published = [] }

-- The second step is refused.
abbrev answer : StepCall → Result String Value
answer c = if c.step_id == "a" then ok (number 7) else err "no"

start_execution_lem_example :
    start_execution (quiet answer "x" two_steps 8) 3 planner "p" "x" 5 8 idle ≡ (
      reply answer "x" two_steps 8
          (play answer "x" two_steps 8 two_steps.steps 0 [])
          (begun two_steps "x" 5),
      record idle {
        executions =
            insert "x"
              (closed answer "x" two_steps 8
                (play answer "x" two_steps 8 two_steps.steps 0 [])
                (begun two_steps "x" 5))
              [];
        plans = insert "x" two_steps [];
        published =
            step_events answer "x" two_steps 8 two_steps.steps (first_events "x" two_steps []);
      },
    )
unfolding lookup
start_execution_lem_example =
    start_execution_lem answer 3 planner "p" "x" 5 8 two_steps idle refl refl refl (omega arith)

-- A dispatcher that cancels its own execution.
abbrev cancels : StepCall → Dispatch
cancels c r = (ok (number 1), (cancel_execution c.execution_id 9 r).1)

abbrev in_progress : AgentRuntime
in_progress = record idle { executions = ("x", begun two_steps "x" 5) ∷ [] }

abbrev cancelled : Execution
cancelled = record (begun two_steps "x" 5) {
  status = ExecutionStatus.cancelled;
  completed_at = some 9;
}

run-Ended_example : Ended "x" (run (quiet answer "x" two_steps 5) "x" two_steps 5 3 in_progress)
unfolding lookup
run-Ended_example =
    run-Ended (quiet answer "x" two_steps 5) "x" two_steps 5 (λ c r h. h) 3 in_progress
      (begun two_steps "x" 5) refl (omega arith) (omega arith)

abbrev while_called : AgentRuntime
while_called = at_call cancels "x" two_steps 5 (step_of "a" 0) in_progress

abbrev after_call : AgentRuntime
after_call = (cancel_execution "x" 9 while_called).1

after_call-found : lookup "x" after_call.executions ≡ some cancelled
unfolding cancel_execution lookup insert
after_call-found = refl

run-reentrant_example : run cancels "x" two_steps 5 3 in_progress ≡ (
  ok (record cancelled { current_step = 1; results = insert "a" (number 1) [] }),
  after_step cancels "x" two_steps 5 (step_of "a" 0) 0 (number 1) cancelled after_call,
)
unfolding is_running lookup
run-reentrant_example =
    run-reentrant cancels "x" two_steps 5 1 in_progress (begun two_steps "x" 5) refl (step_of "a" 0)
      refl refl after_call cancelled after_call-found (number 1) refl refl

-- A dispatcher that cancels its own execution, and then raises.
abbrev breaks : StepCall → Dispatch
breaks c r = (err "no", (cancel_execution c.execution_id 9 r).1)

-- The first step is done, and the execution is paused.
abbrev halfway : Execution
halfway = record (begun two_steps "x" 5) {
  status = ExecutionStatus.paused;
  current_step = 1;
  results = ("a", number 7) ∷ [];
}

abbrev paused_runtime : AgentRuntime
paused_runtime = record idle { executions = ("x", halfway) ∷ []; plans = ("x", two_steps) ∷ [] }

paused_runtime-found :
    (lookup "x" paused_runtime.executions ≡ some halfway)
    × (lookup "x" paused_runtime.plans ≡ some two_steps)
unfolding lookup
paused_runtime-found = (refl, refl)

resume_execution_lem_example :
    resume_execution (quiet answer "x" two_steps 6) 2 "x" 6 paused_runtime ≡ (
      reply answer "x" two_steps 6
          (play answer "x" two_steps 6 (step_of "b" 1 ∷ []) 1 (("a", number 7) ∷ []))
          halfway,
      record paused_runtime {
        executions =
            insert "x"
              (closed answer "x" two_steps 6
                (play answer "x" two_steps 6 (step_of "b" 1 ∷ []) 1 (("a", number 7) ∷ []))
                halfway)
              paused_runtime.executions;
        published = step_events answer "x" two_steps 6 (step_of "b" 1 ∷ []) [];
      },
    )
resume_execution_lem_example =
    resume_execution_lem answer 2 "x" 6 two_steps halfway (step_of "a" 0 ∷ []) (step_of "b" 1 ∷ [])
      paused_runtime refl paused_runtime-found.1 paused_runtime-found.0 refl refl refl (omega arith)
