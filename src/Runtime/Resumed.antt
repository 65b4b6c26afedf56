-- ===== src/Runtime/Resumed.antt =====
-- resume_execution of argus/runtime/runtime.py with a dispatcher that does not call the runtime
-- back: a paused execution goes on with the step at which it stood.
use argus_os.Prelude.{
  ℕ, suc, ◌+◌, ◌<◌, String, ◌≡◌, refl, ap, ◌∙◌, some, List, [], ◌∷◌, ◌++◌, Result, arith, string_eq,
}
use argus_os.Prelude.Lists.{length, get_elem?}
use argus_os.Prelude.Dict.{lookup, insert, insert-insert}
use argus_os.Lifecycle.{LifecycleState}
use argus_os.Events.{Event, Value}
use argus_os.Planner.{Plan, PlanStep}
use argus_os.Runtime.{
  ExecutionStatus, is_running, is_paused, Execution, AgentRuntime, RuntimeError, StepCall, run,
  resume_execution,
}
use argus_os.Runtime.Ended.{lookup_here}
use argus_os.Runtime.Played.{
  Played, all_done, step_failed, quiet, play, step_events, closed, reply, run-eq-play,
}

get_elem?-append :
    {A : Type 0} (xs ys : List A) (j : ℕ) → get_elem? (xs ++ ys) (length xs + j) ≡ get_elem? ys j
get_elem?-append [] ys j = ap (get_elem? ys) (omega arith)
get_elem?-append (x ∷ xs) ys j =
    let e : suc (length xs) + j ≡ suc (length xs + j) = omega arith in
    ap (get_elem? (x ∷ (xs ++ ys))) e ∙ get_elem?-append xs ys j

module _ (answer : StepCall → Result String Value) (fuel : ℕ) (id : String) (now : ℕ) (plan : Plan)
    (x : Execution) (done rest : List PlanStep) (r : AgentRuntime)
    (is_started : r.state ≡ LifecycleState.running) (known : lookup id r.plans ≡ some plan)
    (found : lookup id r.executions ≡ some x) (paused : x.status ≡ ExecutionStatus.paused)
    (parts : plan.steps ≡ done ++ rest) (at : x.current_step ≡ length done)
    (enough : length rest < fuel) where
  abbrev going : Execution
  going = record x { status = ExecutionStatus.running }

  abbrev at_step : AgentRuntime
  at_step = record r { executions = insert id going r.executions }

  -- What the end makes of an execution; its status before does not matter.
  abbrev end :
      Played → Execution → AgentRuntime → List Event → Result RuntimeError Execution × AgentRuntime
  end p y s log = (
    reply answer id plan now p y,
    record s {
      executions = insert id (closed answer id plan now p y) s.executions;
      published = log;
    },
  )

  ending_of_going : (p : Played) (log : List Event) → end p going at_step log ≡ end p x r log
  ending_of_going (all_done i d) log =
      ground
        (arith, insert-insert id (closed answer id plan now (all_done i d) x) going r.executions)
  ending_of_going (step_failed s error i d) log = ground (
    arith,
    insert-insert id (closed answer id plan now (step_failed s error i d) x) going r.executions,
  )

  resume_execution_begins :
      resume_execution (quiet answer id plan now) fuel id now r
      ≡ run (quiet answer id plan now) id plan now fuel at_step
  unfolding resume_execution is_paused
  resume_execution_begins = ground arith

  -- A PAUSED execution in a running runtime that has done the first steps of its plan, with a
  -- dispatcher that does not call the runtime back and fuel for the rest: `resume_execution`
  -- dispatches the rest of the steps in order, none again and none left out, with the results so
  -- far kept, and ends like an execution from the start.
  pub resume_execution_lem : resume_execution (quiet answer id plan now) fuel id now r ≡ (
    reply answer id plan now (play answer id plan now rest x.current_step x.results) x,
    record r {
      executions =
          insert id
            (closed answer id plan now (play answer id plan now rest x.current_step x.results) x)
            r.executions;
      published = step_events answer id plan now rest r.published;
    },
  )
  unfolding is_running
  resume_execution_lem =
      resume_execution_begins
      ∙ run-eq-play answer id plan now rest fuel going at_step (lookup_here id going r.executions)
          refl
          (λ j.
            ap (λ i. get_elem? plan.steps (i + j)) at
            ∙ ap (λ ss. get_elem? ss (length done + j)) parts
            ∙ get_elem?-append done rest j)
          enough
      ∙ ending_of_going (play answer id plan now rest x.current_step x.results)
          (step_events answer id plan now rest r.published)
