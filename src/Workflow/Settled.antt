-- ===== src/Workflow/Settled.antt =====
-- No operation of WorkflowEngine (argus/workflow/engine.py) changes a workflow that is completed,
-- failed or cancelled, and each operation leaves the workflows of other ids alone.
use argus_os.Prelude.{
  ℕ, String, ◌≡◌, ◌≢◌, refl, sym, ◌∙◌, ap, true, false, Option, none, some, List, [], ◌∷◌, err,
  arith, ◌⊎◌, inl, inr, Bool-cases, Option-cases, eq_of_some, string_eq, eq_iff, ◌==◌,
}
use argus_os.Prelude.Dict.{lookup, lookup-insert}
use argus_os.Lifecycle.{LifecycleState, same_state, same_state_eq}
use argus_os.Events.{Payload}
use argus_os.Service.{Stateful}
use argus_os.Service
use argus_os.Workflow.{
  Context, WorkflowStep, WorkflowState, is_pending, Workflow, WorkflowEngine, WorkflowError,
  workflow_error, workflow_not_found, is_taken, require_workflow,
}
use argus_os.Workflow
use argus_os.Workflow.Run.{execute_lem}

-- The calls that change an engine.
pub data Call : Type 0 where
  initialize start stop : Call
  register_workflow :
      (name : String) (steps : List WorkflowStep) (workflow_id : Option String) (new_id : String)
      (metadata : Payload)
      → Call
  cancel : (id : String) (now : ℕ) → Call
  execute : (id : String) (ctx : Context) (start_time end_time : ℕ) → Call

pub call : Call → WorkflowEngine → WorkflowEngine
call Call.initialize e = (Workflow.initialize e).1
call Call.start e = (Workflow.start e).1
call Call.stop e = (Workflow.stop e).1
call (Call.register_workflow name steps id new_id metadata) e =
    (Workflow.register_workflow name steps id new_id metadata e).1
call (Call.cancel id now) e = (Workflow.cancel id now e).1
call (Call.execute id ctx start_time end_time) e = (Workflow.execute id ctx start_time end_time e).1

pub run : List Call → WorkflowEngine → WorkflowEngine
run [] e = e
run (c ∷ cs) e = run cs (call c e)

-- A new uuid is not the id `id`.
abbrev pub IsFresh : String → Call → Type 0
IsFresh id (Call.register_workflow name steps none new_id metadata) = new_id ≢ id
IsFresh id _ = Unit

abbrev pub AllFresh : String → List Call → Type 0
AllFresh id [] = Unit
AllFresh id (c ∷ cs) = IsFresh id c × AllFresh id cs

is_pending_eq : (s : WorkflowState) → is_pending s ≡ true → s ≡ WorkflowState.pending
unfolding is_pending
is_pending_eq WorkflowState.pending e = refl
is_pending_eq _ e = cc

not_pending :
    (v w : Workflow) → v ≡ w → is_pending w.state ≡ false → v.state ≡ WorkflowState.pending → ⊥
unfolding is_pending
not_pending v w e settled new = cc (ap (λ (x : Workflow). is_pending x.state) e, ap is_pending new)

-- `execute` is refused and changes nothing, or it runs a pending workflow.
execute_gate :
    (k : String) (ctx : Context) (t u : ℕ) (e : WorkflowEngine)
    → ((x : WorkflowError) × (Workflow.execute k ctx t u e ≡ (err x, e)))
      ⊎ ((v : Workflow) × (e.state ≡ LifecycleState.running)
          × (lookup k e.workflows ≡ some v)
          × (v.state ≡ WorkflowState.pending))
unfolding Workflow.execute
execute_gate k ctx t u e = elim (Bool-cases (same_state e.state LifecycleState.running)) [
  | inr off ↦ inl (workflow_error, ground arith)
  | inl on ↦ elim (Option-cases (lookup k e.workflows)) [
    | inl absent ↦ inl (workflow_not_found, ground arith)
    | inr (v, found) ↦ elim (Bool-cases (is_pending v.state)) [
      | inr old ↦ inl (workflow_error, ground arith)
      | inl new ↦ inr (v, same_state_eq e.state on, found, is_pending_eq v.state new)
    ]
  ]
]

-- What a call must leave: the record of a workflow that is not pending.
module _ (id : String) (w : Workflow) (settled : is_pending w.state ≡ false) where
  abbrev Holds : WorkflowEngine → Type 0
  Holds e = lookup id e.workflows ≡ some w

  module _ (e : WorkflowEngine) (h : Holds e) where
    initialize-Holds : Holds (Workflow.initialize e).1
    unfolding Workflow.initialize Service.initialize
    initialize-Holds = ground arith

    start-Holds : Holds (Workflow.start e).1
    unfolding Workflow.start Service.start
    start-Holds = ground arith

    stop-Holds : Holds (Workflow.stop e).1
    unfolding Workflow.stop Service.stop
    stop-Holds = ground arith

    cancel-Holds : (k : String) (now : ℕ) → Holds (Workflow.cancel k now e).1
    unfolding Workflow.cancel
    cancel-Holds k now = elim (Bool-cases (k == id)) [
      | inl same ↦ rw ((eq_iff k id).0 same) (ground arith)
      | inr other ↦ elim (Option-cases (lookup k e.workflows)) [
        | inl absent ↦ ground arith
        | inr (v, p) ↦ ground (
          arith,
          lookup-insert k id (record v { state = WorkflowState.cancelled; completed_at = some now })
              e.workflows,
        )
      ]
    ]

    register-Holds :
        (name : String) (steps : List WorkflowStep) (wid : Option String) (new_id : String)
        (metadata : Payload)
        → IsFresh id (Call.register_workflow name steps wid new_id metadata)
        → Holds (Workflow.register_workflow name steps wid new_id metadata e).1
    unfolding Workflow.register_workflow
    register-Holds name steps none new_id metadata f = grind (arith, lookup-insert, eq_iff)
    register-Holds name steps (some k) new_id metadata f = grind (arith, lookup-insert, eq_iff)

    execute-Holds : (k : String) (ctx : Context) (t u : ℕ) → Holds (Workflow.execute k ctx t u e).1
    execute-Holds k ctx t u = elim (execute_gate k ctx t u e) [
      | inl (x, refused) ↦ rw refused h
      | inr (v, going, found, new) ↦ elim (Bool-cases (k == id)) [
        | inl same ↦ absurd (
            not_pending v w
              (eq_of_some (sym found ∙ ap (λ x. lookup x e.workflows) ((eq_iff k id).0 same) ∙ h))
              settled new)
        | inr other ↦ rw (execute_lem k ctx t u e v going found new, lookup-insert, other) h
      ]
    ]

    call-Holds : (c : Call) → IsFresh id c → Holds (call c e)
    unfolding call
    call-Holds Call.initialize f = initialize-Holds
    call-Holds Call.start f = start-Holds
    call-Holds Call.stop f = stop-Holds
    call-Holds (Call.register_workflow name steps wid new_id metadata) f =
        register-Holds name steps wid new_id metadata f
    call-Holds (Call.cancel k now) f = cancel-Holds k now
    call-Holds (Call.execute k ctx t u) f = execute-Holds k ctx t u

-- A workflow that is no longer pending (running in an aborted `execute`, completed, failed or
-- cancelled) keeps its record through any calls, provided that no new uuid repeats its id: no
-- workflow is executed twice, and none is cancelled after it ran.
pub run-settled :
    (cs : List Call) (e : WorkflowEngine) (id : String) (w : Workflow)
    → is_pending w.state ≡ false
    → lookup id e.workflows ≡ some w
    → AllFresh id cs
    → lookup id (run cs e).workflows ≡ some w
unfolding run
run-settled [] e id w settled h f = h
run-settled (c ∷ cs) e id w settled h f =
    run-settled cs (call c e) id w settled (call-Holds id w settled e h c f.0) f.1
