-- ===== src/Dispatcher/Runs.antt =====
-- argus/dispatcher/dispatcher.py over argus/capability/registry.py and argus/workflow/engine.py:
-- from an intent to the steps of a workflow.
use argus_os.Prelude.{
  ℕ, String, Bool, ◌≡◌, refl, ap, ◌∙◌, false, some, [], ◌∷◌, ◌++◌, ok, arith, inl, inr, ◌&&◌,
  string_eq, eq_iff, is_empty, Bool-cases,
}
use argus_os.Prelude.Lists.{select}
use argus_os.Prelude.Dict.{Dict, lookup, insert, values}
use argus_os.Prelude.Entries.{Has}
use argus_os.Lifecycle.{LifecycleState}
use argus_os.Events.{EventType}
use argus_os.Planner.{Intent}
use argus_os.Capabilities.{Capability, is_blank, find_by_intent_type}
use argus_os.Capabilities.Names.{IsNamed}
use argus_os.Workflow.{Context, WorkflowState, Workflow, WorkflowEngine, name_payload}
use argus_os.Workflow
use argus_os.Workflow.Run.{
  Ending, run_actions, step_events, answer, closed, last_events, from_engine, begun, execute_lem,
}
use argus_os.Dispatcher.{
  Action, IntentDispatcher, build_action_from_capability, workflow_action, first_enabled, dispatch,
  intent_payload,
}
use argus_os.Dispatcher.Bracket.{event, executed, last, middle}
use argus_os.Dispatcher.Bracket

-- The capability that is chosen is registered.
first_enabled-Has :
    (p : Capability → Bool) (c : Capability) (d : Dict String Capability)
    → first_enabled (select p (values d)) ≡ some c
    → (k : String) × Has k c d
unfolding first_enabled select
first_enabled-Has p c [] h = cc
first_enabled-Has p c ((j, e) ∷ d) h = elim (Bool-cases (p e && e.enabled)) [
  | inl here ↦ (j, inl (refl, ground (arith, h, here)))
  | inr other ↦ let (k, m) = first_enabled-Has p c d (ground (arith, h, other)) in (k, inr m)
]

-- The action of a workflow.
abbrev pub action : String → (start_time end_time : ℕ) → Action
action id start_time end_time = record {
  kind = "workflow";
  workflow = some id;
  execute = λ context. Workflow.execute id context start_time end_time;
}

module _ (d : IntentDispatcher) (i : Intent) (c : Capability) (id : String)
    (start_time end_time : ℕ) (named : IsNamed d.registry)
    (chosen : first_enabled (find_by_intent_type i.name d.registry) ≡ some c)
    (kind : c.action_kind ≡ "workflow") (workflow : c.workflow_id ≡ some id) where
  not_blank : is_empty id ≡ false
  unfolding find_by_intent_type is_blank
  not_blank =
      let (k, m) = first_enabled-Has _ c d.registry.capabilities chosen in
      let r = named.runnable k c m in
      ground (arith, r, (eq_iff c.action_kind "workflow").1 kind, workflow)

  built : build_action_from_capability start_time end_time c ≡ ok (action id start_time end_time)
  unfolding build_action_from_capability workflow_action
  built = ground (arith, (eq_iff c.action_kind "workflow").1 kind, workflow, not_blank)

  module _ (context : Context) (w : Workflow) (is_running : d.state ≡ LifecycleState.running)
      (engine_running : d.workflows.state ≡ LifecycleState.running)
      (found : lookup id d.workflows.workflows ≡ some w)
      (is_new : w.state ≡ WorkflowState.pending) where
    abbrev ending : Ending
    ending = run_actions w.steps 0 context

    abbrev engine_after : WorkflowEngine
    engine_after = record d.workflows {
      workflows = insert id (closed ending end_time (begun w start_time)) d.workflows.workflows;
      published = last_events ending id w.name (
          step_events id w.steps 0 context (
            from_engine EventType.workflow_started (name_payload id w.name)
            ∷ d.workflows.published));
    }

    -- An intent whose first enabled capability, in a registry that keeps its checks, names a pending
    -- workflow of a running engine: a running dispatcher runs the steps of that workflow from the
    -- given context until one fails, answers the last context (a step that raises does not make the
    -- dispatch raise; one that returned no mapping does), and leaves the workflow completed, failed
    -- or (then) running.
    pub dispatch-run_actions :
        dispatch (build_action_from_capability start_time end_time) i context d ≡ (
          Bracket.answer (answer ending),
          record d {
            workflows = engine_after;
            published =
                last i (answer ending) ∷ middle i c (action id start_time end_time)
                ++ event EventType.intent_dispatched (intent_payload i) ∷ d.published;
          },
        )
    dispatch-run_actions =
        executed (build_action_from_capability start_time end_time) i context d is_running c
          (action id start_time end_time) chosen built
        ∙ ap
            (λ x. (
              Bracket.answer x.0,
              record d {
                workflows = x.1;
                published =
                    last i x.0 ∷ middle i c (action id start_time end_time)
                    ++ event EventType.intent_dispatched (intent_payload i) ∷ d.published;
              },
            ))
            (execute_lem id context start_time end_time d.workflows w engine_running found is_new)
