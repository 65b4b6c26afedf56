-- ===== src/Lib.antt =====
-- ArgusOS: the services of the core and the sales module, modelled and verified.
--
-- The program is a set of in-process services that bootstrap.py wires together. Each service keeps
-- a registry in a dict, raises on bad calls, and publishes events on a shared bus. The files model
-- them one for one; functions have the names of the methods.
--
--   Prelude.antt      Python's dict (insertion-ordered association list), list operations, the
--                     stable sort of `sorted`, and methods that may raise: a method takes the
--                     object's state and gives a result or an exception beside the state then.
--   Lifecycle.antt    argus/lifecycle/lifecycle.py: LifecycleState, LifecycleManager.
--   Events.antt       argus/events/event_types.py, event.py; Events/Bus.antt is event_bus.py.
--   Service.antt      the initialize/start/stop that every engine repeats, over an interface to its
--                     `_state`; Service/Agreement.antt compares it with the LifecycleManager.
--   Workflow.antt     argus/workflow/engine.py, workflow.py, state.py.
--   Graph.antt        argus/knowledge_graph/graph.py, entity.py, relationship.py.
--   Scheduler.antt    argus/scheduler/scheduler.py, task.py; Scheduler/Triggers.antt is triggers.py.
--                     Scheduler/Due.antt states the order of a tick apart from the code's.
--   Planner.antt      argus/planner/planner.py, plan.py, step.py; Planner/Numbering.antt and
--                     Planner/Reorder.antt are its theorems.
--   Runtime.antt      argus/runtime/runtime.py, execution.py: executions of the Planner's plans.
--                     Runtime/Loop.antt is one turn of the loop of `_run`, Runtime/Ended.antt its
--                     end with any dispatcher, Runtime/Played.antt and Runtime/Resumed.antt the run
--                     and the resumed run against a plain fold.
--   Registry.antt     argus/services/service_registry.py, service_descriptor.py; Registry/View.antt
--                     is its specification as a partial function.
--   Sales.antt        argus/modules/sales/events.py; Sales/WorkQueue.antt is work_queue/ and the
--                     WorkItem of work_items/; Sales/Importer.antt, Sales/Rows.antt and
--                     Sales/Records.antt are import_pipeline/ and the records that it builds.
--   Reasoning.antt    argus/reasoning/engine.py, query.py, result.py, over Graph: what it computes
--                     from the relationships; Reasoning/Engine.antt, Queries and Requests are the
--                     operations. Reach, Paths and Answered have its theorems, with Frontier,
--                     Search, Known, Safe and Reading below them.
--   Decision.antt     argus/decision/engine.py, rule.py, decision.py: rules over the results of the
--                     reasoning.
--   Capabilities.antt argus/capability/registry.py, capability.py.
--   Dispatcher.antt   argus/dispatcher/dispatcher.py, action.py, over Capabilities and Workflow.
--   Conversation.antt argus/conversation/manager.py, session.py, message.py, state.py, over Workflow.
--   Connectors.antt   argus/connectors/manager.py, connector.py, interfaces.py.
--   Executor.antt     argus/capability_executor/executor.py, builder.py, result.py, metadata.py,
--                     status.py, over Capabilities.
--   Knowledge.antt    argus/knowledge/knowledge_service.py, knowledge_record.py.
--   Plugins.antt      argus/plugins/manager.py, plugin.py.
--   Memory.antt       argus/memory/memory_service.py, memory_record.py.
--   MemoryIntegration.antt  argus/memory_integration/integration.py, over Memory and Graph;
--                     MemoryIntegration/Mapper.antt is mapper.py.
--
-- A component publishes through the bus; in its own model the bus is the list of the events that it
-- published, the last one first, which means that subscribers return and do not call back. The
-- bus itself is modelled with subscribers that raise and that change subscriptions.
--
-- Where a component calls another one that is modelled, it holds that one's state and runs its
-- methods: the dispatcher and the conversation manager run workflows, the executor asks the
-- capability registry, the reasoning engine reads the graph, and the memory integration writes
-- it.
--
-- Parameters stand for what is not in the sources: callbacks, step actions and handlers are
-- functions with a stated contract; readings of the clock and new uuids are arguments, as
-- unconstrained numbers and texts; a hypothesis asks for a fresh uuid where the code relies on
-- it. Times are numbers of microseconds without a bound, so no computation of a time overflows.
-- Texts of exceptions are left out, but for what an event carries. Arguments have the classes
-- that their annotations say, so `isinstance` checks pass. Threads are left out, and so is the
-- Scheduler's lock. All loops run over finite lists, but that of `_run` in the Runtime, which
-- takes fuel: one more than the steps that are left is enough, since every turn that goes on sets
-- current_step to one more than it was.
--
-- Not modelled: bootstrap.py and other wiring, storage on disk, the intent parser (a parameter of the
-- conversation manager), the execution engine and the pipeline, the agent service,
-- the builders and the plain data classes of the packages not named above, and the command line.
pub mod Prelude
pub mod Lifecycle
pub mod Events
pub mod Service
pub mod Workflow
pub mod Graph
pub mod Scheduler
pub mod Planner
pub mod Runtime
pub mod Sales
pub mod Registry
pub mod Reasoning
pub mod Decision
pub mod Capabilities
pub mod Dispatcher
pub mod Conversation
pub mod Memory
pub mod MemoryIntegration
pub mod Connectors
pub mod Plugins
pub mod Knowledge
pub mod Executor
