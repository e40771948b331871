-- ===== src/Worker.antt =====
-- src/commerce_operations/worker.py: one cycle of the worker. The heartbeat file and the log lines
-- are left out, and so is the loop of `run`, which calls `run_once` until the process is stopped.
pub mod Cycle
use cax_commerce_operations.Prelude.{
  ℕ, String, ◌+◌, ◌≤◌, ◌≡◌, refl, Option, none, some, List, [], ◌∷◌, map, length, inl, inr, arith,
}
use cax_commerce_operations.Errors.{Error, Result, ok, err, Result-cases}
use cax_commerce_operations.Events.Types.{EventType}
use cax_commerce_operations.Events.Store.{pending}
use cax_commerce_operations.Events.Handlers.{EventHandlerRegistry, empty_registry}
use cax_commerce_operations.Events.Processor.{process}
use cax_commerce_operations.Persistence.Models.{DomainEvent}
use cax_commerce_operations.Workflows.Definitions.{WorkflowEngine, WorkflowExecutionPolicy}
use cax_commerce_operations.Workflows.Scheduler.{retry_due}
use cax_commerce_operations.Application.Orchestration.Routes.{
  AutonomousOrchestrator, routes, steps, register_steps, register_routes,
}
use cax_commerce_operations.Session.{Db, Action}
use cax_commerce_operations.Session.Actions.{pure, gets, transact, ◌>>=◌}

-- `CORE_EVENT_TYPES`
abbrev pub core_event_types : List EventType
core_event_types =
    EventType.product_approved ∷ EventType.purchase_approved ∷ EventType.order_received
    ∷ EventType.low_stock ∷ EventType.order_returned ∷ []

pub record Worker : Type 0 where
  pub batch_size : ℕ
  pub engine : WorkflowEngine
  pub registry : EventHandlerRegistry

-- `Worker.__init__`: the steps of the orchestrator, which has no customer service agent, become the
-- workflows of an empty engine, and the core events get their handlers.
unfoldable pub new_worker :
    ℕ
    → WorkflowExecutionPolicy
    → ℕ
    → (ℕ → String)
    → (Error → String)
    → (Error → String)
    → Result Worker
new_worker batch_size policy multiplier id_text type_name message =
    let o : AutonomousOrchestrator = record {
      policy = policy;
      reorder_target_multiplier = multiplier;
      customer_service_agent = none;
      id_text = id_text;
    } in
    let engine : WorkflowEngine = record {
      definitions = [];
      type_name = type_name;
      message = message;
    } in
    elim (register_steps o.policy (steps o) engine) [
      | err e ↦ err e
      | ok full ↦ elim (register_routes full (some core_event_types) routes empty_registry) [
        | err e ↦ err e
        | ok registry ↦ ok (record { batch_size = batch_size; engine = full; registry = registry })
      ]
    ]

-- What the loop over the events does with the outcome of one: an EventProcessingError is logged.
abbrev pub counted : Error → ℕ → Result ℕ
counted Error.event_processing n = ok n
counted e n = err e

-- The loop over the events, which counts those that were processed.
unfoldable pub process_batch : EventHandlerRegistry → List ℕ → ℕ → Action ℕ
process_batch registry [] n s = (ok n, s)
process_batch registry (id ∷ ids) n s =
    let (r, s') = process registry id s in
    elim r [
      | ok _ ↦ process_batch registry ids (n + 1) s'
      | err e ↦ elim (counted e n) [ ok m ↦ process_batch registry ids m s' | err x ↦ (err x, s') ]
    ]

-- `Worker.run_once`
unfoldable pub run_once : Worker → Action ℕ
unfolding process_batch
run_once w = do
  events ← pending w.batch_size (some core_event_types)
  processed ← process_batch w.registry (map (λ (e : DomainEvent). e.id) events) 0
  retried ← transact (retry_due w.engine none w.batch_size)
  pure (processed + length retried)
