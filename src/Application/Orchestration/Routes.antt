-- ===== src/Application/Orchestration/Routes.antt =====
-- src/commerce_operations/application/orchestration.py: which event starts which workflow.
use Prim.Native.String.{◌++◌ as concat}
use cax_commerce_operations.Prelude.{
  ℕ, String, Bool, true, not, Option, none, some, List, [], ◌∷◌, Eq-string, contains, if◌then◌else◌,
}
use cax_commerce_operations.Errors.{Error, Result, ok, err}
use cax_commerce_operations.Events.Types.{EventPayload, EventType, Eq-event_type}
use cax_commerce_operations.Events.Store.{EventEnvelope}
use cax_commerce_operations.Events.Handlers.{EventHandlerRegistry, register}
use cax_commerce_operations.Workflows.Definitions.{
  WorkflowEngine, WorkflowExecutionPolicy, WorkflowStep, register_definition,
}
use cax_commerce_operations.Workflows.Scheduler.{handle_event}
use cax_commerce_operations.Application.CustomerService.Handling.{CustomerServiceAgent}
use cax_commerce_operations.Application.Orchestration.Reorder.{low_stock_to_reorder}
use cax_commerce_operations.Application.Orchestration.Reconciliation.{return_to_reconciliation}
use cax_commerce_operations.Application.Orchestration.{
  product_to_procurement, purchase_to_order, order_to_fulfilment, message_to_customer_service,
}
use cax_commerce_operations.Session.{Action}
use cax_commerce_operations.Session.Actions.{pure, raise, lift, ◌>>◌}

-- An orchestrator without listing agents and without a publication service, as the worker has it.
pub record AutonomousOrchestrator : Type 0 where
  pub policy : WorkflowExecutionPolicy
  pub reorder_target_multiplier : ℕ
  pub customer_service_agent : Option CustomerServiceAgent
  pub id_text : ℕ → String

abbrev read_stock_received : EventPayload → Result ℕ
read_stock_received (EventPayload.stock_received inventory_item_id _ _) = ok inventory_item_id
read_stock_received _ = err Error.validation_error

-- `_stock_to_listing`, where no listing agents are configured
unfoldable pub no_listing_agents : WorkflowStep
no_listing_agents event workflow =
    lift (read_stock_received event.body) >> raise Error.non_retryable_workflow

-- `_listing_to_publication`, where no publication service is configured
unfoldable pub no_publication_service : WorkflowStep
no_publication_service event workflow = raise Error.non_retryable_workflow

-- `routes`
abbrev pub routes : List (EventType × String)
routes =
    (EventType.product_approved, "product-approved-to-procurement")
    ∷ (EventType.purchase_approved, "purchase-approved-to-purchase-order")
    ∷ (EventType.stock_received, "stock-received-to-listing")
    ∷ (EventType.listing_approved, "listing-approved-to-publication")
    ∷ (EventType.order_received, "order-received-to-fulfilment")
    ∷ (EventType.low_stock, "low-stock-to-reorder-recommendation")
    ∷ (EventType.customer_message_received, "customer-message-to-service-agent")
    ∷ (EventType.order_returned, "order-returned-to-reconciliation")
    ∷ []

abbrev pub steps : AutonomousOrchestrator → List (String × WorkflowStep)
steps o =
    ("product-approved-to-procurement", product_to_procurement)
    ∷ ("purchase-approved-to-purchase-order", purchase_to_order)
    ∷ ("stock-received-to-listing", no_listing_agents)
    ∷ ("listing-approved-to-publication", no_publication_service)
    ∷ ("order-received-to-fulfilment", order_to_fulfilment)
    ∷ ("low-stock-to-reorder-recommendation", low_stock_to_reorder o.reorder_target_multiplier)
    ∷ ("customer-message-to-service-agent", message_to_customer_service o.customer_service_agent)
    ∷ ("order-returned-to-reconciliation", return_to_reconciliation o.id_text)
    ∷ []

-- The loop of `__init__`: every step becomes a definition of version 1.
unfoldable pub register_steps :
    WorkflowExecutionPolicy → List (String × WorkflowStep) → WorkflowEngine → Result WorkflowEngine
register_steps policy [] engine = ok engine
register_steps policy ((name, step) ∷ rest) engine =
    elim (register_definition (record { name = name; version = 1; step = step; policy = policy })
      engine) [ err e ↦ err e | ok next ↦ register_steps policy rest next ]

-- `_event_handler`
abbrev pub event_handler : WorkflowEngine → String → EventEnvelope → Action (Unit {0})
event_handler engine definition_name event =
    handle_event engine definition_name event none >> pure tt

-- `event_types is None or event_type in event_types`
abbrev pub is_wanted : Option (List EventType) → EventType → Bool
is_wanted none t = true
is_wanted (some types) t = contains t types

-- `register`, for the routes that are left
unfoldable pub register_routes :
    WorkflowEngine
    → Option (List EventType)
    → List (EventType × String)
    → EventHandlerRegistry
    → Result EventHandlerRegistry
register_routes engine types [] registry = ok registry
register_routes engine types ((t, name) ∷ rest) registry =
    if not (is_wanted types t)
    then register_routes engine types rest registry
    else elim (register t (concat "orchestrator:" name) (event_handler engine name) registry) [
      | err e ↦ err e
      | ok next ↦ register_routes engine types rest next
    ]
