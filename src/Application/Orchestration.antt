-- ===== src/Application/Orchestration.antt =====
-- src/commerce_operations/application/orchestration.py: the steps of the workflows that the events
-- start. The steps of low stock and of returns have files of their own.
pub mod Reorder
pub mod Restock
pub mod Reconciliation
pub mod Returns
pub mod Routes
use Prim.Native.String.{◌++◌ as concat}
use cax_commerce_operations.Prelude.{
  ℕ, ◌+◌, ◌*◌, ◌-◌, max, String, Bool, true, false, not, ◌&&◌, ◌||◌, Option, none, some, List, [],
  ◌∷◌, ◌==◌, Eq-nat, Eq-string, Eq-option, any, contains, filter, find, is_empty, is_none, is_some,
  ltb, if◌then◌else◌,
}
use cax_commerce_operations.Prelude.Int.{ℤ, pos, pos_part, ltb_ℤ, Eq-int}
use cax_commerce_operations.Errors.{Error, Result, ok, err}
use cax_commerce_operations.Persistence.Enums.{
  ProcurementStatus, InventoryMovementType, OrderStatus, RefundStatus, ApprovalStatus,
  Eq-procurement_status, Eq-movement_type, Eq-order_status, Eq-refund_status, Eq-approval_status,
}
use cax_commerce_operations.Persistence.Keys.{Key}
use cax_commerce_operations.Persistence.Json.{Json, Object}
use cax_commerce_operations.Persistence.Tables.{get, put, add}
use cax_commerce_operations.Persistence.Models.{
  ProcurementRequest, PurchaseOrder, InventoryItem, InventoryMovement, Order, OrderItem, Refund,
  Approval, WorkflowRun, AuditEvent, available, HasId-procurement_request, HasId-supplier_quote,
  HasId-inventory_item, HasId-order, HasId-approval, HasId-workflow_run,
}
use cax_commerce_operations.Persistence.Commercial.{
  ReorderRecommendation, ReturnRecord, ReturnStatus, HasId-return_record,
}
use cax_commerce_operations.Persistence.Conversations.{CustomerMessage}
use cax_commerce_operations.Events.Types.{EventPayload}
use cax_commerce_operations.Events.Store.{EventEnvelope}
use cax_commerce_operations.Workflows.Definitions.{
  WorkflowOutcome, WorkflowStep, completed, waiting_for_approval,
}
use cax_commerce_operations.Application.Procurement.{run_of}
use cax_commerce_operations.Application.Inventory.{InventoryChangeResult, adjust}
use cax_commerce_operations.Application.Orders.Changes.{update_status}
use cax_commerce_operations.Application.CustomerService.Handling.{
  CustomerServiceAgent, decision_text,
}
use cax_commerce_operations.Application.CustomerService.Inbox.{process_received_event}
use cax_commerce_operations.Session.{Db, Action}
use cax_commerce_operations.Session.Actions.{
  pure, raise, gets, lift, or_raise, raise_if, modify, new_id, add_audit, ◌>>=◌, ◌>>◌,
}

-- `fail`: the error that ends a run at once.
abbrev pub refused : Error
refused = Error.non_retryable_workflow

abbrev read_product_approved : EventPayload → Result (ℕ × Option ℕ)
read_product_approved (EventPayload.product_approved product_id _ _ procurement_request_id) =
    ok (product_id, procurement_request_id)
read_product_approved _ = err Error.validation_error

abbrev requested_purchase : ℕ × Option ℕ → Db → Option ProcurementRequest
requested_purchase (product_id, none) s = find (λ q. q.product_id == product_id) s.requests
requested_purchase (product_id, some id) s = get id s.requests

-- `request is None or request.status not in valid_states`
abbrev in_state : List ProcurementStatus → Option ProcurementRequest → Option ProcurementRequest
in_state states none = none
in_state states (some q) = if contains q.status states then some q else none

-- `_product_to_procurement`
unfoldable pub product_to_procurement : WorkflowStep
product_to_procurement event workflow = do
  payload ← lift (read_product_approved event.body)
  request ← (λ s.
      or_raise
        (in_state
          (ProcurementStatus.proposed ∷ ProcurementStatus.awaiting_approval
            ∷ ProcurementStatus.approved ∷ ProcurementStatus.ordered ∷ ProcurementStatus.shipped
            ∷ ProcurementStatus.received ∷ [])
          (requested_purchase payload s))
        refused s)
  quote ← (λ s. or_raise (get request.selected_quote_id s.quotes) refused s)
  pure (
      some
        (completed "procurement_proposed" (("procurement_request_id", Json.ident request.id) ∷ [])))

abbrev read_purchase_approved : EventPayload → Result ℕ
read_purchase_approved (EventPayload.purchase_approved procurement_request_id _) =
    ok procurement_request_id
read_purchase_approved _ = err Error.validation_error

-- `_purchase_to_order`
unfoldable pub purchase_to_order : WorkflowStep
purchase_to_order event workflow = do
  id ← lift (read_purchase_approved event.body)
  request ← (λ s.
      or_raise
        (in_state
          (ProcurementStatus.approved ∷ ProcurementStatus.ordered ∷ ProcurementStatus.shipped
            ∷ ProcurementStatus.received ∷ [])
          (get id s.requests))
        refused s)
  order ← (λ s. or_raise (find (λ p. p.procurement_request_id == id) s.purchase_orders) refused s)
  pure (some (completed "purchase_order_created" (("purchase_order_id", Json.ident order.id) ∷ [])))

abbrev read_order_received : EventPayload → Result ℕ
read_order_received (EventPayload.order_received order_id _ _) = ok order_id
read_order_received _ = err Error.validation_error

abbrev pub is_reservation : ℕ → ℕ → InventoryMovement → Bool
is_reservation order_id item_id m =
    m.source_id == order_id
    && m.inventory_item_id == item_id
    && m.movement_type == InventoryMovementType.reservation

-- The loop over the order's items: each has a reference and a movement.
abbrev pub all_reserved : ℕ → List OrderItem → Db → Bool
all_reserved order_id [] s = true
all_reserved order_id (line ∷ lines) s =
    is_some line.reservation_reference
    && any (is_reservation order_id line.inventory_item_id) s.movements
    && all_reserved order_id lines s

-- `_order_to_fulfilment`
unfoldable pub order_to_fulfilment : WorkflowStep
order_to_fulfilment event workflow = do
  id ← lift (read_order_received event.body)
  order ← (λ s. or_raise (get id s.orders) refused s)
  raise_if (is_empty order.items) refused
  run ← (λ s. or_raise (run_of order.workflow_run_id s) refused s)
  ready ← gets (all_reserved order.id order.items)
  raise_if
      (contains order.status (OrderStatus.pending ∷ OrderStatus.paid ∷ OrderStatus.processing ∷ [])
        && not ready)
      refused
  pure (some (completed "fulfilment_ready" (("fulfilment_workflow_id", Json.ident run.id) ∷ [])))

abbrev message_checkpoints : ℕ → CustomerMessage → Object
message_checkpoints id m =
    ("customer_message_id", Json.ident id)
    ∷ (
      "classification",
      elim m.classification [ none ↦ Json.null | some d ↦ Json.text (decision_text d) ],
    )
    ∷ []

-- What follows for a message whose draft has an approval.
unfoldable pub await_response : WorkflowRun → ℕ → Object → Action (Option WorkflowOutcome)
await_response workflow approval_id checkpoints = do
  approval ← (λ s. or_raise (get approval_id s.approvals) refused s)
  if approval.status == ApprovalStatus.approved
      then pure (some (completed "customer_response_approved" checkpoints))
      else do
        modify (λ s. record s {
          approvals = put (record approval { workflow_run_id = some workflow.id }) s.approvals;
        })
        pure (
            some
              (waiting_for_approval "awaiting_customer_response_approval" approval_id checkpoints))

-- `_message_to_customer_service`
unfoldable pub message_to_customer_service : Option CustomerServiceAgent → WorkflowStep
unfolding await_response
message_to_customer_service none event workflow = raise refused
message_to_customer_service (some agent) event workflow = do
  message ← process_received_event agent event
  raise_if (is_none message.classification) refused
  let checkpoints = message_checkpoints message.id message
  elim message.approval_id [
    | none ↦ pure (some (completed "customer_message_classified" checkpoints))
    | some approval_id ↦ await_response workflow approval_id checkpoints
  ]
