-- ===== src/Application/Procurement.antt =====
-- src/commerce_operations/application/procurement.py: a purchase from its request to the receipt of
-- the goods.
pub mod Steps
pub mod Progress
use cax_commerce_operations.Prelude.{
  ℕ, ◌+◌, ◌*◌, String, Bool, true, false, not, Option, none, some, List, [], ◌∷◌, ◌==◌, Eq-nat,
  Eq-string, find, or_else, ltb, if◌then◌else◌,
}
use cax_commerce_operations.Prelude.Int.{pos}
use cax_commerce_operations.Errors.{Error, Result, ok, err}
use cax_commerce_operations.Persistence.Enums.{ProcurementStatus, PurchaseOrderStatus, RunStatus}
use cax_commerce_operations.Persistence.Keys.{Key}
use cax_commerce_operations.Persistence.Json.{Json, Object}
use cax_commerce_operations.Persistence.Tables.{get, put, add}
use cax_commerce_operations.Persistence.Models.{
  SupplierQuote, ProcurementRequest, PurchaseOrder, Approval, WorkflowRun, AuditEvent,
  HasId-supplier_quote, HasId-procurement_request, HasId-purchase_order, HasId-workflow_run,
}
use cax_commerce_operations.Domains.Procurement.{ProcurementTransition, transition}
use cax_commerce_operations.Events.Types.{EventPayload}
use cax_commerce_operations.Events.Store.{emit}
use cax_commerce_operations.Approvals.Policy.{ApprovalActionType, ApprovalContext, value}
use cax_commerce_operations.Approvals.Engine.{ApprovalEngine, ApprovalRequest, request_if_required}
use cax_commerce_operations.Session.{Db, Action}
use cax_commerce_operations.Session.Actions.{
  pure, raise, gets, lift, or_raise, raise_if, modify, new_id, add_audit, ◌>>=◌, ◌>>◌,
}

abbrev pub status_text : ProcurementStatus → String
status_text ProcurementStatus.proposed = "proposed"
status_text ProcurementStatus.awaiting_approval = "awaiting_approval"
status_text ProcurementStatus.approved = "approved"
status_text ProcurementStatus.ordered = "ordered"
status_text ProcurementStatus.shipped = "shipped"
status_text ProcurementStatus.received = "received"
status_text ProcurementStatus.cancelled = "cancelled"

-- `ProcurementService.get`
abbrev pub find_request : ℕ → Action ProcurementRequest
find_request id s = or_raise (get id s.requests) Error.procurement_not_found s

-- `session.get(WorkflowRun, workflow_run_id)`, where the id may be None.
abbrev pub run_of : Option ℕ → Db → Option WorkflowRun
run_of none s = none
run_of (some id) s = get id s.workflows

-- `_workflow`
abbrev pub workflow_of : ProcurementRequest → Action WorkflowRun
workflow_of request s = or_raise (run_of request.workflow_run_id s) Error.procurement_not_found s

abbrev pub order_of : ℕ → Db → Option PurchaseOrder
order_of request_id s = find (λ o. o.procurement_request_id == request_id) s.purchase_orders

-- `_purchase_order`
abbrev pub purchase_order_of : ℕ → Action PurchaseOrder
purchase_order_of request_id s = or_raise (order_of request_id s) Error.purchase_order_not_found s

-- Changed rows, as they are written at the next flush.
unfoldable pub save_request : ProcurementRequest → Action ProcurementRequest
save_request request s =
    let r = record request { version = request.version + 1 } in
    (ok r, record s { requests = put r s.requests })

unfoldable pub save_order : PurchaseOrder → Action (Unit {0})
save_order order s = (
  ok tt,
  record s {
    purchase_orders = put (record order { version = order.version + 1 }) s.purchase_orders;
  },
)

unfoldable pub save_workflow : WorkflowRun → Action (Unit {0})
save_workflow workflow s = (
  ok tt,
  record s { workflows = put (record workflow { version = workflow.version + 1 }) s.workflows },
)

abbrev procurement_audit :
    ProcurementRequest → ProcurementTransition → String → String → WorkflowRun → AuditEvent
procurement_audit request change actor reason workflow = record {
  actor_type = if not (actor == "system") then "user" else "system";
  actor_id = actor;
  action = "procurement.status_changed";
  resource_type = "procurement_request";
  resource_id = request.id;
  before_state = some (("status", Json.text (status_text change.previous)) ∷ []);
  after_state = some (("status", Json.text (status_text change.current)) ∷ []);
  reason = some reason;
  correlation_id = workflow.correlation_id;
}

-- `_apply_transition`: returns the request as it is afterwards.
unfoldable pub apply_transition :
    ProcurementRequest → ProcurementStatus → String → String → Action ProcurementRequest
unfolding save_request add_audit
apply_transition request target actor reason = do
  change ← lift (transition request.status target)
  r ← save_request (record request { status = target })
  workflow ← workflow_of r
  add_audit (procurement_audit r change actor reason workflow)
  emit
      (EventPayload.procurement_status_changed r.id (status_text change.previous)
        (status_text change.current) actor)
      "procurement_request" r.id r.version workflow.correlation_id (some workflow.id)
      (Key.of_part "procurement-status" r.id (status_text target))
  pure r

-- `_purchase_total`
abbrev pub purchase_total : SupplierQuote → ℕ → ℕ
purchase_total quote quantity = quote.unit_cost * quantity + quote.shipping_cost

abbrev purchase_request : ProcurementRequest → SupplierQuote → String → String → ApprovalRequest
purchase_request request quote requester reason = record {
  action_type = value ApprovalActionType.supplier_purchase;
  resource_type = "procurement_request";
  resource_id = request.id;
  requested_action =
      ("operation", Json.text "create_purchase_order")
      ∷ ("supplier_id", Json.ident quote.supplier_id)
      ∷ ("quote_id", Json.ident quote.id)
      ∷ ("quantity", Json.int (pos request.requested_quantity))
      ∷ ("unit_cost", Json.amount (pos quote.unit_cost))
      ∷ ("shipping_cost", Json.amount (pos quote.shipping_cost))
      ∷ ("total_amount", Json.amount (pos (purchase_total quote request.requested_quantity)))
      ∷ ("currency", Json.text quote.currency)
      ∷ [];
  reason = reason;
  requester = requester;
  risk_level = "financial";
  workflow_run_id = request.workflow_run_id;
  expires_at = none;
}

-- `submit_for_approval`
unfoldable pub submit_for_approval : ℕ → String → String → ApprovalEngine → Action Approval
unfolding save_workflow
submit_for_approval id requester reason engine = do
  request ← find_request id
  quote ← (λ s. or_raise (get request.selected_quote_id s.quotes) Error.procurement_not_found s)
  raise_if (ltb request.requested_quantity quote.moq) Error.procurement_validation
  r ← apply_transition request ProcurementStatus.awaiting_approval requester reason
  asked ←
      request_if_required engine
        (record {
          action_type = ApprovalActionType.supplier_purchase;
          amount = some (pos (purchase_total quote r.requested_quantity));
          price_change_percent = none;
          is_first_publication = false;
          risk_level = "financial";
        })
        (purchase_request r quote requester reason)
  approval ← or_raise asked Error.runtime_error
  workflow ← workflow_of r
  emit (EventPayload.procurement_requested r.id r.product_id (pos r.requested_quantity))
      "procurement_request" r.id r.version workflow.correlation_id (some workflow.id)
      (Key.of_id "procurement-requested" r.id)
  save_workflow (record workflow { current_step = some "awaiting_purchase_approval" })
  pure approval

abbrev new_order : ℕ → ProcurementRequest → SupplierQuote → Approval → PurchaseOrder
new_order id request quote approval = record {
  id = id;
  version = 1;
  procurement_request_id = request.id;
  supplier_id = quote.supplier_id;
  quantity = request.requested_quantity;
  received_quantity = 0;
  total_amount = purchase_total quote request.requested_quantity;
  actual_landed_cost = none;
  currency = quote.currency;
  terms = ("approval_id", Json.ident approval.id) ∷ [];
  external_reference = none;
  status = PurchaseOrderStatus.approved;
  ordered_at = none;
  shipped_at = none;
  received_at = none;
  expected_arrival_at = request.expected_arrival_at;
}

-- `_create_purchase_order`. `po_number` is the text that is made from the request's id.
unfoldable pub create_purchase_order :
    (ℕ → String) → ProcurementRequest → Approval → Action PurchaseOrder
unfolding new_id
create_purchase_order po_number request approval = do
  existing ← gets (order_of request.id)
  elim existing [
    | some order ↦ pure order
    | none ↦ do
      quote ← (λ s. or_raise (get request.selected_quote_id s.quotes) Error.procurement_not_found s)
      id ← new_id
      let order = new_order id request quote approval
      modify (λ s. record s { purchase_orders = add order s.purchase_orders })
      workflow ← workflow_of request
      emit (EventPayload.purchase_order_created order.id request.id (po_number request.id))
          "purchase_order" order.id order.version workflow.correlation_id (some workflow.id)
          (Key.of_id "purchase-order-created" request.id)
      pure order
  ]

-- `approve_purchase`, the resume handler of a purchase's approval.
unfoldable pub approve_purchase : (ℕ → String) → Approval → Action (Unit {0})
unfolding create_purchase_order save_workflow
approve_purchase po_number approval = do
  raise_if (not (approval.resource_type == "procurement_request")) Error.runtime_error
  request ← find_request approval.resource_id
  r ←
      apply_transition request ProcurementStatus.approved
        (or_else approval.decided_by "approval-engine")
        (or_else approval.rationale "Purchase approved")
  workflow ← workflow_of r
  emit (EventPayload.purchase_approved r.id approval.id) "procurement_request" r.id r.version
      workflow.correlation_id (some workflow.id) (Key.of_id "purchase-approved" r.id)
  create_purchase_order po_number r approval
  save_workflow (record workflow { current_step = some "purchase_order_created" })

-- `mark_ordered`
unfoldable pub mark_ordered :
    ℕ → String → String → Option String → Option ℕ → Action ProcurementRequest
unfolding save_order
mark_ordered id actor reason external_reference at = do
  request ← find_request id
  order ← purchase_order_of request.id
  now ← gets (λ s. or_else at s.clock)
  r ← apply_transition request ProcurementStatus.ordered actor reason
  save_order (record order {
    status = PurchaseOrderStatus.submitted;
    ordered_at = some now;
    external_reference = external_reference;
  })
  pure r

-- The optional arrival time of `mark_shipped`.
unfoldable pub note_arrival :
    Option ℕ → ProcurementRequest → PurchaseOrder → Action ProcurementRequest
unfolding save_order save_request
note_arrival none r order = do save_order order; pure r
note_arrival (some arrival) r order = do
  save_order (record order { expected_arrival_at = some arrival })
  save_request (record r { expected_arrival_at = some arrival })

-- `mark_shipped`
unfoldable pub mark_shipped : ℕ → String → String → Option ℕ → Option ℕ → Action ProcurementRequest
unfolding note_arrival
mark_shipped id actor reason expected_arrival_at at = do
  request ← find_request id
  order ← purchase_order_of request.id
  now ← gets (λ s. or_else at s.clock)
  r ← apply_transition request ProcurementStatus.shipped actor reason
  note_arrival expected_arrival_at r
      (record order { status = PurchaseOrderStatus.shipped; shipped_at = some now })

-- `mark_received`
unfoldable pub mark_received : ℕ → String → String → Option ℕ → Action ProcurementRequest
unfolding save_order save_workflow
mark_received id actor reason at = do
  request ← find_request id
  order ← purchase_order_of request.id
  now ← gets (λ s. or_else at s.clock)
  r ← apply_transition request ProcurementStatus.received actor reason
  save_order (record order { status = PurchaseOrderStatus.received; received_at = some now })
  workflow ← workflow_of r
  save_workflow
      (record workflow { status = RunStatus.succeeded; current_step = some "goods_received" })
  pure r

abbrev pub cancel_order : Option PurchaseOrder → Action (Unit {0})
unfolding save_order
cancel_order none = pure tt
cancel_order (some order) = save_order (record order { status = PurchaseOrderStatus.cancelled })

-- `cancel`
unfoldable pub cancel : ℕ → String → String → Action ProcurementRequest
unfolding save_workflow
cancel id actor reason = do
  request ← find_request id
  r ← apply_transition request ProcurementStatus.cancelled actor reason
  order ← gets (order_of id)
  cancel_order order
  workflow ← workflow_of r
  save_workflow (record workflow { status = RunStatus.cancelled; current_step = some "cancelled" })
  pure r
