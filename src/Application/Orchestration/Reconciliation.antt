-- ===== src/Application/Orchestration/Reconciliation.antt =====
-- src/commerce_operations/application/orchestration.py: the step of a returned order.
use Prim.Native.String.{◌++◌ as concat}
use cax_commerce_operations.Prelude.{
  ℕ, ◌+◌, String, Bool, false, not, ◌||◌, Option, none, some, List, [], ◌∷◌, ◌==◌, Eq-nat,
  Eq-string, Eq-option, any, contains, filter, find, ltb, if◌then◌else◌,
}
use cax_commerce_operations.Prelude.Int.{ℤ, pos, Eq-int}
use cax_commerce_operations.Errors.{Error, Result, ok, err}
use cax_commerce_operations.Persistence.Enums.{
  OrderStatus, RefundStatus, Eq-procurement_status, Eq-movement_type, Eq-order_status,
  Eq-refund_status, Eq-approval_status,
}
use cax_commerce_operations.Persistence.Keys.{Key}
use cax_commerce_operations.Persistence.Json.{Json}
use cax_commerce_operations.Persistence.Tables.{get, put}
use cax_commerce_operations.Persistence.Models.{
  Order, OrderItem, Refund, WorkflowRun, AuditEvent, HasId-procurement_request,
  HasId-supplier_quote, HasId-inventory_item, HasId-order, HasId-approval, HasId-workflow_run,
}
use cax_commerce_operations.Persistence.Commercial.{ReturnRecord, ReturnStatus, HasId-return_record}
use cax_commerce_operations.Events.Types.{EventPayload}
use cax_commerce_operations.Workflows.Definitions.{WorkflowOutcome, WorkflowStep, completed}
use cax_commerce_operations.Application.Inventory.{adjust}
use cax_commerce_operations.Application.Orders.Changes.{update_status}
use cax_commerce_operations.Session.{Db, Action}
use cax_commerce_operations.Session.Actions.{
  pure, gets, lift, raise_if, modify, add_audit, ◌>>=◌, ◌>>◌,
}
use cax_commerce_operations.Application.Orchestration.{refused}

-- `return_record.order_item`
abbrev pub item_of : Option ℕ → List Order → Option OrderItem
item_of none orders = none
item_of (some id) [] = none
item_of (some id) (o ∷ orders) =
    let rest = item_of (some id) orders in
    elim (find (λ i. i.id == id) o.items) [ some i ↦ some i | none ↦ rest ]

abbrev pub read_order_returned : EventPayload → Result (ℕ × ℕ × ℤ)
read_order_returned (EventPayload.order_returned order_id return_id quantity) =
    ok (order_id, return_id, quantity)
read_order_returned _ = err Error.validation_error

-- The return and the order of the event, if the one belongs to the other.
abbrev pub returned_order : ℕ × ℕ × ℤ → Db → Option (ReturnRecord × Order)
returned_order (order_id, return_id, quantity) s = elim (get return_id s.returns) [
  | none ↦ none
  | some r ↦ elim (get order_id s.orders) [
    | none ↦ none
    | some o ↦ if r.order_id == o.id then some (r, o) else none
  ]
]

abbrev pub dispositions : List String
dispositions = "sellable" ∷ "damaged" ∷ "discarded" ∷ []

abbrev pub known_disposition : Option String → Bool
known_disposition none = false
known_disposition (some d) = contains d dispositions

-- The ordered line that comes back, if the return can be booked.
abbrev pub returned_line : ReturnRecord → List Order → Option OrderItem
returned_line r orders =
    if known_disposition r.disposition then item_of r.order_item_id orders else none

abbrev pub is_sellable : ReturnRecord → Bool
is_sellable r = r.disposition == some "sellable"

abbrev is_refunded : Refund → Bool
is_refunded r =
    contains r.status
      (RefundStatus.approved ∷ RefundStatus.processing ∷ RefundStatus.completed ∷ [])

abbrev pub sum_amounts : List Refund → ℕ
sum_amounts [] = 0
sum_amounts (r ∷ rs) = r.amount + sum_amounts rs

abbrev pub refunds_of : ℕ → Db → List Refund
refunds_of order_id s = filter (λ r. r.order_id == order_id) s.refunds

abbrev pub refunded_total : List Refund → ℕ
refunded_total refunds = sum_amounts (filter is_refunded refunds)

-- The goods go back into stock if they can be sold. `id_text` is the text of an id.
unfoldable pub restock : (ℕ → String) → ReturnRecord → OrderItem → Action (Unit {0})
restock id_text r line =
    if is_sellable r
    then adjust line.inventory_item_id (pos r.quantity) (concat "Sellable return " (id_text r.id))
        "system" (Key.of_id "return-receipt" r.id) none
      >> pure tt
    else pure tt

-- The refunds of the order are in its currency and do not exceed its total.
unfoldable pub reconcile_refunds : Order → Action ℕ
reconcile_refunds order = do
  refunds ← gets (refunds_of order.id)
  raise_if (any (λ r. not (r.currency == order.currency)) refunds) refused
  raise_if (ltb order.total_amount (refunded_total refunds)) refused
  pure (refunded_total refunds)

unfoldable pub mark_returned : Order → Action (Unit {0})
mark_returned order =
    if order.status == OrderStatus.returned
    then pure tt
    else update_status order.id OrderStatus.returned "system" "Marketplace return reconciliation"
      >> pure tt

abbrev return_audit : WorkflowRun → ReturnRecord → ℕ → AuditEvent
return_audit workflow r refunded = record {
  actor_type = "system";
  actor_id = "return-reconciliation";
  action = "return.reconciled";
  resource_type = "return";
  resource_id = r.id;
  before_state = none;
  after_state = some (
      ("disposition", elim r.disposition [ none ↦ Json.null | some d ↦ Json.text d ])
      ∷ ("inventory_restocked", Json.flag (is_sellable r))
      ∷ ("refunded_amount", Json.amount (pos refunded))
      ∷ []);
  reason = some "Inventory and financial return reconciliation";
  correlation_id = workflow.correlation_id;
}

abbrev pub reconciled : ReturnRecord → ℕ → Option WorkflowOutcome
reconciled r refunded = some (
    completed "return_reconciled"
      (("return_id", Json.ident r.id) ∷ ("refunded_amount", Json.amount (pos refunded)) ∷ []))

-- What follows the stock: the refunds are checked, and the order and the return are closed.
unfoldable pub close_return : WorkflowRun → ReturnRecord → Order → Action (Option WorkflowOutcome)
unfolding reconcile_refunds mark_returned add_audit
close_return workflow r order = do
  refunded ← reconcile_refunds order
  mark_returned order
  modify (λ s. record s { returns = put (record r { status = ReturnStatus.completed }) s.returns })
  add_audit (return_audit workflow r refunded)
  pure (reconciled r refunded)

-- The part of `_return_to_reconciliation` that writes.
unfoldable pub reconcile :
    (ℕ → String) → WorkflowRun → ReturnRecord → Order → OrderItem → Action (Option WorkflowOutcome)
unfolding restock close_return
reconcile id_text workflow r order line = restock id_text r line >> close_return workflow r order

-- The return, the order and the line of an event that can be reconciled.
unfoldable pub check_return : ℕ × ℕ × ℤ → Db → Result (ReturnRecord × Order × OrderItem)
check_return payload s = elim (returned_order payload s) [
  | none ↦ err refused
  | some (r, order) ↦ elim (returned_line r s.orders) [
    | none ↦ err refused
    | some line ↦
        if not (payload.2 == pos r.quantity) || ltb line.quantity r.quantity
        then err refused
        else ok (r, order, line)
  ]
]

-- `_return_to_reconciliation`
unfoldable pub return_to_reconciliation : (ℕ → String) → WorkflowStep
unfolding check_return reconcile
return_to_reconciliation id_text event workflow = do
  payload ← lift (read_order_returned event.body)
  rows ← (λ s. lift (check_return payload s) s)
  reconcile id_text workflow rows.0 rows.1 rows.2
