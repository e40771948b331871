-- ===== src/Examples/Purchases.antt =====
-- A purchase that is ordered, and goods that arrive for one that was shipped.
use cax_commerce_operations.Prelude.{◌≡◌, ◌⊎◌, refl, true, none, some, [], ◌∷◌, arith, false}
use cax_commerce_operations.Prelude.Int.{pos, ◌+ℤ◌}
use cax_commerce_operations.Errors.{ok}
use cax_commerce_operations.Persistence.Enums.{
  ProcurementStatus, PurchaseOrderStatus, RunStatus, InventoryMovementType,
}
use cax_commerce_operations.Persistence.Keys.{Key, CorrelationId, WorkflowName}
use cax_commerce_operations.Persistence.Tables.{put}
use cax_commerce_operations.Persistence.Models.{
  SupplierQuote, ProcurementRequest, PurchaseOrder, InventoryItem, InventoryMovement, WorkflowRun,
}
use cax_commerce_operations.Domains.Procurement.{transition}
use cax_commerce_operations.Domains.Inventory.{apply_quantity_change, weighted_cost_basis, half_up}
use cax_commerce_operations.Events.Store.{
  create_event, emit, publish, publish_to, insert_event, to_record,
}
use cax_commerce_operations.Application.Procurement.{
  apply_transition, mark_ordered, save_request, save_order,
}
use cax_commerce_operations.Application.Procurement.Steps.{OrdersAreKeyed}
use cax_commerce_operations.Application.Procurement.Progress.{
  Advances, Call, orders_follow_requests,
}
use cax_commerce_operations.Application.Inventory.{
  InventoryChangeResult, save_item, insert_movement, record_change, correlation_of, note_receipt,
  note_low_stock,
}
use cax_commerce_operations.Application.Inventory.Receipts.{
  Receipt, receive, receive_new, receivable_order, item_for, book_receipt, complete_receipt,
}
use cax_commerce_operations.Application.Inventory.Arrival.{
  ItemsAreKeyed, Accepted, Booked, receive_cases,
}
use cax_commerce_operations.Application.Stock.{Moves}
use cax_commerce_operations.Session.{Db, empty_db}
use cax_commerce_operations.Session.Actions.{new_id, add_audit}

abbrev quote : SupplierQuote
quote = record {
  id = 1;
  product_id = 2;
  supplier_id = 3;
  external_quote_id = "Q-1";
  currency = "EUR";
  moq = 5;
  quantity = 10;
  unit_cost = 100000;
  shipping_cost = 50000;
  lead_time_days = 7;
  valid_until = none;
  source_reference = none;
}

abbrev run : WorkflowRun
run = record {
  id = 4;
  version = 1;
  workflow_name = WorkflowName.plain "procurement";
  workflow_version = 1;
  correlation_id = CorrelationId.of_row 4;
  source_event_id = none;
  idempotency_key = none;
  status = RunStatus.running;
  current_step = none;
  attempts = 0;
  next_retry_at = none;
  error = none;
  checkpoints = [];
  max_attempts = 3;
  timeout_seconds = 300;
  started_at = none;
  deadline_at = none;
  completed_at = none;
  waiting_approval_id = none;
  cost_amount = 0;
  cost_currency = none;
  created_at = 0;
}

abbrev request : ProcurementStatus → ProcurementRequest
request status = record {
  id = 5;
  version = 1;
  product_id = 2;
  selected_quote_id = 1;
  workflow_run_id = some 4;
  requested_quantity = 10;
  estimated_landed_cost = 105000;
  currency = "EUR";
  recommendation_context = none;
  expected_arrival_at = none;
  status = status;
}

abbrev purchase : PurchaseOrderStatus → PurchaseOrder
purchase status = record {
  id = 6;
  version = 1;
  procurement_request_id = 5;
  supplier_id = 3;
  quantity = 10;
  received_quantity = 0;
  total_amount = 1050000;
  actual_landed_cost = none;
  currency = "EUR";
  terms = [];
  external_reference = none;
  status = status;
  ordered_at = none;
  shipped_at = none;
  received_at = none;
  expected_arrival_at = none;
}

abbrev bought : ProcurementStatus → PurchaseOrderStatus → Db
bought status order_status = record empty_db {
  next_id = 20;
  quotes = quote ∷ [];
  requests = request status ∷ [];
  purchase_orders = purchase order_status ∷ [];
  workflows = run ∷ [];
}

abbrev approved : Db
approved = bought ProcurementStatus.approved PurchaseOrderStatus.approved

approved-keyed : OrdersAreKeyed approved
approved-keyed = record { keyed = λ k o h. ground (arith, h) }

abbrev ordered : Db
ordered = (mark_ordered 5 "bob" "Sent" (some "PO-1") (some 50) approved).1

abbrev ordered_request : ProcurementRequest
ordered_request = record (request ProcurementStatus.ordered) { version = 2 }

orders_it :
    mark_ordered 5 "bob" "Sent" (some "PO-1") (some 50) approved ≡ (ok ordered_request, ordered)
unfolding mark_ordered apply_transition transition save_request save_order add_audit emit
    create_event publish publish_to insert_event to_record new_id put
orders_it = refl

orders_follow_requests_example :
    Advances ProcurementStatus.approved ProcurementStatus.ordered PurchaseOrderStatus.submitted 5
      approved ordered ordered_request
orders_follow_requests_example =
    orders_follow_requests 5 approved ordered ordered_request approved-keyed
      (Call.orders "bob" "Sent" (some "PO-1") (some 50) orders_it)

-- Four of the ten units arrive.
abbrev shipped : Db
shipped = bought ProcurementStatus.shipped PurchaseOrderStatus.shipped

abbrev arrival : Receipt
arrival = record {
  sku = "SKU-2";
  storage_location = "A1";
  quantity_received = pos 4;
  landed_unit_cost = none;
  low_stock_threshold = 1;
  actor = "bob";
  reason = "Delivery";
  idempotency_key = Key.given "delivery-1";
  received_at = none;
}

shipped-keyed : ItemsAreKeyed shipped
shipped-keyed = record { keyed = λ sku location i h. ground (arith, h); fresh = refl }

abbrev received_item : InventoryItem
received_item = record {
  id = 20;
  version = 2;
  product_id = 2;
  sku = "SKU-2";
  storage_location = "A1";
  quantity_on_hand = 4;
  reserved_quantity = 0;
  cost_basis = 100000;
  currency = "EUR";
  low_stock_threshold = 1;
}

abbrev receipt_row : InventoryMovement
receipt_row = record {
  id = 21;
  inventory_item_id = 20;
  purchase_order_id = some 6;
  movement_type = InventoryMovementType.receipt;
  quantity_delta = pos 4;
  unit_cost = some (pos 100000);
  reason = "Delivery";
  source_type = "purchase_order";
  source_id = 6;
  idempotency_key = Key.given "delivery-1";
}

abbrev result : InventoryChangeResult
result = record { inventory_item = received_item; movement = receipt_row; duplicate = false }

abbrev stocked : Db
stocked = (receive 6 arrival shipped).1

arrives : receive 6 arrival shipped ≡ (ok result, stocked)
unfolding receive receive_new receivable_order item_for book_receipt save_item insert_movement
    record_change correlation_of note_receipt note_low_stock complete_receipt save_order
    apply_quantity_change weighted_cost_basis half_up ◌+ℤ◌ add_audit emit create_event publish
    publish_to insert_event to_record new_id put
arrives = refl

receive_cases_example :
    ((result.duplicate ≡ true) × (shipped ≡ stocked))
    ⊎ (Accepted 6 arrival shipped
        × Moves received_item receipt_row shipped stocked
        × Booked 6 arrival result shipped)
receive_cases_example = receive_cases 6 arrival result shipped stocked shipped-keyed arrives
