-- ===== src/Examples/Stock.antt =====
-- Events about the stock: two items are left of an item whose threshold is five, and one that was
-- sold comes back.
use cax_commerce_operations.Prelude.{
  ℕ, ◌+◌, ◌*◌, ◌≤◌, ◌<◌, ◌≡◌, refl, String, none, some, Option, [], ◌∷◌, arith,
}
use cax_commerce_operations.Prelude.Int.{pos, pos_part, ◌≤ℤ◌, ◌+ℤ◌}
use cax_commerce_operations.Errors.{ok}
use cax_commerce_operations.Persistence.Enums.{RunStatus, OrderStatus, InventoryMovementType}
use cax_commerce_operations.Persistence.Keys.{Key, CorrelationId, WorkflowName}
use cax_commerce_operations.Persistence.Tables.{get, put}
use cax_commerce_operations.Persistence.Models.{
  InventoryItem, InventoryMovement, Order, OrderItem, WorkflowRun, available, HasId-inventory_item,
}
use cax_commerce_operations.Persistence.Commercial.{
  ReorderRecommendation, ReturnRecord, ReturnStatus,
}
use cax_commerce_operations.Events.Types.{EventPayload, EventType}
use cax_commerce_operations.Events.Store.{
  EventEnvelope, create_event, emit, publish, publish_to, insert_event, to_record,
}
use cax_commerce_operations.Domains.Inventory.{apply_quantity_change}
use cax_commerce_operations.Domains.Orders.{transition_order}
use cax_commerce_operations.Workflows.Definitions.{WorkflowOutcome}
use cax_commerce_operations.Application.Stock.{IsBalanced}
use cax_commerce_operations.Application.Stock.Keeps.{SameStock}
use cax_commerce_operations.Application.Inventory.{
  adjust, adjust_new, save_item, insert_movement, record_change, correlation_of, note_receipt,
  note_low_stock,
}
use cax_commerce_operations.Application.Orders.{audit_order}
use cax_commerce_operations.Application.Orders.Changes.{
  update_status, change_status, finish_change, move_stock, follow, note_cancelled,
}
use cax_commerce_operations.Application.Orchestration.Reorder.{
  recommendation_for, recommended, recommend, low_stock_to_reorder, read_low_stock,
}
use cax_commerce_operations.Application.Orchestration.Reconciliation.{
  reconciled, return_to_reconciliation, check_return, reconcile, restock, close_return,
  reconcile_refunds, mark_returned,
}
use cax_commerce_operations.Application.Orchestration.Restock.{low_stock_recommends}
use cax_commerce_operations.Application.Orchestration.Returns.{Returned, return_restocked_once}
use cax_commerce_operations.Session.{Db, empty_db}
use cax_commerce_operations.Session.Actions.{new_id, add_audit}

abbrev item : InventoryItem
item = record {
  id = 1;
  version = 1;
  product_id = 2;
  sku = "LAMP";
  storage_location = "A1";
  quantity_on_hand = 2;
  reserved_quantity = 0;
  cost_basis = 100000;
  currency = "EUR";
  low_stock_threshold = 5;
}

abbrev received : InventoryMovement
received = record {
  id = 3;
  inventory_item_id = 1;
  purchase_order_id = none;
  movement_type = InventoryMovementType.adjustment;
  quantity_delta = pos 2;
  unit_cost = none;
  reason = "Count";
  source_type = "manual_adjustment";
  source_id = 1;
  idempotency_key = Key.given "K-1";
}

abbrev run : WorkflowRun
run = record {
  id = 4;
  version = 1;
  workflow_name = WorkflowName.orchestrated "low-stock-to-reorder-recommendation";
  workflow_version = 1;
  correlation_id = CorrelationId.of_row 4;
  source_event_id = some 9;
  idempotency_key = none;
  status = RunStatus.running;
  current_step = none;
  attempts = 1;
  next_retry_at = none;
  error = none;
  checkpoints = [];
  max_attempts = 3;
  timeout_seconds = 300;
  started_at = none;
  deadline_at = none;
  completed_at = none;
  waiting_approval_id = none;
  cost_amount = 0;
  cost_currency = none;
  created_at = 0;
}

abbrev event : EventType → EventPayload → EventEnvelope
event type body = record {
  event_id = 9;
  event_type = type;
  event_version = 1;
  occurred_at = 0;
  producer = "commerce-operations";
  aggregate_type = "inventory_item";
  aggregate_id = 1;
  aggregate_version = 1;
  correlation_id = CorrelationId.of_row 9;
  workflow_id = none;
  causation_id = none;
  idempotency_key = Key.of_id "event" 9;
  body = body;
}

abbrev low_stock : EventEnvelope
low_stock = event EventType.low_stock (EventPayload.low_stock 1 "LAMP" (pos 2) (pos 5))

abbrev start : Db
start = record empty_db { next_id = 20; inventory = item ∷ []; movements = received ∷ [] }

abbrev recommendation : ReorderRecommendation
recommendation = record {
  id = 20;
  inventory_item_id = 1;
  workflow_run_id = 4;
  source_event_id = 9;
  available_quantity = 2;
  low_stock_threshold = 5;
  suggested_quantity = 8;
  reason = "Available stock reached the configured low-stock threshold";
  status = "proposed";
}

abbrev advised : Db
advised = (low_stock_to_reorder 2 low_stock run start).1

advises : low_stock_to_reorder 2 low_stock run start ≡ (ok (recommended recommendation), advised)
unfolding low_stock_to_reorder recommend new_id
advises = refl

low_stock_recommends_example :
    (r : ReorderRecommendation) × (recommended recommendation ≡ recommended r)
    × (recommendation_for 9 advised ≡ some r)
    × (low_stock_to_reorder 2 low_stock run advised ≡ (ok (recommended recommendation), advised))
    × (recommendation_for 9 start ≡ none
        → (id : ℕ) × (sku : String) × (i : InventoryItem) × (read_low_stock low_stock.body
            ≡ ok (id, sku))
          × (get id start.inventory ≡ some i)
          × (i.sku ≡ sku)
          × (r.inventory_item_id ≡ id)
          × (available i ≤ℤ pos i.low_stock_threshold)
          × (i.low_stock_threshold < pos_part (available i) + r.suggested_quantity)
          × (i.low_stock_threshold * 2 ≤ pos_part (available i) + r.suggested_quantity)
          × ((stock : ℕ)
              → i.low_stock_threshold < stock
              → i.low_stock_threshold * 2 ≤ stock
              → pos_part (available i) + r.suggested_quantity ≤ stock))
low_stock_recommends_example =
    low_stock_recommends 2 low_stock run run (recommended recommendation) start advised advises

start-IsBalanced : IsBalanced start
unfolding ◌+ℤ◌
start-IsBalanced = record {
  on_hand = λ id. ground arith;
  reserved = λ id. ground arith;
  covered = λ id. ground arith;
}

abbrev line : OrderItem
line = record {
  id = 11;
  inventory_item_id = 1;
  external_line_id = "L-1";
  sku = "LAMP";
  quantity = 1;
  unit_price = 200000;
  tax_amount = 0;
  discount_amount = 0;
  reservation_reference = some (Key.of_part "order" 10 "L-1");
}

abbrev order : Order
order = record {
  id = 10;
  version = 1;
  workflow_run_id = some 4;
  marketplace = "amazon";
  marketplace_account_id = "A-1";
  external_order_id = "O-1";
  source_event_id = "E-1";
  source_payload_hash = 0;
  status = OrderStatus.delivered;
  currency = "EUR";
  total_amount = 200000;
  customer_reference = none;
  ordered_at = 0;
  paid_at = none;
  dispatched_at = none;
  delivered_at = none;
  items = line ∷ [];
}

abbrev back : ReturnRecord
back = record {
  id = 12;
  order_id = 10;
  order_item_id = some 11;
  quantity = 1;
  disposition = some "sellable";
  status = ReturnStatus.received;
}

abbrev returning : Db
returning = record start { orders = order ∷ []; returns = back ∷ []; workflows = run ∷ [] }

returning-IsBalanced : IsBalanced returning
returning-IsBalanced = record {
  on_hand = start-IsBalanced.on_hand;
  reserved = start-IsBalanced.reserved;
  covered = start-IsBalanced.covered;
}

abbrev order_returned : EventEnvelope
order_returned = event EventType.order_returned (EventPayload.order_returned 10 12 (pos 1))

abbrev id_text : ℕ → String
id_text n = "12"

abbrev outcome : Option WorkflowOutcome
outcome = reconciled back 0

abbrev restocked : Db
restocked = (return_to_reconciliation id_text order_returned run returning).1

reconciles_it :
    return_to_reconciliation id_text order_returned run returning ≡ (ok outcome, restocked)
unfolding return_to_reconciliation check_return reconcile restock close_return reconcile_refunds
    mark_returned adjust adjust_new save_item insert_movement record_change correlation_of
    note_receipt note_low_stock apply_quantity_change update_status change_status finish_change
    move_stock follow note_cancelled audit_order transition_order emit create_event publish
    publish_to insert_event to_record new_id add_audit put ◌+ℤ◌
reconciles_it = refl

return_restocked_once_example :
    IsBalanced restocked
    × Returned order_returned returning restocked
    × SameStock restocked (return_to_reconciliation id_text order_returned run restocked).1
return_restocked_once_example =
    return_restocked_once id_text order_returned run run outcome returning restocked
      returning-IsBalanced reconciles_it
