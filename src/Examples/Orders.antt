-- ===== src/Examples/Orders.antt =====
-- Two units are ordered on a marketplace, and the order is cancelled.
use cax_commerce_operations.Prelude.{◌≡◌, refl, false, none, some, [], ◌∷◌, arith}
use cax_commerce_operations.Prelude.Int.{pos, ◌+ℤ◌, neg}
use cax_commerce_operations.Errors.{ok}
use cax_commerce_operations.Persistence.Enums.{OrderStatus, InventoryMovementType}
use cax_commerce_operations.Persistence.Keys.{Key}
use cax_commerce_operations.Persistence.Tables.{put}
use cax_commerce_operations.Persistence.Models.{InventoryItem, InventoryMovement, Order, OrderItem}
use cax_commerce_operations.Domains.Orders.{transition_order}
use cax_commerce_operations.Events.Store.{
  create_event, emit, publish, publish_to, insert_event, to_record,
}
use cax_commerce_operations.Application.Procurement.{save_workflow}
use cax_commerce_operations.Application.Inventory.{save_item, insert_movement, note_low_stock}
use cax_commerce_operations.Application.Reservations.{
  inventory_events, release_line, release_order, insert_by_available, by_available, candidates,
  reserve_item, reserve_first, reserve,
}
use cax_commerce_operations.Application.Orders.{
  NormalizedMarketplaceOrder, NormalizedOrderItem, OrderService, validate, audit_order, open_order,
  reserve_lines, finish_ingest, ingest_new, ingest,
}
use cax_commerce_operations.Application.Orders.Changes.{
  follow, note_cancelled, move_stock, finish_change, change_status, update_status,
}
use cax_commerce_operations.Application.Orders.Ledger.{StockStep, StockSteps, steps_keep_ledger}
use cax_commerce_operations.Application.Stock.{IsBalanced}
use cax_commerce_operations.Session.{Db, empty_db}
use cax_commerce_operations.Session.Actions.{new_id, add_audit}

abbrev stored_item : InventoryItem
stored_item = record {
  id = 1;
  version = 1;
  product_id = 2;
  sku = "SKU-2";
  storage_location = "A1";
  quantity_on_hand = 5;
  reserved_quantity = 0;
  cost_basis = 100000;
  currency = "EUR";
  low_stock_threshold = 3;
}

abbrev first_receipt : InventoryMovement
first_receipt = record {
  id = 3;
  inventory_item_id = 1;
  purchase_order_id = none;
  movement_type = InventoryMovementType.receipt;
  quantity_delta = pos 5;
  unit_cost = none;
  reason = "Delivery";
  source_type = "purchase_order";
  source_id = 6;
  idempotency_key = Key.given "delivery-1";
}

abbrev in_stock : Db
in_stock = record empty_db {
  next_id = 20;
  inventory = stored_item ∷ [];
  movements = first_receipt ∷ [];
}

in_stock-IsBalanced : IsBalanced in_stock
unfolding ◌+ℤ◌
in_stock-IsBalanced = record {
  on_hand = λ id. ground arith;
  reserved = λ id. ground arith;
  covered = λ id. ground arith;
}

abbrev service : OrderService
service = record { payload_hash = λ command. command.total_amount; upper = λ text. text }

abbrev two_units : NormalizedOrderItem
two_units = record {
  external_line_id = "L1";
  sku = "SKU-2";
  quantity = 2;
  unit_price = 200000;
  tax_amount = 0;
  discount_amount = 0;
}

abbrev command : NormalizedMarketplaceOrder
command = record {
  contract_version = 1;
  marketplace = "ebay";
  marketplace_account_id = "shop";
  external_order_id = "O1";
  source_event_id = "E1";
  status = OrderStatus.pending;
  currency = "EUR";
  total_amount = 400000;
  customer_reference = none;
  shipping_details = [];
  ordered_at = 0;
  items = two_units ∷ [];
}

abbrev line : OrderItem
line = record {
  id = 25;
  inventory_item_id = 1;
  external_line_id = "L1";
  sku = "SKU-2";
  quantity = 2;
  unit_price = 200000;
  tax_amount = 0;
  discount_amount = 0;
  reservation_reference = some (Key.of_part "order" 21 "L1");
}

abbrev order : Order
order = record {
  id = 21;
  version = 1;
  workflow_run_id = some 20;
  marketplace = "ebay";
  marketplace_account_id = "shop";
  external_order_id = "O1";
  source_event_id = "E1";
  source_payload_hash = 400000;
  status = OrderStatus.pending;
  currency = "EUR";
  total_amount = 400000;
  customer_reference = none;
  ordered_at = 0;
  paid_at = none;
  dispatched_at = none;
  delivered_at = none;
  items = line ∷ [];
}

abbrev reserved : Db
reserved = (ingest service command in_stock).1

ingests_it :
    ingest service command in_stock ≡ (ok (record { order = order; duplicate = false }), reserved)
unfolding ingest ingest_new open_order reserve_lines finish_ingest validate audit_order reserve
    reserve_first reserve_item candidates by_available insert_by_available inventory_events
    note_low_stock save_item insert_movement add_audit emit create_event publish publish_to
    insert_event to_record new_id put
ingests_it = refl

abbrev cancelled_order : Order
cancelled_order = record order { version = 2; status = OrderStatus.cancelled }

abbrev released : Db
released = (update_status 21 OrderStatus.cancelled "bob" "Changed mind" reserved).1

cancels_it :
    update_status 21 OrderStatus.cancelled "bob" "Changed mind" reserved
    ≡ (ok cancelled_order, released)
unfolding update_status change_status move_stock release_order release_line finish_change follow
    note_cancelled transition_order neg save_workflow ingest ingest_new open_order reserve_lines
    finish_ingest validate audit_order reserve reserve_first reserve_item candidates by_available
    insert_by_available inventory_events note_low_stock save_item insert_movement add_audit emit
    create_event publish publish_to insert_event to_record new_id put
cancels_it = refl

steps_keep_ledger_example : IsBalanced released
steps_keep_ledger_example =
    steps_keep_ledger
      (StockSteps.after
        (StockSteps.after StockSteps.here (
          StockStep.ingests service command (record { order = order; duplicate = false })
            ingests_it))
        (StockStep.updates 21 OrderStatus.cancelled "bob" "Changed mind" cancelled_order
          cancels_it))
      in_stock-IsBalanced
