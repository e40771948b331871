-- ===== src/Application/Inventory/Receipts.antt =====
-- src/commerce_operations/application/inventory.py: the receipt of a purchase order.
use cax_commerce_operations.Prelude.{
  ℕ, ◌+◌, ◌*◌, String, true, false, not, ◌&&◌, ◌||◌, Option, none, some, ◌==◌, Eq-nat, Eq-string,
  Eq-option, find, or_else, if◌then◌else◌,
}
use cax_commerce_operations.Prelude.Int.{ℤ, pos, sub_ℕ, pos_part, Eq-int, ltb_ℤ, leb_ℤ}
use cax_commerce_operations.Errors.{Error}
use cax_commerce_operations.Persistence.Enums.{
  InventoryMovementType, PurchaseOrderStatus, Eq-movement_type, Eq-purchase_order_status,
}
use cax_commerce_operations.Persistence.Keys.{Key, Eq-key}
use cax_commerce_operations.Persistence.Tables.{get, add}
use cax_commerce_operations.Persistence.Models.{
  ProcurementRequest, PurchaseOrder, InventoryItem, InventoryMovement, available,
  HasId-supplier_quote, HasId-procurement_request, HasId-purchase_order, HasId-inventory_item,
  HasId-workflow_run,
}
use cax_commerce_operations.Domains.Inventory.{apply_quantity_change, weighted_cost_basis}
use cax_commerce_operations.Application.Procurement.{run_of, save_order, mark_received}
use cax_commerce_operations.Session.{Db, Action}
use cax_commerce_operations.Session.Actions.{
  pure, raise, gets, lift, or_raise, raise_if, modify, new_id, ◌>>=◌, ◌>>◌,
}
use cax_commerce_operations.Application.Inventory.{
  existing_movement, insert_movement, InventoryChangeResult, record_change, repeated, save_item,
}

-- The arguments of `receive`.
pub record Receipt : Type 0 where
  pub sku : String
  pub storage_location : String
  pub quantity_received : ℤ
  pub landed_unit_cost : Option ℤ
  pub low_stock_threshold : ℕ
  pub actor : String
  pub reason : String
  pub idempotency_key : Key
  pub received_at : Option ℕ

abbrev pub at_location : String → String → Db → Option InventoryItem
at_location sku storage_location s =
    find (λ i. i.sku == sku && i.storage_location == storage_location) s.inventory

abbrev pub new_item : ℕ → Receipt → ProcurementRequest → PurchaseOrder → InventoryItem
new_item id receipt procurement order = record {
  id = id;
  version = 1;
  product_id = procurement.product_id;
  sku = receipt.sku;
  storage_location = receipt.storage_location;
  quantity_on_hand = 0;
  reserved_quantity = 0;
  cost_basis = 0;
  currency = order.currency;
  low_stock_threshold = receipt.low_stock_threshold;
}

-- The item that the goods go to, made if there is none.
unfoldable pub item_for :
    Receipt → ProcurementRequest → PurchaseOrder → Option InventoryItem → Action InventoryItem
unfolding new_id
item_for receipt procurement order none = do
  id ← new_id
  let item = new_item id receipt procurement order
  modify (λ s. record s { inventory = add item s.inventory })
  pure item
item_for receipt procurement order (some item) =
    if not (item.product_id == procurement.product_id)
    then raise Error.inventory_idempotency_conflict
    else if not (item.currency == order.currency)
    then raise Error.inventory_idempotency_conflict
    else pure item

-- The tests on the purchase order, in the order of the source.
unfoldable pub receivable_order : ℕ → ℤ → Action PurchaseOrder
receivable_order purchase_order_id quantity_received = do
  order ← (λ s.
      or_raise (get purchase_order_id s.purchase_orders) Error.purchase_order_receipt_not_found s)
  raise_if (not (order.status == PurchaseOrderStatus.shipped)) Error.purchase_order_not_receivable
  raise_if (leb_ℤ quantity_received (pos 0)) Error.invalid_inventory_change
  raise_if (ltb_ℤ (sub_ℕ order.quantity order.received_quantity) quantity_received)
      Error.invalid_inventory_change
  pure order

-- The order with `quantity` more received at `unit_cost`, which are no negative numbers here.
abbrev pub received_more : ℤ → ℤ → PurchaseOrder → PurchaseOrder
received_more quantity unit_cost order = record order {
  received_quantity = order.received_quantity + pos_part quantity;
  actual_landed_cost =
      some (or_else order.actual_landed_cost 0 + pos_part unit_cost * pos_part quantity);
}

abbrev pub receipt_movement : ℕ → PurchaseOrder → ℤ → Receipt → InventoryItem → InventoryMovement
receipt_movement id order unit_cost receipt item = record {
  id = id;
  inventory_item_id = item.id;
  purchase_order_id = some order.id;
  movement_type = InventoryMovementType.receipt;
  quantity_delta = receipt.quantity_received;
  unit_cost = some unit_cost;
  reason = receipt.reason;
  source_type = "purchase_order";
  source_id = order.id;
  idempotency_key = receipt.idempotency_key;
}

-- A full receipt completes the procurement.
unfoldable pub complete_receipt :
    PurchaseOrder → ProcurementRequest → String → Option ℕ → Action (Unit {0})
complete_receipt order procurement actor received_at =
    if order.received_quantity == order.quantity
    then (λ s.
        mark_received procurement.id actor "Purchase order fully received"
          (some (or_else received_at s.clock)) s)
      >> pure tt
    else pure tt

-- The part of `receive` from the new cost basis on.
unfoldable pub book_receipt :
    PurchaseOrder → ProcurementRequest → ℤ → Receipt → InventoryItem → Action InventoryChangeResult
unfolding save_item save_order insert_movement complete_receipt new_id
book_receipt order procurement unit_cost receipt item = do
  basis ← lift (
      weighted_cost_basis item.quantity_on_hand item.cost_basis receipt.quantity_received unit_cost)
  balance ←
      lift (
        apply_quantity_change item.quantity_on_hand item.reserved_quantity
          receipt.quantity_received)
  i ← save_item (record item { quantity_on_hand = balance.quantity_on_hand; cost_basis = basis })
  let received = received_more receipt.quantity_received unit_cost order
  save_order received
  movement_id ← new_id
  movement ← insert_movement (receipt_movement movement_id order unit_cost receipt item)
  workflow ←
      (λ s. or_raise (run_of procurement.workflow_run_id s) Error.purchase_order_not_receivable s)
  record_change i movement receipt.actor (available item) true (some workflow)
  complete_receipt received procurement receipt.actor receipt.received_at
  pure (record { inventory_item = i; movement = movement; duplicate = false })

-- The part of `receive` after the search for an existing movement.
unfoldable pub receive_new : ℕ → Receipt → Action InventoryChangeResult
unfolding receivable_order item_for book_receipt
receive_new purchase_order_id receipt = do
  order ← receivable_order purchase_order_id receipt.quantity_received
  procurement ← (λ s.
      or_raise (get order.procurement_request_id s.requests) Error.purchase_order_not_receivable s)
  quote ← (λ s.
      or_raise (get procurement.selected_quote_id s.quotes) Error.purchase_order_not_receivable s)
  there ← gets (at_location receipt.sku receipt.storage_location)
  item ← item_for receipt procurement order there
  book_receipt order procurement (or_else receipt.landed_unit_cost (pos quote.unit_cost)) receipt
      item

-- `InventoryService.receive`
unfoldable pub receive : ℕ → Receipt → Action InventoryChangeResult
unfolding repeated
receive purchase_order_id receipt = do
  existing ← gets (existing_movement receipt.idempotency_key)
  elim existing [
    | some movement ↦
        if not (movement.purchase_order_id == some purchase_order_id)
          || not (movement.quantity_delta == receipt.quantity_received)
          || not (movement.movement_type == InventoryMovementType.receipt)
        then raise Error.inventory_idempotency_conflict
        else repeated movement
    | none ↦ receive_new purchase_order_id receipt
  ]
