-- ===== src/Application/Inventory.antt =====
-- src/commerce_operations/application/inventory.py: stock that comes in and is adjusted.
pub mod Receipts
pub mod Balance
pub mod Arrival
use cax_commerce_operations.Prelude.{
  ℕ, ◌+◌, ◌*◌, String, Bool, true, false, not, ◌&&◌, ◌||◌, Option, none, some, List, [], ◌∷◌, ◌==◌,
  Eq-nat, Eq-string, Eq-option, any, find, filter, take, or_else, is_some, if◌then◌else◌,
}
use cax_commerce_operations.Prelude.Int.{ℤ, pos, sub_ℕ, pos_part, Eq-int, ltb_ℤ, leb_ℤ}
use cax_commerce_operations.Errors.{Error, Result, ok, err}
use cax_commerce_operations.Persistence.Enums.{
  InventoryMovementType, PurchaseOrderStatus, Eq-movement_type, Eq-purchase_order_status,
}
use cax_commerce_operations.Persistence.Keys.{Key, CorrelationId, Eq-key}
use cax_commerce_operations.Persistence.Json.{Json, Object}
use cax_commerce_operations.Persistence.Tables.{get, put, add}
use cax_commerce_operations.Persistence.Models.{
  SupplierQuote, ProcurementRequest, PurchaseOrder, InventoryItem, InventoryMovement, WorkflowRun,
  AuditEvent, available, HasId-supplier_quote, HasId-procurement_request, HasId-purchase_order,
  HasId-inventory_item, HasId-workflow_run,
}
use cax_commerce_operations.Domains.Inventory.{
  InventoryBalance, apply_quantity_change, weighted_cost_basis,
}
use cax_commerce_operations.Events.Types.{EventPayload}
use cax_commerce_operations.Events.Store.{emit}
use cax_commerce_operations.Application.Procurement.{run_of, save_order, mark_received}
use cax_commerce_operations.Session.{Db, Action}
use cax_commerce_operations.Session.Actions.{
  pure, raise, gets, lift, or_raise, raise_if, modify, new_id, add_audit, ◌>>=◌, ◌>>◌,
}

pub record InventoryChangeResult : Type 0 where
  pub inventory_item : InventoryItem
  pub movement : InventoryMovement
  pub duplicate : Bool

-- `InventoryService.get`
abbrev pub find_item : ℕ → Action InventoryItem
find_item id s = or_raise (get id s.inventory) Error.inventory_not_found s

-- `_existing_movement`
abbrev pub existing_movement : Key → Db → Option InventoryMovement
existing_movement key s = find (λ m. m.idempotency_key == key) s.movements

-- The changed row, as it is written at the next flush.
unfoldable pub save_item : InventoryItem → Action InventoryItem
save_item item s =
    let i = record item { version = item.version + 1 } in
    (ok i, record s { inventory = put i s.inventory })

-- `session.add(movement)` and `session.flush()`; idempotency keys are unique.
unfoldable pub insert_movement : InventoryMovement → Action InventoryMovement
insert_movement m s =
    if any (λ x. x.idempotency_key == m.idempotency_key) s.movements
    then (err Error.integrity_error, s)
    else (ok m, record s { movements = add m s.movements })

abbrev pub crosses_threshold : ℤ → InventoryItem → Bool
crosses_threshold previous item =
    ltb_ℤ (pos item.low_stock_threshold) previous
    && leb_ℤ (available item) (pos item.low_stock_threshold)

abbrev stock_audit :
    InventoryItem → InventoryMovement → String → ℤ → Bool → CorrelationId → AuditEvent
stock_audit item movement actor previous stock_received correlation_id = record {
  actor_type = if not (actor == "system") then "user" else "system";
  actor_id = actor;
  action = if stock_received then "inventory.stock_received" else "inventory.adjusted";
  resource_type = "inventory_item";
  resource_id = item.id;
  before_state = some (("available_quantity", Json.int previous) ∷ []);
  after_state = some (
      ("quantity_on_hand", Json.int (pos item.quantity_on_hand))
      ∷ ("reserved_quantity", Json.int (pos item.reserved_quantity))
      ∷ ("available_quantity", Json.int (available item))
      ∷ []);
  reason = some movement.reason;
  correlation_id = correlation_id;
}

-- The correlation id of the workflow, or a new one.
unfoldable pub correlation_of : Option WorkflowRun → Action CorrelationId
unfolding new_id
correlation_of (some workflow) = pure workflow.correlation_id
correlation_of none = do id ← new_id; pure (CorrelationId.of_row id)

abbrev run_id : Option WorkflowRun → Option ℕ
run_id none = none
run_id (some workflow) = some workflow.id

-- The event of a receipt.
unfoldable pub note_receipt :
    InventoryItem → InventoryMovement → Bool → CorrelationId → Option ℕ → Action (Unit {0})
note_receipt item movement false correlation_id workflow_id = pure tt
note_receipt item movement true correlation_id workflow_id = do
  purchase_order_id ← or_raise movement.purchase_order_id Error.assertion_error
  emit (EventPayload.stock_received item.id purchase_order_id movement.quantity_delta)
      "inventory_item" item.id item.version correlation_id workflow_id
      (Key.of_id "stock-received" movement.id)

-- The low-stock event, when the change crosses the threshold.
unfoldable pub note_low_stock :
    InventoryItem → InventoryMovement → ℤ → CorrelationId → Option ℕ → Action (Unit {0})
note_low_stock item movement previous correlation_id workflow_id =
    if crosses_threshold previous item
    then emit
        (EventPayload.low_stock item.id item.sku (available item) (pos item.low_stock_threshold))
        "inventory_item" item.id item.version correlation_id workflow_id
        (Key.of_id "low-stock" movement.id)
    else pure tt

-- `_record_change`
unfoldable pub record_change :
    InventoryItem → InventoryMovement → String → ℤ → Bool → Option WorkflowRun → Action (Unit {0})
unfolding correlation_of add_audit note_receipt note_low_stock
record_change item movement actor previous stock_received workflow = do
  correlation_id ← correlation_of workflow
  add_audit (stock_audit item movement actor previous stock_received correlation_id)
  emit
      (EventPayload.inventory_changed item.id movement.quantity_delta (pos item.quantity_on_hand)
        (pos item.reserved_quantity))
      "inventory_item" item.id item.version correlation_id (run_id workflow)
      (Key.of_id "inventory-changed" movement.id)
  note_receipt item movement stock_received correlation_id (run_id workflow)
  note_low_stock item movement previous correlation_id (run_id workflow)

-- The cost basis after an adjustment: it changes only when stock with a known cost is added.
abbrev pub adjusted_basis : InventoryItem → ℤ → Option ℤ → Result ℕ
adjusted_basis item quantity_delta none = ok item.cost_basis
adjusted_basis item quantity_delta (some unit_cost) =
    if ltb_ℤ (pos 0) quantity_delta
    then weighted_cost_basis item.quantity_on_hand item.cost_basis quantity_delta unit_cost
    else ok item.cost_basis

-- The part of `adjust` after the search for an existing movement.
unfoldable pub adjust_new : ℕ → ℤ → String → String → Key → Option ℤ → Action InventoryChangeResult
unfolding save_item insert_movement new_id
adjust_new id quantity_delta reason actor key unit_cost = do
  item ← find_item id
  balance ← lift (apply_quantity_change item.quantity_on_hand item.reserved_quantity quantity_delta)
  basis ← lift (adjusted_basis item quantity_delta unit_cost)
  i ← save_item (record item { cost_basis = basis; quantity_on_hand = balance.quantity_on_hand })
  movement_id ← new_id
  movement ← insert_movement (record {
    id = movement_id;
    inventory_item_id = item.id;
    purchase_order_id = none;
    movement_type = InventoryMovementType.adjustment;
    quantity_delta = quantity_delta;
    unit_cost = unit_cost;
    reason = reason;
    source_type = "manual_adjustment";
    source_id = item.id;
    idempotency_key = key;
  })
  record_change i movement actor (available item) false none
  pure (record { inventory_item = i; movement = movement; duplicate = false })

-- `existing.inventory_item`, for a repeated call.
unfoldable pub repeated : InventoryMovement → Action InventoryChangeResult
repeated existing = do
  item ← find_item existing.inventory_item_id
  pure (record { inventory_item = item; movement = existing; duplicate = true })

-- `InventoryService.adjust`
unfoldable pub adjust : ℕ → ℤ → String → String → Key → Option ℤ → Action InventoryChangeResult
unfolding repeated
adjust id quantity_delta reason actor key unit_cost = do
  existing ← gets (existing_movement key)
  elim existing [
    | some movement ↦
        if not (movement.inventory_item_id == id)
          || not (movement.quantity_delta == quantity_delta)
          || not (movement.movement_type == InventoryMovementType.adjustment)
        then raise Error.inventory_idempotency_conflict
        else repeated movement
    | none ↦ adjust_new id quantity_delta reason actor key unit_cost
  ]
