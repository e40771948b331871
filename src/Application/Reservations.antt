-- ===== src/Application/Reservations.antt =====
-- src/commerce_operations/application/orders.py: how orders reserve, release and ship stock. A
-- conditional UPDATE reads the row, tests it and writes it.
pub mod Ledger
use cax_commerce_operations.Prelude.{
  ℕ, ◌+◌, ◌-◌, String, Bool, true, false, ◌&&◌, ◌||◌, Option, none, some, List, [], ◌∷◌, ◌==◌,
  Eq-string, filter, map, ltb, leb, if◌then◌else◌,
}
use cax_commerce_operations.Prelude.Int.{ℤ, pos, neg, ltb_ℤ, leb_ℤ}
use cax_commerce_operations.Errors.{Error, Result, ok, err}
use cax_commerce_operations.Persistence.Enums.{InventoryMovementType}
use cax_commerce_operations.Persistence.Keys.{Key, CorrelationId}
use cax_commerce_operations.Persistence.Tables.{get}
use cax_commerce_operations.Persistence.Models.{
  InventoryItem, InventoryMovement, Order, OrderItem, available, HasId-inventory_item,
}
use cax_commerce_operations.Events.Types.{EventPayload}
use cax_commerce_operations.Events.Store.{emit}
use cax_commerce_operations.Application.Inventory.{
  crosses_threshold, save_item, insert_movement, note_low_stock,
}
use cax_commerce_operations.Session.{Db, Action}
use cax_commerce_operations.Session.Actions.{
  pure, raise, gets, or_raise, raise_if, modify, new_id, ◌>>=◌, ◌>>◌,
}

-- `_inventory_events`
unfoldable pub inventory_events :
    InventoryItem → InventoryMovement → CorrelationId → ℤ → ℤ → Action (Unit {0})
inventory_events item movement correlation_id previous quantity_delta = do
  emit
      (EventPayload.inventory_changed item.id quantity_delta (pos item.quantity_on_hand)
        (pos item.reserved_quantity))
      "inventory_item" item.id item.version correlation_id none
      (Key.of_id "inventory-changed" movement.id)
  note_low_stock item movement previous correlation_id none

abbrev pub movement_text : InventoryMovementType → String
movement_text InventoryMovementType.receipt = "receipt"
movement_text InventoryMovementType.reservation = "reservation"
movement_text InventoryMovementType.release = "release"
movement_text InventoryMovementType.shipment = "shipment"
movement_text InventoryMovementType.return = "return"
movement_text InventoryMovementType.adjustment = "adjustment"

abbrev reason_text : InventoryMovementType → String
reason_text InventoryMovementType.receipt = "Order receipt"
reason_text InventoryMovementType.reservation = "Order reservation"
reason_text InventoryMovementType.release = "Order release"
reason_text InventoryMovementType.shipment = "Order shipment"
reason_text InventoryMovementType.return = "Order return"
reason_text InventoryMovementType.adjustment = "Order adjustment"

abbrev order_key : InventoryMovementType → ℕ → String → Key
order_key InventoryMovementType.receipt = Key.of_part "order-receipt"
order_key InventoryMovementType.reservation = Key.of_part "order-reservation"
order_key InventoryMovementType.release = Key.of_part "order-release"
order_key InventoryMovementType.shipment = Key.of_part "order-shipment"
order_key InventoryMovementType.return = Key.of_part "order-return"
order_key InventoryMovementType.adjustment = Key.of_part "order-adjustment"

-- `_movement`
abbrev pub order_movement : ℕ → Order → OrderItem → InventoryMovementType → ℤ → InventoryMovement
order_movement id order line movement_type quantity_delta = record {
  id = id;
  inventory_item_id = line.inventory_item_id;
  purchase_order_id = none;
  movement_type = movement_type;
  quantity_delta = quantity_delta;
  unit_cost = none;
  reason = reason_text movement_type;
  source_type = "order";
  source_id = order.id;
  idempotency_key = order_key movement_type order.id line.external_line_id;
}

-- One line of `_release_order`
unfoldable pub release_line : Order → OrderItem → Action (Unit {0})
unfolding save_item insert_movement new_id
release_line order line = do
  item ← (λ s. or_raise (get line.inventory_item_id s.inventory) Error.assertion_error s)
  raise_if (ltb item.reserved_quantity line.quantity) Error.order_validation
  i ← save_item (record item { reserved_quantity = item.reserved_quantity - line.quantity })
  id ← new_id
  movement ←
      insert_movement
        (order_movement id order line InventoryMovementType.release (neg line.quantity))
  inventory_events i movement (CorrelationId.of_row order.id) (available item) (pos 0)

-- One line of `_ship_order`
unfoldable pub ship_line : Order → OrderItem → Action (Unit {0})
unfolding save_item insert_movement new_id
ship_line order line = do
  item ← (λ s. or_raise (get line.inventory_item_id s.inventory) Error.assertion_error s)
  raise_if (ltb item.reserved_quantity line.quantity || ltb item.quantity_on_hand line.quantity)
      Error.order_validation
  i ← save_item (record item {
    quantity_on_hand = item.quantity_on_hand - line.quantity;
    reserved_quantity = item.reserved_quantity - line.quantity;
  })
  id ← new_id
  movement ←
      insert_movement
        (order_movement id order line InventoryMovementType.shipment (neg line.quantity))
  inventory_events i movement (CorrelationId.of_row order.id) (available item) (neg line.quantity)

-- A loop over the lines of an order.
abbrev pub each_line : (OrderItem → Action (Unit {0})) → List OrderItem → Action (Unit {0})
each_line f [] = pure tt
each_line f (line ∷ lines) = f line >> each_line f lines

-- `_release_order`
unfoldable pub release_order : Order → Action (Unit {0})
release_order order = each_line (release_line order) order.items

-- `_ship_order`
unfoldable pub ship_order : Order → Action (Unit {0})
ship_order order = each_line (ship_line order) order.items

-- ORDER BY quantity_on_hand - reserved_quantity DESC; equal rows keep their order.
unfoldable pub insert_by_available : InventoryItem → List InventoryItem → List InventoryItem
insert_by_available i [] = i ∷ []
insert_by_available i (x ∷ t) =
    let rest = insert_by_available i t in
    if leb_ℤ (available x) (available i) then i ∷ x ∷ t else x ∷ rest

unfoldable pub by_available : List InventoryItem → List InventoryItem
unfolding insert_by_available
by_available [] = []
by_available (i ∷ t) = insert_by_available i (by_available t)

unfoldable pub candidates : String → Db → List ℕ
unfolding by_available
candidates sku s = map (λ i. i.id) (by_available (filter (λ i. i.sku == sku) s.inventory))

-- The reservation of an item that has enough, the row being `item`.
unfoldable pub reserve_item :
    ℕ → Order → String → CorrelationId → InventoryItem → Action InventoryItem
unfolding save_item insert_movement new_id
reserve_item quantity order external_line_id correlation_id item = do
  i ← save_item (record item { reserved_quantity = item.reserved_quantity + quantity })
  id ← new_id
  movement ← insert_movement (record {
    id = id;
    inventory_item_id = i.id;
    purchase_order_id = none;
    movement_type = InventoryMovementType.reservation;
    quantity_delta = pos quantity;
    unit_cost = none;
    reason = "Reserved for marketplace order";
    source_type = "order";
    source_id = order.id;
    idempotency_key = Key.of_part "order-reservation" order.id external_line_id;
  })
  inventory_events i movement correlation_id (available item) (pos 0)
  pure i

-- The row that the conditional UPDATE writes, if it matches.
abbrev pub reservable : ℕ → ℕ → Db → Option InventoryItem
reservable quantity id s = elim (get id s.inventory) [
  | none ↦ none
  | some item ↦ if leb_ℤ (pos quantity) (available item) then some item else none
]

-- The loop of `_reserve` over the candidates' ids.
unfoldable pub reserve_first : ℕ → Order → String → CorrelationId → List ℕ → Action InventoryItem
reserve_first quantity order external_line_id correlation_id [] = raise Error.insufficient_inventory
reserve_first quantity order external_line_id correlation_id (id ∷ ids) = do
  found ← gets (reservable quantity id)
  elim found [
    | some item ↦ reserve_item quantity order external_line_id correlation_id item
    | none ↦ reserve_first quantity order external_line_id correlation_id ids
  ]

-- `_reserve`
unfoldable pub reserve : String → ℕ → Order → String → CorrelationId → Action InventoryItem
unfolding reserve_first candidates
reserve sku quantity order external_line_id correlation_id s =
    reserve_first quantity order external_line_id correlation_id (candidates sku s) s
