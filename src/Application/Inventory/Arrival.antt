-- ===== src/Application/Inventory/Arrival.antt =====
-- Goods that are received: at most what was ordered, and one movement of one item.
use cax_commerce_operations.Prelude.{
  ℕ, ◌+◌, ◌≤◌, ◌<◌, ◌&&◌, find-holds, Eq-string, ◌≡◌, ◌⊎◌, refl, String, true, false, Option, none,
  some, inl, inr, arith, ◌==◌, Eq-nat, if◌then◌else◌, any, or_else, Bool-cases, Option-cases, ◌∙◌,
  ap, sym,
}
use cax_commerce_operations.Prelude.Int.{ℤ, pos, ◌+ℤ◌, Eq-int, pos_part}
use cax_commerce_operations.Errors.{ok, Result-cases}
use cax_commerce_operations.Persistence.Enums.{
  InventoryMovementType, Eq-movement_type, PurchaseOrderStatus, Eq-purchase_order_status,
}
use cax_commerce_operations.Persistence.Keys.{Eq-key}
use cax_commerce_operations.Persistence.Tables.{
  get, put, add, get-put, get-add, get-add_new, get-id,
}
use cax_commerce_operations.Persistence.Models.{
  ProcurementRequest, PurchaseOrder, InventoryItem, available, HasId-supplier_quote,
  HasId-procurement_request, HasId-purchase_order, HasId-inventory_item,
}
use cax_commerce_operations.Domains.Inventory.{apply_quantity_change, weighted_cost_basis}
use cax_commerce_operations.Domains.Inventory.Change.{apply_quantity_change_iff}
use cax_commerce_operations.Application.Procurement.{run_of, save_order, mark_received}
use cax_commerce_operations.Application.Inventory.{
  InventoryChangeResult, save_item, insert_movement, existing_movement, record_change,
}
use cax_commerce_operations.Application.Inventory.Receipts.{
  Receipt, receivable_order, item_for, at_location, new_item, received_more, complete_receipt,
  receipt_movement, book_receipt, receive_new, receive,
}
use cax_commerce_operations.Application.Inventory.Balance.{record_change-KeepsStock, repeated_keeps}
use cax_commerce_operations.Application.Stock.{+ℤ_zero, Moves, on_hand_of, reserved_of}
use cax_commerce_operations.Application.Stock.Keeps.{
  SameStock, KeepsStock, KeepsStock-ok, KeepsStock-bind, KeepsStock-pure, KeepsStock-if,
}
use cax_commerce_operations.Application.Stock.Purchases.{KeepsStock-mark_received}
use cax_commerce_operations.Session.{Db, Action}
use cax_commerce_operations.Session.Actions.{new_id, pure, ◌>>◌}

-- A full receipt, at the time of the clock if none is given.
full_receipt-KeepsStock :
    (id : ℕ) (actor reason : String) (at : Option ℕ)
    → KeepsStock (λ s. mark_received id actor reason (some (or_else at s.clock)) s)
full_receipt-KeepsStock id actor reason at = record {
  keeps = λ s.
      let m = KeepsStock-mark_received id actor reason (some (or_else at s.clock)) in m.keeps s;
}

complete_receipt-KeepsStock :
    (o : PurchaseOrder) (p : ProcurementRequest) (actor : String) (at : Option ℕ)
    → KeepsStock (complete_receipt o p actor at)
unfolding complete_receipt
complete_receipt-KeepsStock o p actor at =
    KeepsStock-if (o.received_quantity == o.quantity) _ (pure tt)
      (KeepsStock-bind _ (λ r. pure tt)
        (full_receipt-KeepsStock p.id actor "Purchase order fully received" at)
        (λ r. KeepsStock-pure tt))
      (KeepsStock-pure tt)

-- The item that the goods go to, and the state in which it is there.
record Target (receipt : Receipt) (item : InventoryItem) (s t : Db) : Type 0 where
  same_on_hand : on_hand_of (get item.id s.inventory) ≡ item.quantity_on_hand
  same_reserved : reserved_of (get item.id s.inventory) ≡ item.reserved_quantity
  there : get item.id t.inventory ≡ some item
  others : (k : ℕ) → get k t.inventory ≡ (if item.id == k then some item else get k s.inventory)
  same_movements : t.movements ≡ s.movements
  sku : item.sku ≡ receipt.sku
  place : item.storage_location ≡ receipt.storage_location

-- What a receipt of the order `id` has booked: the whole quantity that came, for the SKU and the
-- place of the receipt, under the key and the order of the call.
pub record Booked (id : ℕ) (receipt : Receipt) (r : InventoryChangeResult) (s : Db) : Type 0 where
  pub first : r.duplicate ≡ false
  pub sku : r.inventory_item.sku ≡ receipt.sku
  pub place : r.inventory_item.storage_location ≡ receipt.storage_location
  pub grown :
      r.inventory_item.quantity_on_hand
      ≡ on_hand_of (get r.inventory_item.id s.inventory) + pos_part receipt.quantity_received
  pub unreserved :
      r.inventory_item.reserved_quantity ≡ reserved_of (get r.inventory_item.id s.inventory)
  pub quantity : r.movement.quantity_delta ≡ receipt.quantity_received
  pub kind : r.movement.movement_type ≡ InventoryMovementType.receipt
  pub of_order : r.movement.purchase_order_id ≡ some id
  pub key : r.movement.idempotency_key ≡ receipt.idempotency_key

-- Items have ids of their own.
pub record ItemsAreKeyed (s : Db) : Type 0 where
  pub keyed :
      (sku location : String) (i : InventoryItem)
      → at_location sku location s ≡ some i
      → get i.id s.inventory ≡ some i
  pub fresh : get s.next_id s.inventory ≡ none

more : (n q b : ℕ) → pos b ≡ pos n +ℤ pos q → b ≡ n + q
unfolding ◌+ℤ◌
more n q b h = ground (arith, h)

-- What is found at a place is of the SKU and the place.
at_location-named :
    (sku place : String) (i : InventoryItem) (s : Db)
    → at_location sku place s ≡ some i
    → (i.sku ≡ sku) × (i.storage_location ≡ place)
at_location-named sku place i s h =
    let holds =
      find-holds (λ (x : InventoryItem). x.sku == sku && x.storage_location == place) s.inventory i
        h in
    (
      ground (arith, holds, Eq-string.beq_iff i.sku sku),
      ground (arith, holds, Eq-string.beq_iff i.storage_location place),
    )

item_for_ok :
    (receipt : Receipt) (p : ProcurementRequest) (o : PurchaseOrder) (item : InventoryItem)
    (s t : Db)
    → ItemsAreKeyed s
    → item_for receipt p o (at_location receipt.sku receipt.storage_location s) s ≡ (ok item, t)
    → Target receipt item s t
unfolding item_for new_id
item_for_ok receipt p o item s t k h =
    elim (Option-cases (at_location receipt.sku receipt.storage_location s)) [
      | inl new ↦
          let n = new_item s.next_id receipt p o in
          let ends : (n ≡ item)
              × (record s { next_id = s.next_id + 1; inventory = add n s.inventory } ≡ t) =
            ground (arith, new) in
          rw (← ends.0, ← ends.1)
            (record {
              same_on_hand = rw k.fresh refl;
              same_reserved = rw k.fresh refl;
              there = ground (arith, get-add s.next_id n s.inventory k.fresh);
              others = λ m. get-add_new m n s.inventory k.fresh;
              same_movements = refl;
              sku = refl;
              place = refl;
            })
      | inr (i, old) ↦
          let there = k.keyed receipt.sku receipt.storage_location i old in
          let named = at_location-named receipt.sku receipt.storage_location i s old in
          let ends : (i ≡ item) × (s ≡ t) = ground (arith, old) in
          rw (← ends.0, ← ends.1)
            (record {
              same_on_hand = rw there refl;
              same_reserved = rw there refl;
              there = there;
              others = λ n. ground (arith, there);
              same_movements = refl;
              sku = named.0;
              place = named.1;
            })
    ]

receivable_order_ok :
    (id : ℕ) (quantity : ℤ) (o : PurchaseOrder) (s t : Db)
    → receivable_order id quantity s ≡ (ok o, t)
    → (s ≡ t)
      × (get id s.purchase_orders ≡ some o)
      × (o.status ≡ PurchaseOrderStatus.shipped)
      × (o.received_quantity + pos_part quantity ≤ o.quantity)
      × (quantity ≡ pos (pos_part quantity))
      × (0 < pos_part quantity)
      × (o.id ≡ id)
unfolding receivable_order
receivable_order_ok id quantity o s t h = elim (Option-cases (get id s.purchase_orders)) [
  | inl missing ↦ absurd (ground (arith, missing))
  | inr (x, found) ↦ elim (Bool-cases (x.status == PurchaseOrderStatus.shipped)) [
    | inl shipped ↦ ground (arith, found, shipped, get-id id x s.purchase_orders)
    | inr other ↦ absurd (ground (arith, found, other))
  ]
]

-- The calls after the movement is recorded, and what they return.
record_end :
    (note rest : Action (Unit {0})) (a r : InventoryChangeResult) (s s' : Db)
    → KeepsStock note
    → KeepsStock rest
    → (note >> (rest >> pure a)) s ≡ (ok r, s')
    → (r ≡ a) × SameStock s s'
record_end note rest a r s s' kn kr h =
    let (p, q) = kn.keeps s in
    elim (Result-cases (note s).0) [
      | inr (x, e) ↦ absurd (ground (arith, e))
      | inl (u, e) ↦
          let (same, (inv, mov)) = KeepsStock-ok rest a r (note s).1 s' kr (ground (arith, e)) in
          (same, (inv ∙ p, mov ∙ q))
    ]

book_receipt_ok :
    (o : PurchaseOrder) (p : ProcurementRequest) (cost : ℤ) (receipt : Receipt)
    (item : InventoryItem) (r : InventoryChangeResult) (s t s' : Db)
    → Target receipt item s t
    → receipt.quantity_received ≡ pos (pos_part receipt.quantity_received)
    → book_receipt o p cost receipt item t ≡ (ok r, s')
    → Moves r.inventory_item r.movement s s' × Booked o.id receipt r s
unfolding book_receipt save_item save_order insert_movement new_id
book_receipt_ok o p cost receipt item r s t s' target sign h =
    let quantity = receipt.quantity_received in
    elim (Result-cases (weighted_cost_basis item.quantity_on_hand item.cost_basis quantity cost)) [
      | inr (x, e) ↦ absurd (ground (arith, e))
      | inl (basis, e) ↦
          elim (Result-cases
            (apply_quantity_change item.quantity_on_hand item.reserved_quantity quantity)) [
              | inr (x, f) ↦ absurd (ground (arith, e, f))
              | inl (b, f) ↦
                  elim (Bool-cases
                    (any (λ x. x.idempotency_key == receipt.idempotency_key) t.movements)) [
                      | inl again ↦ absurd (ground (arith, e, f, again))
                      | inr new ↦ elim (Option-cases (run_of p.workflow_run_id t)) [
                        | inl missing ↦ absurd (ground (arith, e, f, new, missing))
                        | inr (w, g) ↦
                            let i : InventoryItem = record item {
                              version = item.version + 1;
                              quantity_on_hand = b.quantity_on_hand;
                              cost_basis = basis;
                            } in
                            let m = receipt_movement t.next_id o cost receipt item in
                            let received = received_more quantity cost o in
                            let s₁ : Db = record t {
                              next_id = t.next_id + 1;
                              inventory = put i t.inventory;
                              purchase_orders =
                                  put (record received { version = received.version + 1 })
                                    t.purchase_orders;
                              movements = add m t.movements;
                            } in
                            let note =
                              record_change i m receipt.actor (available item) true (some w) in
                            let rest =
                              complete_receipt received p receipt.actor receipt.received_at in
                            let result : InventoryChangeResult = record {
                              inventory_item = i;
                              movement = m;
                              duplicate = false;
                            } in
                            let go : (note >> (rest >> pure result)) s₁ ≡ (ok r, s') =
                              ground (arith, e, f, new, g) in
                            let (same, (inv, mov)) =
                              record_end note rest result r s₁ s'
                                (record_change-KeepsStock i m receipt.actor (available item) true
                                  (some w))
                                (complete_receipt-KeepsStock received p receipt.actor
                                  receipt.received_at)
                                go in
                            let (nz, on, res, le) =
                              (apply_quantity_change_iff item.quantity_on_hand
                                  item.reserved_quantity quantity b).0
                                f in
                            rw same (
                              record {
                                stored = λ k. ground (
                                  arith,
                                  inv,
                                  get-put k i t.inventory {old = item} target.there,
                                  target.others k,
                                );
                                recorded = mov ∙ ap (add m) target.same_movements;
                                same_item = refl;
                                on_hand_moves = ground (arith, on, target.same_on_hand);
                                reserved_moves =
                                    ground
                                      (arith, target.same_reserved, +ℤ_zero item.reserved_quantity);
                                within = ground (arith, res, le);
                              },
                              record {
                                first = refl;
                                sku = target.sku;
                                place = target.place;
                                grown =
                                    more item.quantity_on_hand (pos_part receipt.quantity_received)
                                      b.quantity_on_hand (ground (arith, on, sign))
                                    ∙ ap (λ n. n + pos_part receipt.quantity_received)
                                        (sym target.same_on_hand);
                                unreserved = sym target.same_reserved;
                                quantity = refl;
                                kind = refl;
                                of_order = refl;
                                key = refl;
                              },
                            )
                      ]
                    ]
            ]
    ]

-- What a new receipt found in the database.
pub record Accepted (id : ℕ) (receipt : Receipt) (s : Db) : Type 0 where
  pub order : PurchaseOrder
  pub stored : get id s.purchase_orders ≡ some order
  pub shipped : order.status ≡ PurchaseOrderStatus.shipped
  pub within : order.received_quantity + pos_part receipt.quantity_received ≤ order.quantity
  pub whole : receipt.quantity_received ≡ pos (pos_part receipt.quantity_received)
  pub positive : 0 < pos_part receipt.quantity_received

receive_new_ok :
    (id : ℕ) (receipt : Receipt) (r : InventoryChangeResult) (s s' : Db)
    → ItemsAreKeyed s
    → receive_new id receipt s ≡ (ok r, s')
    → Accepted id receipt s × Moves r.inventory_item r.movement s s' × Booked id receipt r s
unfolding receive_new
receive_new_ok id receipt r s s' keyed h =
    let first = receivable_order id receipt.quantity_received s in
    elim (Result-cases first.0) [
      | inr (x, e) ↦ absurd (ground (arith, e))
      | inl (o, e) ↦
          let (same, found, shipped, bound, sign, positive, own) =
            receivable_order_ok id receipt.quantity_received o s first.1 (ground (arith, e)) in
          let goes : (get o.procurement_request_id first.1.requests
              ≡ get o.procurement_request_id s.requests) =
            rw (← same) refl in
          elim (Option-cases (get o.procurement_request_id s.requests)) [
            | inl missing ↦ absurd (ground (arith, e, same, missing))
            | inr (p, f) ↦ elim (Option-cases (get p.selected_quote_id s.quotes)) [
              | inl missing ↦ absurd (ground (arith, e, same, f, missing))
              | inr (q, g) ↦
                  let second =
                    item_for receipt p o (at_location receipt.sku receipt.storage_location s) s in
                  elim (Result-cases second.0) [
                    | inr (x, k) ↦ absurd (ground (arith, e, same, f, g, k))
                    | inl (item, k) ↦
                        let target =
                          item_for_ok receipt p o item s second.1 keyed (ground (arith, k)) in
                        let cost = or_else receipt.landed_unit_cost (pos q.unit_cost) in
                        let booked =
                          book_receipt_ok o p cost receipt item r s second.1 s' target sign
                            (ground (arith, e, same, f, g, k)) in
                        (
                          record {
                            order = o;
                            stored = found;
                            shipped = shipped;
                            within = bound;
                            whole = sign;
                            positive = positive;
                          },
                          booked.0,
                          rw (← own) booked.1,
                        )
                  ]
            ]
          ]
    ]

-- A receipt that returns either repeats an earlier call and changes nothing, or books the goods: then
-- the order was shipped and stored, the quantity that came is positive and no more than what is
-- still to come, the stock on hand of one item, of the SKU and the place of the receipt, grows by
-- exactly that quantity while its reserved stock stays, no other item changes, and one movement is
-- added, of that quantity, order and key. Items have ids of their own.
pub receive_cases :
    (id : ℕ) (receipt : Receipt) (r : InventoryChangeResult) (s s' : Db)
    → ItemsAreKeyed s
    → receive id receipt s ≡ (ok r, s')
    → ((r.duplicate ≡ true) × (s ≡ s'))
      ⊎ (Accepted id receipt s × Moves r.inventory_item r.movement s s' × Booked id receipt r s)
unfolding receive
receive_cases id receipt r s s' keyed h =
    elim (Option-cases (existing_movement receipt.idempotency_key s)) [
      | inl new ↦ inr (receive_new_ok id receipt r s s' keyed (ground (arith, new)))
      | inr (m, old) ↦ inl (ground (arith, old, repeated_keeps m r s s'))
    ]
