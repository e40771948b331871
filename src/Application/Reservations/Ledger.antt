-- ===== src/Application/Reservations/Ledger.antt =====
-- Reserving, releasing and shipping stock keep the ledger.
use cax_commerce_operations.Prelude.{
  ℕ, ◌+◌, ◌-◌, ◌≤◌, ◌≡◌, refl, String, true, ◌||◌, none, some, List, [], ◌∷◌, inl, inr, arith, ◌==◌,
  ◌∙◌, sym, any, ltb, Bool-cases, Option-cases,
}
use cax_commerce_operations.Prelude.Int.{ℤ, pos, ◌+ℤ◌, neg, leb_ℤ}
use cax_commerce_operations.Errors.{ok, Result-cases}
use cax_commerce_operations.Persistence.Enums.{InventoryMovementType}
use cax_commerce_operations.Persistence.Keys.{Key, CorrelationId, Eq-key}
use cax_commerce_operations.Persistence.Tables.{get, put, add, get-id}
use cax_commerce_operations.Persistence.Models.{
  InventoryItem, InventoryMovement, Order, OrderItem, available, HasId-inventory_item,
}
use cax_commerce_operations.Application.Inventory.{save_item, insert_movement}
use cax_commerce_operations.Application.Inventory.Balance.{note_low_stock-KeepsStock}
use cax_commerce_operations.Application.Reservations.{
  inventory_events, order_movement, release_line, ship_line, each_line, release_order, ship_order,
  reserve_item, reservable, reserve_first, reserve, candidates,
}
use cax_commerce_operations.Application.Stock.{
  IsBalanced, +ℤ_zero, Moves-put, Moves-IsBalanced, on_hand_delta, reserved_delta,
}
use cax_commerce_operations.Application.Stock.Keeps.{
  SameStock, KeepsStock, KeepsStock-ok, keeps_laws,
}
use cax_commerce_operations.Session.{Db, Action}
use cax_commerce_operations.Session.Actions.{new_id, pure, ◌>>◌}

inventory_events-KeepsStock :
    (i : InventoryItem) (m : InventoryMovement) (c : CorrelationId) (p d : ℤ)
    → KeepsStock (inventory_events i m c p d)
unfolding inventory_events
inventory_events-KeepsStock i m c p d = search (keeps_laws, note_low_stock-KeepsStock)

less : (a q : ℕ) → q ≤ a → pos (a - q) ≡ pos a +ℤ neg q
unfolding ◌+ℤ◌ neg
less a q h = ground arith

more : (a q : ℕ) → pos (a + q) ≡ pos a +ℤ pos q
unfolding ◌+ℤ◌
more a q = ground arith

-- A row is within its balance.
covered_row :
    (id : ℕ) (item : InventoryItem) (s : Db)
    → IsBalanced s
    → get id s.inventory ≡ some item
    → item.reserved_quantity ≤ item.quantity_on_hand
covered_row id item s b found = ground (arith, b.covered id)

-- The end of each of the calls: the row `i` and the movement `m` are written, and events follow.
moved_IsBalanced :
    (id : ℕ) (item i : InventoryItem) (m : InventoryMovement) (s s₁ s' : Db)
    → IsBalanced s
    → get id s.inventory ≡ some item
    → i.id ≡ item.id
    → s₁.inventory ≡ put i s.inventory
    → s₁.movements ≡ add m s.movements
    → SameStock s₁ s'
    → m.inventory_item_id ≡ item.id
    → pos i.quantity_on_hand
      ≡ pos item.quantity_on_hand +ℤ on_hand_delta m.movement_type m.quantity_delta
    → pos i.reserved_quantity
      ≡ pos item.reserved_quantity +ℤ reserved_delta m.movement_type m.quantity_delta
    → i.reserved_quantity ≤ i.quantity_on_hand
    → IsBalanced s'
moved_IsBalanced id item i m s s₁ s' b found same inv mov keeps at on res le =
    Moves-IsBalanced i m s s'
      (Moves-put id item i m s s' found same (keeps.0 ∙ inv) (keeps.1 ∙ mov) at on res le) b

release_line-IsBalanced :
    (o : Order) (line : OrderItem) (u : Unit {0}) (s s' : Db)
    → IsBalanced s
    → release_line o line s ≡ (ok u, s')
    → IsBalanced s'
unfolding release_line save_item insert_movement new_id
release_line-IsBalanced o line u s s' b h =
    elim (Option-cases (get line.inventory_item_id s.inventory)) [
      | inl missing ↦ absurd (ground (arith, missing))
      | inr (item, found) ↦ elim (Bool-cases (ltb item.reserved_quantity line.quantity)) [
        | inl short ↦ absurd (ground (arith, found, short))
        | inr enough ↦
            let m =
              order_movement s.next_id o line InventoryMovementType.release (neg line.quantity) in
            let i : InventoryItem = record item {
              version = item.version + 1;
              reserved_quantity = item.reserved_quantity - line.quantity;
            } in
            let s₁ : Db = record s {
              next_id = s.next_id + 1;
              inventory = put i s.inventory;
              movements = add m s.movements;
            } in
            let c = CorrelationId.of_row o.id in
            elim (Bool-cases (any (λ x. x.idempotency_key == m.idempotency_key) s.movements)) [
              | inl again ↦ absurd (ground (arith, found, enough, again))
              | inr new ↦
                  let keeps =
                    (inventory_events-KeepsStock i m c (available item) (pos 0)).keeps s₁ in
                  let ends : (inventory_events i m c (available item) (pos 0) s₁).1 ≡ s' =
                    ground (arith, found, enough, new) in
                  let id = get-id line.inventory_item_id item s.inventory found in
                  moved_IsBalanced line.inventory_item_id item i m s s₁ s' b found refl refl refl
                    (rw (← ends) keeps) (sym id) (+ℤ_zero item.quantity_on_hand)
                    (less item.reserved_quantity line.quantity (ground (arith, enough)))
                    (ground (arith, covered_row line.inventory_item_id item s b found))
            ]
      ]
    ]

ship_line-IsBalanced :
    (o : Order) (line : OrderItem) (u : Unit {0}) (s s' : Db)
    → IsBalanced s
    → ship_line o line s ≡ (ok u, s')
    → IsBalanced s'
unfolding ship_line save_item insert_movement new_id
ship_line-IsBalanced o line u s s' b h =
    elim (Option-cases (get line.inventory_item_id s.inventory)) [
      | inl missing ↦ absurd (ground (arith, missing))
      | inr (item, found) ↦
          elim (Bool-cases
            (ltb item.reserved_quantity line.quantity || ltb item.quantity_on_hand line.quantity)) [
              | inl short ↦ absurd (ground (arith, found, short))
              | inr enough ↦
                  let m =
                    order_movement s.next_id o line InventoryMovementType.shipment
                      (neg line.quantity) in
                  let i : InventoryItem = record item {
                    version = item.version + 1;
                    quantity_on_hand = item.quantity_on_hand - line.quantity;
                    reserved_quantity = item.reserved_quantity - line.quantity;
                  } in
                  let s₁ : Db = record s {
                    next_id = s.next_id + 1;
                    inventory = put i s.inventory;
                    movements = add m s.movements;
                  } in
                  let c = CorrelationId.of_row o.id in
                  elim (Bool-cases
                    (any (λ x. x.idempotency_key == m.idempotency_key) s.movements)) [
                      | inl again ↦ absurd (ground (arith, found, enough, again))
                      | inr new ↦
                          let keeps =
                            (inventory_events-KeepsStock i m c (available item)
                                (neg line.quantity)).keeps
                              s₁ in
                          let ends : (inventory_events i m c (available item) (neg line.quantity)
                                s₁).1
                              ≡ s' =
                            ground (arith, found, enough, new) in
                          let id = get-id line.inventory_item_id item s.inventory found in
                          moved_IsBalanced line.inventory_item_id item i m s s₁ s' b found refl refl
                            refl (rw (← ends) keeps) (sym id)
                            (less item.quantity_on_hand line.quantity (ground (arith, enough)))
                            (less item.reserved_quantity line.quantity (ground (arith, enough)))
                            (ground
                              (arith, covered_row line.inventory_item_id item s b found, enough))
                    ]
            ]
    ]

reserve_item-IsBalanced :
    (q : ℕ) (o : Order) (line : String) (c : CorrelationId) (item r : InventoryItem) (id : ℕ)
    (s s' : Db)
    → IsBalanced s
    → get id s.inventory ≡ some item
    → leb_ℤ (pos q) (available item) ≡ true
    → reserve_item q o line c item s ≡ (ok r, s')
    → IsBalanced s'
unfolding reserve_item save_item insert_movement new_id
reserve_item-IsBalanced q o line c item r id s s' b found enough h =
    let i : InventoryItem = record item {
      version = item.version + 1;
      reserved_quantity = item.reserved_quantity + q;
    } in
    let m : InventoryMovement = record {
      id = s.next_id;
      inventory_item_id = item.id;
      purchase_order_id = none;
      movement_type = InventoryMovementType.reservation;
      quantity_delta = pos q;
      unit_cost = none;
      reason = "Reserved for marketplace order";
      source_type = "order";
      source_id = o.id;
      idempotency_key = Key.of_part "order-reservation" o.id line;
    } in
    let s₁ : Db = record s {
      next_id = s.next_id + 1;
      inventory = put i s.inventory;
      movements = add m s.movements;
    } in
    let note = inventory_events i m c (available item) (pos 0) in
    elim (Bool-cases (any (λ x. x.idempotency_key == m.idempotency_key) s.movements)) [
      | inl again ↦ absurd (ground (arith, again))
      | inr new ↦
          let go : (note >> pure i) s₁ ≡ (ok r, s') = ground (arith, new) in
          let (_, keeps) =
            KeepsStock-ok note i r s₁ s'
              (inventory_events-KeepsStock i m c (available item) (pos 0)) go in
          moved_IsBalanced id item i m s s₁ s' b found refl refl refl keeps refl
            (+ℤ_zero item.quantity_on_hand) (more item.reserved_quantity q)
            (ground (arith, covered_row id item s b found, enough))
    ]

-- A loop whose every step keeps the ledger keeps it.
each_line-IsBalanced :
    (f : OrderItem → Action (Unit {0})) (lines : List OrderItem) (u : Unit {0}) (s s' : Db)
    → ((line : OrderItem) (v : Unit {0}) (t t' : Db)
        → IsBalanced t
        → f line t ≡ (ok v, t')
        → IsBalanced t')
    → IsBalanced s
    → each_line f lines s ≡ (ok u, s')
    → IsBalanced s'
each_line-IsBalanced f [] u s s' step b h = let same : s ≡ s' = ground (arith, h) in rw (← same) b
each_line-IsBalanced f (line ∷ lines) u s s' step b h = elim (Result-cases (f line s).0) [
  | inr (x, e) ↦ absurd (ground (arith, e))
  | inl (v, e) ↦
      each_line-IsBalanced f lines u (f line s).1 s' step
        (step line v s (f line s).1 b (ground (arith, e))) (ground (arith, e))
]

pub release_order-IsBalanced :
    (o : Order) (u : Unit {0}) (s s' : Db)
    → IsBalanced s
    → release_order o s ≡ (ok u, s')
    → IsBalanced s'
unfolding release_order
release_order-IsBalanced o u s s' b h =
    each_line-IsBalanced (release_line o) o.items u s s' (release_line-IsBalanced o) b h

pub ship_order-IsBalanced :
    (o : Order) (u : Unit {0}) (s s' : Db)
    → IsBalanced s
    → ship_order o s ≡ (ok u, s')
    → IsBalanced s'
unfolding ship_order
ship_order-IsBalanced o u s s' b h =
    each_line-IsBalanced (ship_line o) o.items u s s' (ship_line-IsBalanced o) b h

reservable_ok :
    (q id : ℕ) (item : InventoryItem) (s : Db)
    → reservable q id s ≡ some item
    → (get id s.inventory ≡ some item) × (leb_ℤ (pos q) (available item) ≡ true)
reservable_ok q id item s h = elim (Option-cases (get id s.inventory)) [
  | inl missing ↦ absurd (ground (arith, missing))
  | inr (x, found) ↦ elim (Bool-cases (leb_ℤ (pos q) (available x))) [
    | inl enough ↦ ground (arith, found, enough)
    | inr short ↦ absurd (ground (arith, found, short))
  ]
]

reserve_first-IsBalanced :
    (q : ℕ) (o : Order) (line : String) (c : CorrelationId) (ids : List ℕ) (r : InventoryItem)
    (s s' : Db)
    → IsBalanced s
    → reserve_first q o line c ids s ≡ (ok r, s')
    → IsBalanced s'
unfolding reserve_first
reserve_first-IsBalanced q o line c [] r s s' b h = absurd (ground (arith, h))
reserve_first-IsBalanced q o line c (id ∷ ids) r s s' b h =
    elim (Option-cases (reservable q id s)) [
      | inl short ↦ reserve_first-IsBalanced q o line c ids r s s' b (ground (arith, short))
      | inr (item, e) ↦
          let (found, enough) = reservable_ok q id item s e in
          reserve_item-IsBalanced q o line c item r id s s' b found enough (ground (arith, e))
    ]

pub reserve-IsBalanced :
    (sku : String) (q : ℕ) (o : Order) (line : String) (c : CorrelationId) (r : InventoryItem)
    (s s' : Db)
    → IsBalanced s
    → reserve sku q o line c s ≡ (ok r, s')
    → IsBalanced s'
unfolding reserve
reserve-IsBalanced sku q o line c r s s' b h =
    reserve_first-IsBalanced q o line c (candidates sku s) r s s' b h
