-- ===== src/Application/Inventory/Balance.antt =====
-- Stock that comes in or is adjusted keeps the ledger.
use cax_commerce_operations.Prelude.{
  ℕ, ◌+◌, ◌≡◌, refl, String, Bool, true, false, Option, none, some, inl, inr, arith, ◌==◌, Eq-nat,
  ◌⊎◌, not, ◌||◌, any, ap, ◌∙◌, find, find-append_last, eq_self, Bool-cases, Option-cases,
}
use cax_commerce_operations.Prelude.Int.{ℤ, Eq-int}
use cax_commerce_operations.Errors.{ok, Result-cases}
use cax_commerce_operations.Persistence.Enums.{InventoryMovementType, Eq-movement_type}
use cax_commerce_operations.Persistence.Keys.{Key, Eq-key, CorrelationId}
use cax_commerce_operations.Persistence.Tables.{get, put, add, get-id}
use cax_commerce_operations.Persistence.Models.{
  InventoryItem, InventoryMovement, WorkflowRun, available, HasId-inventory_item,
}
use cax_commerce_operations.Domains.Inventory.{apply_quantity_change}
use cax_commerce_operations.Domains.Inventory.Change.{apply_quantity_change_iff}
use cax_commerce_operations.Application.Inventory.{
  InventoryChangeResult, save_item, insert_movement, existing_movement, correlation_of,
  note_receipt, note_low_stock, record_change, adjusted_basis, adjust_new, repeated, adjust,
}
use cax_commerce_operations.Application.Stock.{IsBalanced, +ℤ_zero, Moves-put, Moves}
use cax_commerce_operations.Application.Stock.Keeps.{
  KeepsStock, keeps_laws, KeepsStock-pure, KeepsStock-ok,
}
use cax_commerce_operations.Session.{Db}
use cax_commerce_operations.Session.Actions.{new_id, pure, ◌>>◌}

correlation_of-KeepsStock : (w : Option WorkflowRun) → KeepsStock (correlation_of w)
unfolding correlation_of new_id
correlation_of-KeepsStock none = record { keeps = λ s. (refl, refl) }
correlation_of-KeepsStock (some w) = record { keeps = λ s. (refl, refl) }

note_receipt-KeepsStock :
    (i : InventoryItem) (m : InventoryMovement) (b : Bool) (c : CorrelationId) (w : Option ℕ)
    → KeepsStock (note_receipt i m b c w)
unfolding note_receipt
note_receipt-KeepsStock i m false c w = KeepsStock-pure tt
note_receipt-KeepsStock i m true c w = search keeps_laws

pub note_low_stock-KeepsStock :
    (i : InventoryItem) (m : InventoryMovement) (p : ℤ) (c : CorrelationId) (w : Option ℕ)
    → KeepsStock (note_low_stock i m p c w)
unfolding note_low_stock
note_low_stock-KeepsStock i m p c w = search keeps_laws

pub record_change-KeepsStock :
    (i : InventoryItem) (m : InventoryMovement) (actor : String) (p : ℤ) (b : Bool)
    (w : Option WorkflowRun)
    → KeepsStock (record_change i m actor p b w)
unfolding record_change
record_change-KeepsStock i m actor p b w =
    search
      (keeps_laws, correlation_of-KeepsStock, note_receipt-KeepsStock, note_low_stock-KeepsStock)

-- What an adjustment of an item asks for, in the movement that is on record for it.
pub record IsAdjustment (id : ℕ) (delta : ℤ) (m : InventoryMovement) : Type 0 where
  pub of_item : m.inventory_item_id ≡ id
  pub quantity : m.quantity_delta ≡ delta
  pub kind : m.movement_type ≡ InventoryMovementType.adjustment

-- An adjustment that is made is one movement of the item.
adjust_new-Moves :
    (id : ℕ) (delta : ℤ) (reason actor : String) (key : Key) (cost : Option ℤ)
    (r : InventoryChangeResult) (s s' : Db)
    → IsBalanced s
    → adjust_new id delta reason actor key cost s ≡ (ok r, s')
    → Moves r.inventory_item r.movement s s'
      × (r.movement.idempotency_key ≡ key)
      × IsAdjustment id delta r.movement
unfolding adjust_new save_item insert_movement new_id
adjust_new-Moves id delta reason actor key cost r s s' balanced h =
    elim (Option-cases (get id s.inventory)) [
      | inl missing ↦ absurd (ground (arith, missing))
      | inr (item, found) ↦
          let change = apply_quantity_change item.quantity_on_hand item.reserved_quantity delta in
          elim (Result-cases change) [
            | inr (x, e) ↦ absurd (ground (arith, found, e))
            | inl (b, e) ↦ elim (Result-cases (adjusted_basis item delta cost)) [
              | inr (x, f) ↦ absurd (ground (arith, found, e, f))
              | inl (basis, f) ↦
                  let i : InventoryItem = record item {
                    version = item.version + 1;
                    cost_basis = basis;
                    quantity_on_hand = b.quantity_on_hand;
                  } in
                  let m : InventoryMovement = record {
                    id = s.next_id;
                    inventory_item_id = item.id;
                    purchase_order_id = none;
                    movement_type = InventoryMovementType.adjustment;
                    quantity_delta = delta;
                    unit_cost = cost;
                    reason = reason;
                    source_type = "manual_adjustment";
                    source_id = item.id;
                    idempotency_key = key;
                  } in
                  let s₁ : Db = record s {
                    next_id = s.next_id + 1;
                    inventory = put i s.inventory;
                    movements = add m s.movements;
                  } in
                  let note = record_change i m actor (available item) false none in
                  let result : InventoryChangeResult = record {
                    inventory_item = i;
                    movement = m;
                    duplicate = false;
                  } in
                  elim (Bool-cases (any (λ x. x.idempotency_key == key) s.movements)) [
                    | inl again ↦ absurd (ground (arith, found, e, f, again))
                    | inr new ↦
                        let go : (note >> pure result) s₁ ≡ (ok r, s') =
                          ground (arith, found, e, f, new) in
                        let (same, (inv, mov)) =
                          KeepsStock-ok note result r s₁ s'
                            (record_change-KeepsStock i m actor (available item) false none) go in
                        let (nz, on, res, le) =
                          (apply_quantity_change_iff item.quantity_on_hand item.reserved_quantity
                              delta b).0
                            e in
                        rw same (
                          Moves-put id item i m s s' found refl inv mov refl on
                              (+ℤ_zero item.reserved_quantity) (ground (arith, res, le)),
                          refl,
                          record {
                            of_item = get-id id item s.inventory found;
                            quantity = refl;
                            kind = refl;
                          },
                        )
                  ]
            ]
          ]
    ]

pub repeated_keeps :
    (m : InventoryMovement) (r : InventoryChangeResult) (s s' : Db)
    → repeated m s ≡ (ok r, s')
    → (r.movement ≡ m) × (r.duplicate ≡ true) × (s ≡ s')
unfolding repeated
repeated_keeps m r s s' h = ground (arith, Option-cases (get m.inventory_item_id s.inventory))

adjusted_again :
    (id : ℕ) (delta : ℤ) (reason actor : String) (key : Key) (cost : Option ℤ)
    (r : InventoryChangeResult) (m : InventoryMovement) (s s' : Db)
    → existing_movement key s ≡ some m
    → adjust id delta reason actor key cost s ≡ (ok r, s')
    → (r.movement ≡ m) × (s ≡ s') × IsAdjustment id delta m
unfolding adjust
adjusted_again id delta reason actor key cost r m s s' old h =
    elim (Bool-cases (
      not (m.inventory_item_id == id)
      || not (m.quantity_delta == delta)
      || not (m.movement_type == InventoryMovementType.adjustment))) [
        | inl other ↦ absurd (ground (arith, old, other, h))
        | inr same ↦
            let (row, _, state) = repeated_keeps m r s s' (ground (arith, old, same, h)) in
            (
              row,
              state,
              record {
                of_item = ground (arith, same);
                quantity = ground (arith, same, Eq-int.beq_iff m.quantity_delta delta);
                kind = ground (
                  arith,
                  same,
                  Eq-movement_type.beq_iff m.movement_type InventoryMovementType.adjustment,
                );
              },
            )
      ]

-- An adjustment that returns has its movement on record: either it was there before, and nothing
-- changes, or it is the one movement that is made.
pub adjust_made :
    (id : ℕ) (delta : ℤ) (reason actor : String) (key : Key) (cost : Option ℤ)
    (r : InventoryChangeResult) (s s' : Db)
    → IsBalanced s
    → adjust id delta reason actor key cost s ≡ (ok r, s')
    → IsAdjustment id delta r.movement
      × (((existing_movement key s ≡ some r.movement) × (s ≡ s'))
          ⊎ ((existing_movement key s ≡ none) × Moves r.inventory_item r.movement s s'))
unfolding adjust
adjust_made id delta reason actor key cost r s s' balanced h =
    elim (Option-cases (existing_movement key s)) [
      | inl new ↦
          let (moves, _, asked) =
            adjust_new-Moves id delta reason actor key cost r s s' balanced (ground (arith, new)) in
          (asked, inr (new, moves))
      | inr (m, old) ↦
          let (row, state, asked) = adjusted_again id delta reason actor key cost r m s s' old h in
          (rw (row) asked, inl (rw (row) old, state))
    ]

-- An adjustment that returns either repeats an earlier call, and changes nothing, or is one movement.
pub adjust_cases :
    (id : ℕ) (delta : ℤ) (reason actor : String) (key : Key) (cost : Option ℤ)
    (r : InventoryChangeResult) (s s' : Db)
    → IsBalanced s
    → adjust id delta reason actor key cost s ≡ (ok r, s')
    → (s ≡ s') ⊎ Moves r.inventory_item r.movement s s'
unfolding adjust
adjust_cases id delta reason actor key cost r s s' balanced h =
    elim (Option-cases (existing_movement key s)) [
      | inl new ↦
          inr
            (adjust_new-Moves id delta reason actor key cost r s s' balanced
              (ground (arith, new))).0
      | inr (m, old) ↦ inl (ground (arith, old, repeated_keeps m r s s'))
    ]

-- After an adjustment that returns, its key is on record.
pub adjust_books :
    (id : ℕ) (delta : ℤ) (reason actor : String) (key : Key) (cost : Option ℤ)
    (r : InventoryChangeResult) (s s' : Db)
    → IsBalanced s
    → adjust id delta reason actor key cost s ≡ (ok r, s')
    → existing_movement key s' ≡ some r.movement
unfolding adjust
adjust_books id delta reason actor key cost r s s' balanced h =
    elim (Option-cases (existing_movement key s)) [
      | inl new ↦
          let (moves, keyed, _) =
            adjust_new-Moves id delta reason actor key cost r s s' balanced (ground (arith, new)) in
          ap (λ t. find (λ (m : InventoryMovement). m.idempotency_key == key) t) moves.recorded
          ∙ find-append_last (λ (m : InventoryMovement). m.idempotency_key == key) r.movement
              s.movements new (ground (arith, keyed, eq_self key))
      | inr (m, old) ↦ ground (arith, old, repeated_keeps m r s s')
    ]

-- Once its key is on record, an adjustment changes no stock.
pub adjust_again :
    (id : ℕ) (delta : ℤ) (reason actor : String) (key : Key) (cost : Option ℤ)
    (m : InventoryMovement) (s : Db)
    → existing_movement key s ≡ some m
    → (adjust id delta reason actor key cost s).1 ≡ s
unfolding adjust repeated
adjust_again id delta reason actor key cost m s found =
    ground (arith, found, Option-cases (get m.inventory_item_id s.inventory))
