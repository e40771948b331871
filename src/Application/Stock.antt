-- ===== src/Application/Stock.antt =====
-- The stock ledger: what the movements of an item say of its balance.
pub mod Keeps
pub mod Purchases
use cax_commerce_operations.Prelude.{
  ℕ, ◌+◌, ◌≤◌, ◌≡◌, refl, Bool, true, false, Option, none, some, List, [], ◌∷◌, ◌++◌, arith, ◌==◌,
  Eq-nat, if◌then◌else◌, ◌∙◌, sym,
}
use cax_commerce_operations.Prelude.Int.{
  ℤ, pos, ◌+ℤ◌, sub_ℕ, pos_part, neg_part, eq_of_parts, int_laws,
}
use cax_commerce_operations.Persistence.Enums.{InventoryMovementType}
use cax_commerce_operations.Persistence.Tables.{get, put, add, get-put, get-id}
use cax_commerce_operations.Persistence.Models.{
  InventoryItem, InventoryMovement, HasId-inventory_item,
}
use cax_commerce_operations.Session.{Db}

-- What a movement of each type adds to the stock on hand, and to the reserved stock.
abbrev pub on_hand_delta : InventoryMovementType → ℤ → ℤ
on_hand_delta InventoryMovementType.reservation delta = pos 0
on_hand_delta InventoryMovementType.release delta = pos 0
on_hand_delta _ delta = delta

abbrev pub reserved_delta : InventoryMovementType → ℤ → ℤ
reserved_delta InventoryMovementType.reservation delta = delta
reserved_delta InventoryMovementType.release delta = delta
reserved_delta InventoryMovementType.shipment delta = delta
reserved_delta _ delta = pos 0

-- The sums over all movements of the item `id`.
abbrev pub moved_on_hand : ℕ → List InventoryMovement → ℤ
moved_on_hand id [] = pos 0
moved_on_hand id (m ∷ t) =
    let rest = moved_on_hand id t in
    if m.inventory_item_id == id
    then on_hand_delta m.movement_type m.quantity_delta +ℤ rest
    else rest

abbrev pub moved_reserved : ℕ → List InventoryMovement → ℤ
moved_reserved id [] = pos 0
moved_reserved id (m ∷ t) =
    let rest = moved_reserved id t in
    if m.inventory_item_id == id
    then reserved_delta m.movement_type m.quantity_delta +ℤ rest
    else rest

-- The balance of the item, which is zero while there is no such item.
abbrev pub on_hand_of : Option InventoryItem → ℕ
on_hand_of none = 0
on_hand_of (some i) = i.quantity_on_hand

abbrev pub reserved_of : Option InventoryItem → ℕ
reserved_of none = 0
reserved_of (some i) = i.reserved_quantity

-- Every balance is the sum of its movements, and no more stock is reserved than is there.
pub record IsBalanced (s : Db) : Type 0 where
  pub on_hand : (id : ℕ) → pos (on_hand_of (get id s.inventory)) ≡ moved_on_hand id s.movements
  pub reserved : (id : ℕ) → pos (reserved_of (get id s.inventory)) ≡ moved_reserved id s.movements
  pub covered : (id : ℕ) → reserved_of (get id s.inventory) ≤ on_hand_of (get id s.inventory)

+ℤ_move : (a b c : ℤ) → a +ℤ (b +ℤ c) ≡ (a +ℤ b) +ℤ c
+ℤ_move a b c = eq_of_parts (a +ℤ (b +ℤ c)) ((a +ℤ b) +ℤ c) (omega int_laws)

+ℤ_swap : (a : ℤ) → a +ℤ pos 0 ≡ pos 0 +ℤ a
+ℤ_swap a = eq_of_parts (a +ℤ pos 0) (pos 0 +ℤ a) (omega int_laws)

moved_on_hand-add :
    (id : ℕ) (m : InventoryMovement) (t : List InventoryMovement)
    → moved_on_hand id (add m t) ≡ (
        if m.inventory_item_id == id
        then moved_on_hand id t +ℤ on_hand_delta m.movement_type m.quantity_delta
        else moved_on_hand id t)
moved_on_hand-add id m [] = ground (arith, +ℤ_swap (on_hand_delta m.movement_type m.quantity_delta))
moved_on_hand-add id m (x ∷ t) = ground (
  arith,
  moved_on_hand-add id m t,
  +ℤ_move (on_hand_delta x.movement_type x.quantity_delta) (moved_on_hand id t)
      (on_hand_delta m.movement_type m.quantity_delta),
)

moved_reserved-add :
    (id : ℕ) (m : InventoryMovement) (t : List InventoryMovement)
    → moved_reserved id (add m t) ≡ (
        if m.inventory_item_id == id
        then moved_reserved id t +ℤ reserved_delta m.movement_type m.quantity_delta
        else moved_reserved id t)
moved_reserved-add id m [] =
    ground (arith, +ℤ_swap (reserved_delta m.movement_type m.quantity_delta))
moved_reserved-add id m (x ∷ t) = ground (
  arith,
  moved_reserved-add id m t,
  +ℤ_move (reserved_delta x.movement_type x.quantity_delta) (moved_reserved id t)
      (reserved_delta m.movement_type m.quantity_delta),
)

-- One movement: the row `i` is written, the movement `m` of that item is added, and the balance
-- changes by what the movement says.
pub record Moves (i : InventoryItem) (m : InventoryMovement) (s s' : Db) : Type 0 where
  pub stored : (k : ℕ) → get k s'.inventory ≡ (if i.id == k then some i else get k s.inventory)
  pub recorded : s'.movements ≡ add m s.movements
  pub same_item : m.inventory_item_id ≡ i.id
  pub on_hand_moves :
      pos i.quantity_on_hand
      ≡ pos (on_hand_of (get i.id s.inventory)) +ℤ on_hand_delta m.movement_type m.quantity_delta
  pub reserved_moves :
      pos i.reserved_quantity
      ≡ pos (reserved_of (get i.id s.inventory)) +ℤ reserved_delta m.movement_type m.quantity_delta
  pub within : i.reserved_quantity ≤ i.quantity_on_hand

pub Moves-IsBalanced :
    (i : InventoryItem) (m : InventoryMovement) (s s' : Db)
    → Moves i m s s'
    → IsBalanced s
    → IsBalanced s'
Moves-IsBalanced i m s s' v b = record {
  on_hand = λ id. ground (
    arith,
    v.stored id,
    v.recorded,
    v.same_item,
    v.on_hand_moves,
    b.on_hand id,
    moved_on_hand-add id m s.movements,
  );
  reserved = λ id. ground (
    arith,
    v.stored id,
    v.recorded,
    v.same_item,
    v.reserved_moves,
    b.reserved id,
    moved_reserved-add id m s.movements,
  );
  covered = λ id. ground (arith, v.stored id, v.within, b.covered id);
}

-- A movement of an item that is there.
pub Moves-put :
    (id : ℕ) (item i : InventoryItem) (m : InventoryMovement) (s s' : Db)
    → get id s.inventory ≡ some item
    → i.id ≡ item.id
    → s'.inventory ≡ put i s.inventory
    → s'.movements ≡ add m s.movements
    → m.inventory_item_id ≡ item.id
    → pos i.quantity_on_hand
      ≡ pos item.quantity_on_hand +ℤ on_hand_delta m.movement_type m.quantity_delta
    → pos i.reserved_quantity
      ≡ pos item.reserved_quantity +ℤ reserved_delta m.movement_type m.quantity_delta
    → i.reserved_quantity ≤ i.quantity_on_hand
    → Moves i m s s'
Moves-put id item i m s s' found same inv mov at on res le =
    let e = get-id id item s.inventory found in
    let there : get i.id s.inventory ≡ some item = ground (arith, found, same, e) in
    record {
      stored = λ k. rw inv (get-put k i s.inventory {old = item} there);
      recorded = mov;
      same_item = at ∙ sym same;
      on_hand_moves = ground (arith, there, on);
      reserved_moves = ground (arith, there, res);
      within = le;
    }

pub +ℤ_zero : (n : ℕ) → pos n ≡ pos n +ℤ pos 0
unfolding ◌+ℤ◌
+ℤ_zero n = ground arith

-- The ledger reads only the items and the movements.
pub IsBalanced-same :
    (s s' : Db)
    → (s'.inventory ≡ s.inventory) × (s'.movements ≡ s.movements)
    → IsBalanced s
    → IsBalanced s'
IsBalanced-same s s' same b = record {
  on_hand = λ id. rw (same.0, same.1) (b.on_hand id);
  reserved = λ id. rw (same.0, same.1) (b.reserved id);
  covered = λ id. rw (same.0) (b.covered id);
}
