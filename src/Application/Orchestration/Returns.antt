-- ===== src/Application/Orchestration/Returns.antt =====
-- What the reconciliation of a return does to the stock.
use Prim.Native.String.{◌++◌ as concat}
use cax_commerce_operations.Prelude.{
  ℕ, ◌≡◌, ◌⊎◌, refl, ap, sym, ◌∙◌, String, Bool, true, false, Option, none, some, List, [], ◌∷◌,
  ◌==◌, not, ◌||◌, ltb, ◌≢◌, ◌≤◌, Eq-nat, Eq-string, inl, inr, arith, find, Option-cases,
  Bool-cases,
}
use cax_commerce_operations.Prelude.Int.{ℤ, pos, Eq-int}
use cax_commerce_operations.Errors.{Error, Result, ok, Result-cases}
use cax_commerce_operations.Persistence.Enums.{OrderStatus, Eq-order_status}
use cax_commerce_operations.Persistence.Keys.{Key, Eq-key}
use cax_commerce_operations.Persistence.Tables.{get, put, get-id}
use cax_commerce_operations.Persistence.Models.{
  Order, OrderItem, WorkflowRun, InventoryItem, InventoryMovement, HasId-inventory_item,
}
use cax_commerce_operations.Persistence.Commercial.{ReturnRecord, ReturnStatus, HasId-return_record}
use cax_commerce_operations.Events.Store.{EventEnvelope}
use cax_commerce_operations.Workflows.Definitions.{WorkflowOutcome}
use cax_commerce_operations.Application.Stock.{Moves, IsBalanced, IsBalanced-same, Moves-IsBalanced}
use cax_commerce_operations.Application.Stock.Keeps.{SameStock, KeepsStock, keeps_laws}
use cax_commerce_operations.Application.Inventory.{adjust, existing_movement}
use cax_commerce_operations.Application.Inventory.Balance.{
  IsAdjustment, adjust_made, adjust_books, adjust_again,
}
use cax_commerce_operations.Application.Orders.Changes.{update_status, change_status, move_stock}
use cax_commerce_operations.Application.Orders.Ledger.{KeepsStock-finish_change, KeepsStock-gets}
use cax_commerce_operations.Application.Orchestration.Reconciliation.{
  is_sellable, restock, reconcile_refunds, mark_returned, reconcile, close_return,
  return_to_reconciliation, read_order_returned, returned_order, check_return, returned_line,
  item_of, known_disposition,
}
use cax_commerce_operations.Session.{Db}
use cax_commerce_operations.Session.Actions.{bind_ok, lift, raise_if, modify, add_audit}

KeepsStock-lift {ℓ} : {A : Type ℓ} (r : Result A) → KeepsStock (lift r)
KeepsStock-lift r = record { keeps = λ s. (refl, refl) }

KeepsStock-raise_if : (b : Bool) (x : Error) → KeepsStock (raise_if b x)
KeepsStock-raise_if true x = record { keeps = λ s. (refl, refl) }
KeepsStock-raise_if false x = record { keeps = λ s. (refl, refl) }

KeepsStock-write :
    (r : ReturnRecord) → KeepsStock (modify (λ s. record s { returns = put r s.returns }))
KeepsStock-write r = record { keeps = λ s. (refl, refl) }

KeepsStock-returned :
    (o : Order) (actor reason : String)
    → KeepsStock (change_status o OrderStatus.returned actor reason)
unfolding change_status move_stock
KeepsStock-returned o actor reason = search (keeps_laws, KeepsStock-finish_change) depth 8

KeepsStock-update :
    (id : ℕ) (actor reason : String)
    → KeepsStock (update_status id OrderStatus.returned actor reason)
unfolding update_status
KeepsStock-update id actor reason =
    search (keeps_laws, KeepsStock-lift, KeepsStock-returned) depth 10

KeepsStock-mark_returned : (o : Order) → KeepsStock (mark_returned o)
unfolding mark_returned
KeepsStock-mark_returned o = search (keeps_laws, KeepsStock-update) depth 8

KeepsStock-reconcile_refunds : (o : Order) → KeepsStock (reconcile_refunds o)
unfolding reconcile_refunds
KeepsStock-reconcile_refunds o = search (keeps_laws, KeepsStock-gets, KeepsStock-raise_if) depth 10

KeepsStock-close_return :
    (workflow : WorkflowRun) (r : ReturnRecord) (o : Order) → KeepsStock (close_return workflow r o)
unfolding close_return
KeepsStock-close_return workflow r o =
    search (keeps_laws, KeepsStock-reconcile_refunds, KeepsStock-mark_returned, KeepsStock-write)
      depth 14

-- A row that is written is what is found under its id, if anything is.
own_row :
    (r : ReturnRecord) (t : List ReturnRecord)
    → (get r.id (put r t) ≡ none) ⊎ (get r.id (put r t) ≡ some r)
unfolding put
own_row r [] = inl refl
own_row r (x ∷ t) = ground (arith, own_row r t)

-- The return is closed by a write.
closed :
    (workflow : WorkflowRun) (r : ReturnRecord) (o : Order) (w : Option WorkflowOutcome) (s s' : Db)
    → close_return workflow r o s ≡ (ok w, s')
    → (t : List ReturnRecord) × (s'.returns ≡ put (record r { status = ReturnStatus.completed }) t)
unfolding close_return add_audit
closed workflow r o w s s' h = elim (Result-cases (reconcile_refunds o s).0) [
  | inr (x, bad) ↦ absurd (ground (arith, bad, h))
  | inl (refunded, good) ↦
      let s₁ = (reconcile_refunds o s).1 in
      elim (Result-cases (mark_returned o s₁).0) [
        | inr (x, bad) ↦ absurd (ground (arith, good, bad, h))
        | inl (u, marked) ↦ ((mark_returned o s₁).1.returns, ground (arith, good, marked, h))
      ]
]

-- What a reconciliation does to the stock: goods that cannot be sold are not booked; goods that can
-- are booked, in the quantity of the return and for the item of the line, by the one movement that
-- has the return's key, which is made unless it was there before.
pub data Restocked (r : ReturnRecord) (line : OrderItem) (s s' : Db) : Type 0 where
  unsold : r.disposition ≢ some "sellable" → SameStock s s' → Restocked r line s s'
  there_before :
      r.disposition ≡ some "sellable"
      → (m : InventoryMovement) → existing_movement (Key.of_id "return-receipt" r.id) s ≡ some m
      → IsAdjustment line.inventory_item_id (pos r.quantity) m
      → SameStock s s'
      → Restocked r line s s'
  moved :
      r.disposition ≡ some "sellable"
      → (i : InventoryItem) (m : InventoryMovement)
      → existing_movement (Key.of_id "return-receipt" r.id) s ≡ none
      → existing_movement (Key.of_id "return-receipt" r.id) s' ≡ some m
      → IsAdjustment line.inventory_item_id (pos r.quantity) m
      → Moves i m s s'
      → Restocked r line s s'

-- The stock after the calls that follow.
Restocked-same :
    (r : ReturnRecord) (line : OrderItem) (s t s' : Db)
    → SameStock t s'
    → Restocked r line s t
    → Restocked r line s s'
Restocked-same r line s t s' same (Restocked.unsold d kept) =
    Restocked.unsold d (same.0 ∙ kept.0, same.1 ∙ kept.1)
Restocked-same r line s t s' same (Restocked.there_before d m old asked kept) =
    Restocked.there_before d m old asked (same.0 ∙ kept.0, same.1 ∙ kept.1)
Restocked-same r line s t s' same (Restocked.moved d i m new made asked v) =
    Restocked.moved d i m new
      (ap
          (λ x.
            find (λ (y : InventoryMovement). y.idempotency_key == Key.of_id "return-receipt" r.id)
              x)
          same.1
        ∙ made)
      asked
      (record {
        stored = λ k. ap (λ x. get k x) same.0 ∙ v.stored k;
        recorded = same.1 ∙ v.recorded;
        same_item = v.same_item;
        on_hand_moves = v.on_hand_moves;
        reserved_moves = v.reserved_moves;
        within = v.within;
      })

-- The goods of a return are booked, if they can be sold.
abbrev IsBooked : ReturnRecord → Db → Type 0
IsBooked r s =
    is_sellable r ≡ true
    → (m : InventoryMovement) × (existing_movement (Key.of_id "return-receipt" r.id) s ≡ some m)

unsellable : (r : ReturnRecord) → is_sellable r ≡ false → r.disposition ≢ some "sellable"
unsellable r lost e = ground (arith, lost, e)

sellable : (r : ReturnRecord) → is_sellable r ≡ true → r.disposition ≡ some "sellable"
sellable r sold = elim (Option-cases r.disposition) [
  | inl none_known ↦ absurd (ground (arith, sold, none_known))
  | inr (d, known) ↦ ground (arith, sold, known, Eq-string.beq_iff d "sellable")
]

restock_books :
    (id_text : ℕ → String) (r : ReturnRecord) (line : OrderItem) (s s' : Db)
    → IsBalanced s
    → restock id_text r line s ≡ (ok tt, s')
    → IsBalanced s' × IsBooked r s' × Restocked r line s s'
unfolding restock
restock_books id_text r line s s' b h = elim (Bool-cases (is_sellable r)) [
  | inr lost ↦
      let same : s ≡ s' = ground (arith, lost, h) in
      (
        rw (← same) b,
        λ sold. absurd (ground (arith, lost, sold)),
        Restocked.unsold (λ e. unsellable r lost e) (rw (← same) (refl, refl)),
      )
  | inl sold ↦
      let key = Key.of_id "return-receipt" r.id in
      let reason = concat "Sellable return " (id_text r.id) in
      let call = adjust line.inventory_item_id (pos r.quantity) reason "system" key none in
      elim (Result-cases (call s).0) [
        | inr (x, bad) ↦ absurd (ground (arith, sold, bad, h))
        | inl (c, good) ↦
            let booked : call s ≡ (ok c, s') = ground (arith, sold, good, h) in
            let stored =
              adjust_books line.inventory_item_id (pos r.quantity) reason "system" key none c s s' b
                booked in
            let (asked, ends) =
              adjust_made line.inventory_item_id (pos r.quantity) reason "system" key none c s s' b
                booked in
            (
              elim ends [
                | inl (_, same) ↦ rw (← same) b
                | inr (_, moves) ↦ Moves-IsBalanced c.inventory_item c.movement s s' moves b
              ],
              λ _. (c.movement, stored),
              elim ends [
                | inl (old, same) ↦
                    Restocked.there_before (sellable r sold) c.movement old asked
                      (rw (← same) (refl, refl))
                | inr (new, moves) ↦
                    Restocked.moved (sellable r sold) c.inventory_item c.movement new stored asked
                      moves
              ],
            )
      ]
]

restock_again :
    (id_text : ℕ → String) (r : ReturnRecord) (line : OrderItem) (s : Db)
    → IsBooked r s
    → (restock id_text r line s).1 ≡ s
unfolding restock
restock_again id_text r line s booked = elim (Bool-cases (is_sellable r)) [
  | inr lost ↦ ground (arith, lost)
  | inl sold ↦
      let key = Key.of_id "return-receipt" r.id in
      let reason = concat "Sellable return " (id_text r.id) in
      let (m, found) = booked sold in
      let call = adjust line.inventory_item_id (pos r.quantity) reason "system" key none in
      let same : (call s).1 ≡ s =
        adjust_again line.inventory_item_id (pos r.quantity) reason "system" key none m s found in
      ground (arith, sold, same, Result-cases (call s).0)
]

-- The return that an event names, and the line that it returns.
named_return :
    (payload : ℕ × ℕ × ℤ) (r : ReturnRecord) (o : Order) (line : OrderItem) (s : Db)
    → check_return payload s ≡ ok (r, o, line)
    → get payload.1 s.returns ≡ some r
unfolding check_return
named_return (order_id, return_id, quantity) r o line s h =
    elim (Option-cases (get return_id s.returns)) [
      | inl missing ↦ absurd (ground (arith, missing, h))
      | inr (x, found) ↦ elim (Option-cases (returned_order (order_id, return_id, quantity) s)) [
        | inl no_order ↦ absurd (ground (arith, no_order, h))
        | inr ((x', o'), rows) ↦ elim (Option-cases (returned_line x' s.orders)) [
          | inl lost ↦ absurd (ground (arith, rows, lost, h))
          | inr (l, there) ↦
              let same : x' ≡ r = ground (arith, rows, there, h) in
              let own : x' ≡ x = ground (arith, rows, found) in ground (arith, found, same, own)
        ]
      ]
    ]

asked_line :
    (payload : ℕ × ℕ × ℤ) (r : ReturnRecord) (o : Order) (line : OrderItem) (s : Db)
    → check_return payload s ≡ ok (r, o, line)
    → (item_of r.order_item_id s.orders ≡ some line)
      × (payload.2 ≡ pos r.quantity)
      × (r.quantity ≤ line.quantity)
unfolding check_return
asked_line payload r o line s h = elim (Option-cases (returned_order payload s)) [
  | inl missing ↦ absurd (ground (arith, missing, h))
  | inr ((x, o'), rows) ↦ elim (Bool-cases (known_disposition x.disposition)) [
    | inr unknown ↦ absurd (ground (arith, rows, unknown, h))
    | inl known ↦ elim (Option-cases (item_of x.order_item_id s.orders)) [
      | inl lost ↦ absurd (ground (arith, rows, known, lost, h))
      | inr (l, there) ↦
          elim (Bool-cases (not (payload.2 == pos x.quantity) || ltb l.quantity x.quantity)) [
            | inl wrong ↦ absurd (ground (arith, rows, known, there, wrong, h))
            | inr right ↦
                let same : (x ≡ r) × (l ≡ line) = ground (arith, rows, known, there, right, h) in
                let fits : (payload.2 ≡ pos x.quantity) × (x.quantity ≤ l.quantity) =
                  ground (arith, right, Eq-int.beq_iff payload.2 (pos x.quantity)) in
                rw (← same.0, ← same.1) (there, fits.0, fits.1)
          ]
    ]
  ]
]

-- Where the goods of a return are booked, reconciling it changes no stock.
booked_reconcile :
    (id_text : ℕ → String) (workflow : WorkflowRun) (r : ReturnRecord) (o : Order)
    (line : OrderItem) (s : Db)
    → IsBooked r s
    → SameStock s (reconcile id_text workflow r o line s).1
unfolding reconcile
booked_reconcile id_text workflow r o line s booked =
    let same = restock_again id_text r line s booked in
    elim (Result-cases (restock id_text r line s).0) [
      | inr (x, bad) ↦ (ground (arith, bad, same), ground (arith, bad, same))
      | inl (u, stocked) ↦
          let (inv, mov) = (KeepsStock-close_return workflow r o).keeps s in
          (ground (arith, stocked, same, inv), ground (arith, stocked, same, mov))
    ]

-- The same of the step, whether it returns or raises.
booked_step :
    (id_text : ℕ → String) (event : EventEnvelope) (workflow : WorkflowRun) (s : Db)
    → ((payload : ℕ × ℕ × ℤ) (r : ReturnRecord) (o : Order) (line : OrderItem)
        → read_order_returned event.body ≡ ok payload
        → check_return payload s ≡ ok (r, o, line)
        → IsBooked r s)
    → SameStock s (return_to_reconciliation id_text event workflow s).1
unfolding return_to_reconciliation
booked_step id_text event workflow s booked = elim (Result-cases (read_order_returned event.body)) [
  | inr (x, bad) ↦ (ground (arith, bad), ground (arith, bad))
  | inl (payload, read) ↦ elim (Result-cases (check_return payload s)) [
    | inr (x, bad) ↦ (ground (arith, read, bad), ground (arith, read, bad))
    | inl ((r, o, line), rows) ↦
        let (inv, mov) =
          booked_reconcile id_text workflow r o line s (booked payload r o line read rows) in
        (ground (arith, read, rows, inv), ground (arith, read, rows, mov))
  ]
]

-- What a step that returns found and did.
record Reconciles (id_text : ℕ → String) (event : EventEnvelope) (workflow : WorkflowRun)
    (w : Option WorkflowOutcome) (s s' : Db) : Type 0 where
  payload : ℕ × ℕ × ℤ
  row : ReturnRecord
  order : Order
  line : OrderItem
  middle : Db
  read : read_order_returned event.body ≡ ok payload
  rows : check_return payload s ≡ ok (row, order, line)
  stocked : restock id_text row line s ≡ (ok tt, middle)
  ended : close_return workflow row order middle ≡ (ok w, s')

reconciles :
    (id_text : ℕ → String) (event : EventEnvelope) (workflow : WorkflowRun)
    (w : Option WorkflowOutcome) (s s' : Db)
    → return_to_reconciliation id_text event workflow s ≡ (ok w, s')
    → Reconciles id_text event workflow w s s'
unfolding return_to_reconciliation reconcile
reconciles id_text event workflow w s s' h = elim (Result-cases (read_order_returned event.body)) [
  | inr (x, bad) ↦ absurd (ground (arith, bad, h))
  | inl (payload, read) ↦ elim (Result-cases (check_return payload s)) [
    | inr (x, bad) ↦ absurd (ground (arith, read, bad, h))
    | inl ((r, o, line), rows) ↦
        let go : reconcile id_text workflow r o line s ≡ (ok w, s') =
          ground (arith, read, rows, h) in
        let (u, stocked, ended) =
          bind_ok (restock id_text r line) (λ _. close_return workflow r o) w s s' go in
        record {
          payload = payload;
          row = r;
          order = o;
          line = line;
          middle = (restock id_text r line s).1;
          read = read;
          rows = rows;
          stocked = stocked;
          ended = ended;
        }
  ]
]

-- A return that was closed by a write is found as it was written.
closed_row :
    (id : ℕ) (r₁ r : ReturnRecord) (t : List ReturnRecord)
    → r₁.id ≡ id
    → get id (put r₁ t) ≡ some r
    → r ≡ r₁
closed_row id r₁ r t same found = ground (arith, same, found, own_row r₁ t)

-- What a reconciliation that returns found, and did to the stock.
pub record Returned (event : EventEnvelope) (s s' : Db) : Type 0 where
  pub order_id : ℕ
  pub return_id : ℕ
  pub row : ReturnRecord
  pub line : OrderItem
  pub read : read_order_returned event.body ≡ ok (order_id, return_id, pos row.quantity)
  pub stored : get return_id s.returns ≡ some row
  pub ordered : item_of row.order_item_id s.orders ≡ some line
  pub within : row.quantity ≤ line.quantity
  pub restocked : Restocked row line s s'

-- A return goes back into stock once. A reconciliation that returns has found the return and the line
-- that the event is about; goods that cannot be sold change no stock; goods that can be sold are
-- booked by one movement, of the quantity of the return and for the item of the line, and the stock
-- of that item grows by it, unless that movement was there before. The ledger of the stock is kept,
-- and reconciling the return again, of whatever run, changes neither a balance nor a movement,
-- whether it returns or raises.
pub return_restocked_once :
    (id_text : ℕ → String) (event : EventEnvelope) (workflow later : WorkflowRun)
    (w : Option WorkflowOutcome) (s s' : Db)
    → IsBalanced s
    → return_to_reconciliation id_text event workflow s ≡ (ok w, s')
    → IsBalanced s'
      × Returned event s s'
      × SameStock s' (return_to_reconciliation id_text event later s').1
return_restocked_once id_text event workflow later w s s' b h =
    let d = reconciles id_text event workflow w s s' h in
    let (balanced, booked, restocked) = restock_books id_text d.row d.line s d.middle b d.stocked in
    let (inv, mov) = (KeepsStock-close_return workflow d.row d.order).keeps d.middle in
    let ends : (close_return workflow d.row d.order d.middle).1 ≡ s' = ap (λ y. y.1) d.ended in
    let same : SameStock d.middle s' = rw (← ends) (inv, mov) in
    let (t, wrote) = closed workflow d.row d.order w d.middle s' d.ended in
    let r₁ : ReturnRecord = record d.row { status = ReturnStatus.completed } in
    let asked = asked_line d.payload d.row d.order d.line s d.rows in
    let given : d.row.id ≡ d.payload.1 =
      get-id d.payload.1 d.row s.returns (named_return d.payload d.row d.order d.line s d.rows) in
    (
      IsBalanced-same d.middle s' same balanced,
      record {
        order_id = d.payload.0;
        return_id = d.payload.1;
        row = d.row;
        line = d.line;
        read = d.read ∙ ap (λ q. ok (d.payload.0, d.payload.1, q)) asked.1;
        stored = named_return d.payload d.row d.order d.line s d.rows;
        ordered = asked.0;
        within = asked.2;
        restocked = Restocked-same d.row d.line s d.middle s' same restocked;
      },
      booked_step id_text event later s' (λ payload r o line read rows sold.
          let payload_same : payload ≡ d.payload = ground (arith, read, d.read) in
          let found : get d.payload.1 (put r₁ t) ≡ some r =
            ap (λ x. get d.payload.1 x) (sym wrote)
            ∙ ap (λ (x : ℕ × ℕ × ℤ). get x.1 s'.returns) (sym payload_same)
            ∙ named_return payload r o line s' rows in
          let is_row : r ≡ r₁ = closed_row d.payload.1 r₁ r t given found in
          let (m, stored) = booked (ap is_sellable (sym is_row) ∙ sold) in
          (
            m,
            ap
                  (λ x.
                    find
                      (λ (y : InventoryMovement).
                        y.idempotency_key == Key.of_id "return-receipt" r.id)
                      x)
                  same.1
                ∙ ap
                    (λ (x : ReturnRecord).
                      existing_movement (Key.of_id "return-receipt" x.id) d.middle)
                    is_row
                ∙ stored,
          )),
    )
