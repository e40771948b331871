-- ===== src/Application/Orders/Ledger.antt =====
-- Orders keep the stock ledger: what they reserve, release and ship is what the movements say.
use cax_commerce_operations.Prelude.{
  ℕ, ◌+◌, ◌≡◌, refl, ap, String, Option, none, some, List, [], ◌∷◌, inl, inr, arith, ◌==◌, Eq-nat,
  Bool-cases, Option-cases,
}
use cax_commerce_operations.Prelude.Int.{ℤ}
use cax_commerce_operations.Errors.{Result, ok, Result-cases}
use cax_commerce_operations.Persistence.Enums.{OrderStatus, Eq-order_status}
use cax_commerce_operations.Persistence.Keys.{Key, CorrelationId}
use cax_commerce_operations.Persistence.Tables.{get}
use cax_commerce_operations.Persistence.Models.{Order, OrderItem, WorkflowRun, HasId-order}
use cax_commerce_operations.Domains.Orders.{transition_order}
use cax_commerce_operations.Application.Procurement.{save_workflow}
use cax_commerce_operations.Application.Inventory.{InventoryChangeResult, adjust}
use cax_commerce_operations.Application.Inventory.Receipts.{Receipt, receive}
use cax_commerce_operations.Application.Inventory.Balance.{adjust_cases}
use cax_commerce_operations.Application.Inventory.Arrival.{ItemsAreKeyed, receive_cases}
use cax_commerce_operations.Application.Reservations.{reserve}
use cax_commerce_operations.Application.Reservations.Ledger.{
  release_order-IsBalanced, ship_order-IsBalanced, reserve-IsBalanced,
}
use cax_commerce_operations.Application.Orders.{
  NormalizedOrderItem, NormalizedMarketplaceOrder, OrderService, OrderIngestionResult, audit_order,
  delivered_order, event_order, order_correlation, reserve_lines, validate, open_order,
  finish_ingest, ingest_new, ingest, write_order,
}
use cax_commerce_operations.Application.Orders.Changes.{
  move_stock, follow, note_cancelled, finish_change, change_status, update_status,
}
use cax_commerce_operations.Application.Stock.{IsBalanced, IsBalanced-same, Moves-IsBalanced}
use cax_commerce_operations.Application.Stock.Keeps.{KeepsStock, KeepsStock-pure, keeps_laws}
use cax_commerce_operations.Session.{Db}
use cax_commerce_operations.Session.Actions.{new_id, gets, bind_ok, ◌>>=◌}

KeepsStock-audit_order :
    (o : Order) (action actor : String) (before : Option OrderStatus) (after : OrderStatus)
    (reason : String)
    → KeepsStock (audit_order o action actor before after reason)
unfolding audit_order
KeepsStock-audit_order o action actor before after reason = search keeps_laws

KeepsStock-follow : (target : OrderStatus) (w : Option WorkflowRun) → KeepsStock (follow target w)
unfolding follow save_workflow
KeepsStock-follow target none = record { keeps = λ s. (refl, refl) }
KeepsStock-follow target (some w) = record { keeps = λ s. (refl, refl) }

KeepsStock-note_cancelled :
    (target : OrderStatus) (o : Order) (w : Option WorkflowRun) (reason : String)
    → KeepsStock (note_cancelled target o w reason)
unfolding note_cancelled
KeepsStock-note_cancelled OrderStatus.cancelled o w reason = search keeps_laws
KeepsStock-note_cancelled _ o w reason = KeepsStock-pure tt

move_stock-IsBalanced :
    (target : OrderStatus) (o : Order) (u : Unit {0}) (s s' : Db)
    → IsBalanced s
    → move_stock target o s ≡ (ok u, s')
    → IsBalanced s'
unfolding move_stock
move_stock-IsBalanced OrderStatus.cancelled o u s s' b h = release_order-IsBalanced o u s s' b h
move_stock-IsBalanced OrderStatus.dispatched o u s s' b h = ship_order-IsBalanced o u s s' b h
move_stock-IsBalanced _ o u s s' b h = let same : s ≡ s' = ground (arith, h) in rw (← same) b

KeepsStock-write_order : (o : Order) → KeepsStock (write_order o)
KeepsStock-write_order o = record { keeps = λ s. (refl, refl) }

pub KeepsStock-gets {ℓ} : {A : Type ℓ} (f : Db → A) → KeepsStock (gets f)
KeepsStock-gets f = record { keeps = λ s. (refl, refl) }

pub KeepsStock-finish_change :
    (o : Order) (target : OrderStatus) (actor reason : String)
    → KeepsStock (finish_change o target actor reason)
unfolding finish_change
KeepsStock-finish_change o target actor reason =
    search
      (
        keeps_laws, KeepsStock-gets, KeepsStock-follow, KeepsStock-write_order,
        KeepsStock-note_cancelled, KeepsStock-audit_order,
      )
      depth 14

change_status-IsBalanced :
    (order o : Order) (target : OrderStatus) (actor reason : String) (s s' : Db)
    → IsBalanced s
    → change_status order target actor reason s ≡ (ok o, s')
    → IsBalanced s'
unfolding change_status
change_status-IsBalanced order o target actor reason s s' b h =
    let (u, moved, go) =
      bind_ok (move_stock target order) (λ u. finish_change order target actor reason) o s s' h in
    let s₁ = (move_stock target order s).1 in
    let keeps = (KeepsStock-finish_change order target actor reason).keeps s₁ in
    let ends : (finish_change order target actor reason s₁).1 ≡ s' =
      ap (λ (y : Result Order × Db). y.1) go in
    IsBalanced-same s₁ s' (rw (← ends) keeps) (move_stock-IsBalanced target order u s s₁ b moved)

pub update_status-IsBalanced :
    (id : ℕ) (target : OrderStatus) (actor reason : String) (o : Order) (s s' : Db)
    → IsBalanced s
    → update_status id target actor reason s ≡ (ok o, s')
    → IsBalanced s'
unfolding update_status
update_status-IsBalanced id target actor reason o s s' b h = elim (Option-cases (get id s.orders)) [
  | inl missing ↦ absurd (ground (arith, missing))
  | inr (order, found) ↦ elim (Result-cases (transition_order order.status target)) [
    | inr (x, e) ↦ absurd (ground (arith, found, e))
    | inl (t, e) ↦ elim (Bool-cases (target == order.status)) [
      | inl same ↦ let stays : s ≡ s' = ground (arith, found, e, same) in rw (← stays) b
      | inr other ↦
          change_status-IsBalanced order o target actor reason s s' b
            (ground (arith, found, e, other))
    ]
  ]
]

reserve_lines-IsBalanced :
    (order : Order) (c : CorrelationId) (lines : List NormalizedOrderItem) (items : List OrderItem)
    (s s' : Db)
    → IsBalanced s
    → reserve_lines order c lines s ≡ (ok items, s')
    → IsBalanced s'
unfolding reserve_lines new_id
reserve_lines-IsBalanced order c [] items s s' b h =
    let same : s ≡ s' = ground (arith, h) in rw (← same) b
reserve_lines-IsBalanced order c (line ∷ lines) items s s' b h =
    let first = reserve line.sku line.quantity order line.external_line_id c in
    elim (Result-cases (first s).0) [
      | inr (x, e) ↦ absurd (ground (arith, e))
      | inl (item, e) ↦
          let s₁ = (first s).1 in
          let b₁ =
            reserve-IsBalanced line.sku line.quantity order line.external_line_id c item s s₁ b
              (ground (arith, e)) in
          let s₂ : Db = record s₁ { next_id = s₁.next_id + 1 } in
          let b₂ = IsBalanced-same s₁ s₂ (refl, refl) b₁ in
          elim (Result-cases (reserve_lines order c lines s₂).0) [
            | inr (x, f) ↦ absurd (ground (arith, e, f))
            | inl (rest, f) ↦
                let ends : (reserve_lines order c lines s₂).1 ≡ s' = ground (arith, e, f) in
                rw (← ends) (
                  reserve_lines-IsBalanced order c lines rest s₂ (reserve_lines order c lines s₂).1
                    b₂ (ground (arith, f)))
          ]
    ]

KeepsStock-open_order :
    (service : OrderService) (command : NormalizedMarketplaceOrder)
    → KeepsStock (open_order service command)
unfolding open_order new_id
KeepsStock-open_order service command = record { keeps = λ s. (refl, refl) }

KeepsStock-finish_ingest :
    (command : NormalizedMarketplaceOrder) (o : Order) (items : List OrderItem)
    → KeepsStock (finish_ingest command o items)
unfolding finish_ingest
KeepsStock-finish_ingest command o items =
    search (keeps_laws, KeepsStock-write_order, KeepsStock-audit_order) depth 12

ingest_new-IsBalanced :
    (service : OrderService) (command : NormalizedMarketplaceOrder) (r : OrderIngestionResult)
    (s s' : Db)
    → IsBalanced s
    → ingest_new service command s ≡ (ok r, s')
    → IsBalanced s'
unfolding ingest_new
ingest_new-IsBalanced service command r s s' b h =
    let c = order_correlation command in
    let (o, opened, go) =
      bind_ok (open_order service command)
        (λ o. reserve_lines o c command.items >>= finish_ingest command o) r s s' h in
    let s₁ = (open_order service command s).1 in
    let b₁ = IsBalanced-same s s₁ ((KeepsStock-open_order service command).keeps s) b in
    let (items, reserved, ended) =
      bind_ok (reserve_lines o c command.items) (finish_ingest command o) r s₁ s' go in
    let s₂ = (reserve_lines o c command.items s₁).1 in
    let b₂ = reserve_lines-IsBalanced o c command.items items s₁ s₂ b₁ reserved in
    let keeps = (KeepsStock-finish_ingest command o items).keeps s₂ in
    let ends : (finish_ingest command o items s₂).1 ≡ s' =
      ap (λ (y : Result OrderIngestionResult × Db). y.1) ended in
    IsBalanced-same s₂ s' (rw (← ends) keeps) b₂

ingest-IsBalanced :
    (service : OrderService) (command : NormalizedMarketplaceOrder) (r : OrderIngestionResult)
    (s s' : Db)
    → IsBalanced s
    → ingest service command s ≡ (ok r, s')
    → IsBalanced s'
unfolding ingest
ingest-IsBalanced service command r s s' b h = elim (Option-cases (delivered_order command s)) [
  | inr (o, old) ↦ let stays : s ≡ s' = ground (arith, old) in rw (← stays) b
  | inl new ↦ elim (Option-cases (event_order command s)) [
    | inr (o, reused) ↦ absurd (ground (arith, new, reused))
    | inl free ↦ elim (Result-cases (validate command)) [
      | inr (x, e) ↦ absurd (ground (arith, new, free, e))
      | inl (u, e) ↦ ingest_new-IsBalanced service command r s s' b (ground (arith, new, free, e))
    ]
  ]
]

-- A call of a service that returns: stock is adjusted or received, an order arrives, or its status
-- is changed, which may release or ship its stock.
pub data StockStep : Db → Db → Type 0 where
  adjusts :
      {s s' : Db} (id : ℕ) (delta : ℤ) (reason actor : String) (key : Key) (cost : Option ℤ)
      (r : InventoryChangeResult)
      → adjust id delta reason actor key cost s ≡ (ok r, s')
      → StockStep s s'
  receives :
      {s s' : Db} (id : ℕ) (receipt : Receipt) (r : InventoryChangeResult)
      → ItemsAreKeyed s
      → receive id receipt s ≡ (ok r, s')
      → StockStep s s'
  ingests :
      {s s' : Db} (service : OrderService) (command : NormalizedMarketplaceOrder)
      (r : OrderIngestionResult)
      → ingest service command s ≡ (ok r, s')
      → StockStep s s'
  updates :
      {s s' : Db} (id : ℕ) (target : OrderStatus) (actor reason : String) (o : Order)
      → update_status id target actor reason s ≡ (ok o, s')
      → StockStep s s'

pub data StockSteps (s : Db) : Db → Type 0 where
  here : StockSteps s s
  after : {t u : Db} → StockSteps s t → StockStep t u → StockSteps s u

StockStep-IsBalanced : {s s' : Db} → StockStep s s' → IsBalanced s → IsBalanced s'
StockStep-IsBalanced {s} {s'} (StockStep.adjusts id delta reason actor key cost r h) b =
    elim (adjust_cases id delta reason actor key cost r s s' b h) [
      | inl same ↦ rw (← same) b
      | inr moves ↦ Moves-IsBalanced r.inventory_item r.movement s s' moves b
    ]
StockStep-IsBalanced {s} {s'} (StockStep.receives id receipt r keyed h) b =
    elim (receive_cases id receipt r s s' keyed h) [
      | inl (_, same) ↦ rw (← same) b
      | inr (_, moves, _) ↦ Moves-IsBalanced r.inventory_item r.movement s s' moves b
    ]
StockStep-IsBalanced {s} {s'} (StockStep.ingests service command r h) b =
    ingest-IsBalanced service command r s s' b h
StockStep-IsBalanced {s} {s'} (StockStep.updates id target actor reason o h) b =
    update_status-IsBalanced id target actor reason o s s' b h

-- Whatever adjustments, receipts, orders and status changes succeed, in whatever order: the stock
-- on hand and the reserved stock of every item are the sums of its movements, and no more stock is
-- reserved than is on hand. When goods are received, items have ids of their own.
pub steps_keep_ledger : {s s' : Db} → StockSteps s s' → IsBalanced s → IsBalanced s'
steps_keep_ledger StockSteps.here b = b
steps_keep_ledger (StockSteps.after steps step) b =
    StockStep-IsBalanced step (steps_keep_ledger steps b)
