-- ===== src/Application/Procurement/Progress.antt =====
-- How a purchase order follows its procurement request.
use cax_commerce_operations.Prelude.{
  ℕ, ◌+◌, ◌≡◌, refl, String, Option, none, some, inl, inr, arith, Eq-nat, or_else, Option-cases,
}
use cax_commerce_operations.Errors.{ok}
use cax_commerce_operations.Persistence.Enums.{ProcurementStatus, PurchaseOrderStatus, RunStatus}
use cax_commerce_operations.Persistence.Tables.{get, put, get-put_self, get-id}
use cax_commerce_operations.Persistence.Models.{
  ProcurementRequest, PurchaseOrder, HasId-procurement_request, HasId-purchase_order,
  HasId-workflow_run,
}
use cax_commerce_operations.Domains.Procurement.{ProcurementTransition, transition}
use cax_commerce_operations.Application.Procurement.{
  run_of, workflow_of, order_of, save_request, save_order, save_workflow, note_arrival,
  mark_ordered, mark_shipped, mark_received,
}
use cax_commerce_operations.Session.{Db}
use cax_commerce_operations.Session.Actions.{pure, ◌>>=◌, ◌>>◌}
use cax_commerce_operations.Application.Procurement.Steps.{OrdersAreKeyed, marks_ok, order_written}

-- The request and its order advance together: the request goes from the status `from` to `to`, and
-- the order becomes `order_to`, with the same quantities.
abbrev pub Advances :
    ProcurementStatus
    → ProcurementStatus
    → PurchaseOrderStatus
    → ℕ
    → Db
    → Db
    → ProcurementRequest
    → Type 0
Advances from to order_to id s s' r =
    (q : ProcurementRequest) × (o : PurchaseOrder) × (o' : PurchaseOrder) × (get id s.requests
      ≡ some q)
    × (q.status ≡ from)
    × (order_of id s ≡ some o)
    × (get id s'.requests ≡ some r)
    × (r.status ≡ to)
    × (order_of id s' ≡ some o')
    × (o'.status ≡ order_to)
    × (o'.quantity ≡ o.quantity)
    × (o'.received_quantity ≡ o.received_quantity)

from_approved :
    (s : ProcurementStatus) (c : ProcurementTransition)
    → transition s ProcurementStatus.ordered ≡ ok c
    → s ≡ ProcurementStatus.approved
unfolding transition
from_approved s c h = ground arith

from_ordered :
    (s : ProcurementStatus) (c : ProcurementTransition)
    → transition s ProcurementStatus.shipped ≡ ok c
    → s ≡ ProcurementStatus.ordered
unfolding transition
from_ordered s c h = ground arith

from_shipped :
    (s : ProcurementStatus) (c : ProcurementTransition)
    → transition s ProcurementStatus.received ≡ ok c
    → s ≡ ProcurementStatus.shipped
unfolding transition
from_shipped s c h = ground arith

mark_ordered-Advances :
    (id : ℕ) (actor reason : String) (reference : Option String) (at : Option ℕ) (s s' : Db)
    (r : ProcurementRequest)
    → OrdersAreKeyed s
    → mark_ordered id actor reason reference at s ≡ (ok r, s')
    → Advances ProcurementStatus.approved ProcurementStatus.ordered PurchaseOrderStatus.submitted id
        s s' r
unfolding mark_ordered save_order
mark_ordered-Advances id actor reason reference at s s' r keyed h =
    let shape = λ (r : ProcurementRequest) (order : PurchaseOrder) (now : ℕ).
      save_order (record order {
        status = PurchaseOrderStatus.submitted;
        ordered_at = some now;
        external_reference = reference;
      })
      >> pure r in
    let k = marks_ok id ProcurementStatus.ordered actor reason at shape r s s' h in
    let n : PurchaseOrder = record k.order {
      version = k.order.version + 1;
      status = PurchaseOrderStatus.submitted;
      ordered_at = some (or_else at s.clock);
      external_reference = reference;
    } in
    let ends : (r ≡ k.moved_request)
        × (s' ≡ record k.between { purchase_orders = put n k.between.purchase_orders }) =
      ground (arith, k.ended) in
    (
      k.request,
      k.order,
      n,
      k.found,
      from_approved k.request.status k.step.change k.step.allowed,
      k.step.ordered,
      rw (ends.0, ends.1) k.step.kept,
      rw (ends.0, k.step.is_moved) refl,
      order_written id k.order n s s' keyed k.step.ordered refl refl
          (rw (ends.1, k.step.same_orders) refl),
      refl,
      refl,
      refl,
    )

mark_shipped-Advances :
    (id : ℕ) (actor reason : String) (arrival at : Option ℕ) (s s' : Db) (r : ProcurementRequest)
    → OrdersAreKeyed s
    → mark_shipped id actor reason arrival at s ≡ (ok r, s')
    → Advances ProcurementStatus.ordered ProcurementStatus.shipped PurchaseOrderStatus.shipped id s
        s' r
unfolding mark_shipped note_arrival save_order save_request
mark_shipped-Advances id actor reason arrival at s s' r keyed h =
    let shape = λ (r : ProcurementRequest) (order : PurchaseOrder) (now : ℕ).
      note_arrival arrival r
        (record order { status = PurchaseOrderStatus.shipped; shipped_at = some now }) in
    let k = marks_ok id ProcurementStatus.shipped actor reason at shape r s s' h in
    let n : PurchaseOrder = record k.order {
      version = k.order.version + 1;
      status = PurchaseOrderStatus.shipped;
      shipped_at = some (or_else at s.clock);
      expected_arrival_at = elim arrival [ none ↦ k.order.expected_arrival_at | some a ↦ some a ];
    } in
    let i = get-id id k.moved_request k.between.requests k.step.kept in
    let ends : (r.status ≡ ProcurementStatus.shipped)
        × (get id s'.requests ≡ some r)
        × (s'.purchase_orders ≡ put n k.between.purchase_orders) =
      elim (Option-cases arrival) [
        | inl without ↦ ground (arith, k.ended, k.step.kept, k.step.is_moved, without)
        | inr (a, e) ↦
            let y : ProcurementRequest = record k.moved_request {
              version = k.moved_request.version + 1;
              expected_arrival_at = some a;
            } in
            ground (
              arith,
              k.ended,
              k.step.kept,
              k.step.is_moved,
              e,
              i,
              get-put_self id y k.moved_request k.between.requests k.step.kept refl,
            )
      ] in
    (
      k.request,
      k.order,
      n,
      k.found,
      from_ordered k.request.status k.step.change k.step.allowed,
      k.step.ordered,
      ends.1,
      ends.0,
      order_written id k.order n s s' keyed k.step.ordered refl refl
          (rw (ends.2, k.step.same_orders) refl),
      refl,
      refl,
      refl,
    )

mark_received-Advances :
    (id : ℕ) (actor reason : String) (at : Option ℕ) (s s' : Db) (r : ProcurementRequest)
    → OrdersAreKeyed s
    → mark_received id actor reason at s ≡ (ok r, s')
    → Advances ProcurementStatus.shipped ProcurementStatus.received PurchaseOrderStatus.received id
        s s' r
unfolding mark_received save_order save_workflow
mark_received-Advances id actor reason at s s' r keyed h =
    let shape = λ (r : ProcurementRequest) (order : PurchaseOrder) (now : ℕ).
      save_order (record order { status = PurchaseOrderStatus.received; received_at = some now })
      >> (workflow_of r >>= λ workflow.
          save_workflow
            (record workflow { status = RunStatus.succeeded; current_step = some "goods_received" })
          >> pure r) in
    let k = marks_ok id ProcurementStatus.received actor reason at shape r s s' h in
    let n : PurchaseOrder = record k.order {
      version = k.order.version + 1;
      status = PurchaseOrderStatus.received;
      received_at = some (or_else at s.clock);
    } in
    let ends : (r ≡ k.moved_request)
        × (s'.requests ≡ k.between.requests)
        × (s'.purchase_orders ≡ put n k.between.purchase_orders) =
      ground (arith, k.ended, Option-cases (run_of k.moved_request.workflow_run_id k.between)) in
    (
      k.request,
      k.order,
      n,
      k.found,
      from_shipped k.request.status k.step.change k.step.allowed,
      k.step.ordered,
      rw (ends.0, ends.1) k.step.kept,
      rw (ends.0, k.step.is_moved) refl,
      order_written id k.order n s s' keyed k.step.ordered refl refl
          (rw (ends.2, k.step.same_orders) refl),
      refl,
      refl,
      refl,
    )

-- A call that returns, with the statuses of the request before and after it and of the order after.
pub data Call (id : ℕ) (s s' : Db) (r : ProcurementRequest)
    : ProcurementStatus → ProcurementStatus → PurchaseOrderStatus → Type 0 where
  orders :
      (actor reason : String) (reference : Option String) (at : Option ℕ)
      → mark_ordered id actor reason reference at s ≡ (ok r, s')
      → Call id s s' r ProcurementStatus.approved ProcurementStatus.ordered
          PurchaseOrderStatus.submitted
  ships :
      (actor reason : String) (arrival at : Option ℕ)
      → mark_shipped id actor reason arrival at s ≡ (ok r, s')
      → Call id s s' r ProcurementStatus.ordered ProcurementStatus.shipped
          PurchaseOrderStatus.shipped
  receives :
      (actor reason : String) (at : Option ℕ)
      → mark_received id actor reason at s ≡ (ok r, s')
      → Call id s s' r ProcurementStatus.shipped ProcurementStatus.received
          PurchaseOrderStatus.received

-- A purchase order follows its request through its life: each of the three calls, when it returns,
-- found the request in the one status that comes before, and leaves the request and the order in
-- the matching statuses, with the quantities of the order as they were. Orders have ids of their
-- own.
pub orders_follow_requests :
    {from to : ProcurementStatus} {order_to : PurchaseOrderStatus} (id : ℕ) (s s' : Db)
    (r : ProcurementRequest)
    → OrdersAreKeyed s
    → Call id s s' r from to order_to
    → Advances from to order_to id s s' r
orders_follow_requests id s s' r keyed (Call.orders actor reason reference at h) =
    mark_ordered-Advances id actor reason reference at s s' r keyed h
orders_follow_requests id s s' r keyed (Call.ships actor reason arrival at h) =
    mark_shipped-Advances id actor reason arrival at s s' r keyed h
orders_follow_requests id s s' r keyed (Call.receives actor reason at h) =
    mark_received-Advances id actor reason at s s' r keyed h
