-- ===== src/Application/Orders/Changes.antt =====
-- src/commerce_operations/application/orders.py: the changes of the status of an order.
use cax_commerce_operations.Prelude.{
  ℕ, ◌+◌, String, Option, none, some, ◌==◌, Eq-nat, Eq-string, if◌then◌else◌,
}
use cax_commerce_operations.Errors.{Error}
use cax_commerce_operations.Persistence.Enums.{OrderStatus, RunStatus, Eq-order_status}
use cax_commerce_operations.Persistence.Keys.{Key, CorrelationId}
use cax_commerce_operations.Persistence.Tables.{get}
use cax_commerce_operations.Persistence.Models.{Order, WorkflowRun, HasId-order, HasId-workflow_run}
use cax_commerce_operations.Domains.Orders.{transition_order}
use cax_commerce_operations.Events.Types.{EventPayload}
use cax_commerce_operations.Events.Store.{emit}
use cax_commerce_operations.Application.Procurement.{run_of, save_workflow}
use cax_commerce_operations.Application.Reservations.{release_order, ship_order}
use cax_commerce_operations.Session.{Action}
use cax_commerce_operations.Session.Actions.{pure, gets, lift, or_raise, ◌>>=◌, ◌>>◌}
use cax_commerce_operations.Application.Orders.{write_order, audit_order, order_text}

-- `OrderService.get`
abbrev pub find_order : ℕ → Action Order
find_order id s = or_raise (get id s.orders) Error.order_not_found s

-- What the change to `target` does to the stock.
unfoldable pub move_stock : OrderStatus → Order → Action (Unit {0})
move_stock OrderStatus.cancelled order = release_order order
move_stock OrderStatus.dispatched order = ship_order order
move_stock _ order = pure tt

-- The order with the new status and the time of the change.
abbrev pub changed : OrderStatus → ℕ → Order → Order
changed OrderStatus.paid now o = record o { status = OrderStatus.paid; paid_at = some now }
changed OrderStatus.dispatched now o = record o {
  status = OrderStatus.dispatched;
  dispatched_at = some now;
}
changed OrderStatus.delivered now o = record o {
  status = OrderStatus.delivered;
  delivered_at = some now;
}
changed target now o = record o { status = target }

abbrev run_status : OrderStatus → RunStatus → RunStatus
run_status OrderStatus.cancelled status = RunStatus.cancelled
run_status OrderStatus.delivered status = RunStatus.succeeded
run_status OrderStatus.refunded status = RunStatus.succeeded
run_status _ status = status

-- The order's workflow, if it has one, follows the order.
unfoldable pub follow : OrderStatus → Option WorkflowRun → Action (Unit {0})
unfolding save_workflow
follow target none = pure tt
follow target (some w) =
    save_workflow
      (record w { current_step = some (order_text target); status = run_status target w.status })

abbrev correlation : Order → Option WorkflowRun → CorrelationId
correlation order none = CorrelationId.of_row order.id
correlation order (some w) = w.correlation_id

abbrev workflow_id : Option WorkflowRun → Option ℕ
workflow_id none = none
workflow_id (some w) = some w.id

-- The event of a cancellation, with the version that the order had when it was read.
unfoldable pub note_cancelled :
    OrderStatus → Order → Option WorkflowRun → String → Action (Unit {0})
note_cancelled OrderStatus.cancelled order workflow reason =
    emit (EventPayload.order_cancelled order.id (some reason)) "order" order.id order.version
      (correlation order workflow) (workflow_id workflow) (Key.of_id "order-cancelled" order.id)
note_cancelled _ order workflow reason = pure tt

-- The part of `update_status` after the stock has moved.
unfoldable pub finish_change : Order → OrderStatus → String → String → Action Order
unfolding follow note_cancelled
finish_change order target actor reason = do
  now ← gets (λ s. s.clock)
  workflow ← gets (run_of order.workflow_run_id)
  follow target workflow
  let o = record (changed target now order) { version = order.version + 1 }
  write_order o
  note_cancelled target order workflow reason
  audit_order o "order.status_changed" actor (some order.status) target reason
  pure o

-- The part of `update_status` that a change of status runs.
unfoldable pub change_status : Order → OrderStatus → String → String → Action Order
unfolding finish_change move_stock
change_status order target actor reason =
    move_stock target order >> finish_change order target actor reason

-- `OrderService.update_status`
unfoldable pub update_status : ℕ → OrderStatus → String → String → Action Order
update_status id target actor reason = do
  order ← find_order id
  lift (transition_order order.status target)
  if target == order.status then pure order else change_status order target actor reason
