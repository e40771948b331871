-- ===== src/Domains/Orders.antt =====
-- src/commerce_operations/domains/orders/model.py: the order state machine.
pub mod Lifecycle
use cax_commerce_operations.Prelude.{List, [], ◌∷◌, not, contains, ◌==◌, if◌then◌else◌}
use cax_commerce_operations.Errors.{Error, Result, ok, err}
use cax_commerce_operations.Persistence.Enums.{OrderStatus, Eq-order_status}

abbrev pub allowed_transitions : OrderStatus → List OrderStatus
allowed_transitions OrderStatus.pending = OrderStatus.paid ∷ OrderStatus.cancelled ∷ []
allowed_transitions OrderStatus.paid = OrderStatus.processing ∷ OrderStatus.cancelled ∷ []
allowed_transitions OrderStatus.processing = OrderStatus.dispatched ∷ OrderStatus.cancelled ∷ []
allowed_transitions OrderStatus.dispatched = OrderStatus.delivered ∷ OrderStatus.returned ∷ []
allowed_transitions OrderStatus.delivered = OrderStatus.returned ∷ OrderStatus.refunded ∷ []
allowed_transitions OrderStatus.cancelled = []
allowed_transitions OrderStatus.returned = OrderStatus.refunded ∷ []
allowed_transitions OrderStatus.refunded = []

unfoldable pub transition_order : OrderStatus → OrderStatus → Result OrderStatus
transition_order current target =
    if target == current
    then ok current
    else if not (contains target (allowed_transitions current))
    then err Error.invalid_order_transition
    else ok target
