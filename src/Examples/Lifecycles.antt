-- ===== src/Examples/Lifecycles.antt =====
-- Orders, procurement requests and stock balances on concrete inputs.
use cax_commerce_operations.Prelude.{
  ℕ, ◌*◌, ◌+◌, ◌≤◌, ◌≡◌, ◌≢◌, ◌↔◌, ◌*◌, ◌+◌, refl, true, false, List, [], ◌∷◌, contains, length,
}
use cax_commerce_operations.Prelude.Int.{pos, negsuc, ◌+ℤ◌}
use cax_commerce_operations.Errors.{ok}
use cax_commerce_operations.Persistence.Enums.{OrderStatus, Eq-order_status, ProcurementStatus}
use cax_commerce_operations.Domains.Orders.Lifecycle.{
  final, visited, visited_bounded, cancelled_never_dispatched,
}
use cax_commerce_operations.Domains.Orders.{transition_order}
use cax_commerce_operations.Domains.Orders.Lifecycle.{next}
use cax_commerce_operations.Domains.Procurement.{transition}
use cax_commerce_operations.Domains.Procurement.Lifecycle.{
  transitions, way_to_received, proposed_to_received,
}
use cax_commerce_operations.Domains.Inventory.{
  half_up, InventoryBalance, apply_quantity_change, weighted_cost_basis,
}
use cax_commerce_operations.Domains.Inventory.Change.{apply_quantity_change_iff}
use cax_commerce_operations.Domains.Inventory.CostBasis.{weighted_cost_basis-value}

-- A request that is refused, and the whole life of an order that is refunded.
abbrev full_life : List OrderStatus
full_life =
    OrderStatus.dispatched ∷ OrderStatus.paid ∷ OrderStatus.processing ∷ OrderStatus.dispatched
    ∷ OrderStatus.cancelled ∷ OrderStatus.delivered ∷ OrderStatus.refunded ∷ []

abbrev early_end : List OrderStatus
early_end = OrderStatus.paid ∷ OrderStatus.cancelled ∷ OrderStatus.dispatched ∷ []

early_end-cancelled : contains OrderStatus.cancelled (visited OrderStatus.pending early_end) ≡ true
unfolding visited next transition_order
early_end-cancelled = refl

visited_bounded_example : length (visited OrderStatus.pending full_life) ≤ 6
visited_bounded_example = visited_bounded OrderStatus.pending full_life

cancelled_never_dispatched_example :
    contains OrderStatus.dispatched (visited OrderStatus.pending early_end) ≡ false
cancelled_never_dispatched_example =
    cancelled_never_dispatched OrderStatus.pending early_end early_end-cancelled

full_life-refunded : final OrderStatus.pending full_life ≡ OrderStatus.refunded
unfolding final next transition_order
full_life-refunded = refl

abbrev to_received : List ProcurementStatus
to_received =
    ProcurementStatus.awaiting_approval ∷ ProcurementStatus.approved ∷ ProcurementStatus.ordered
    ∷ ProcurementStatus.shipped ∷ ProcurementStatus.received ∷ []

to_received-ends :
    transitions ProcurementStatus.proposed to_received ≡ ok ProcurementStatus.received
unfolding transitions transition
to_received-ends = refl

proposed_to_received_example : to_received ≡ way_to_received ProcurementStatus.proposed
proposed_to_received_example = proposed_to_received to_received to_received-ends

abbrev balance_after_sale : InventoryBalance
balance_after_sale = record { quantity_on_hand = 3; reserved_quantity = 2 }

apply_quantity_change_iff_example :
    (apply_quantity_change 5 2 (negsuc 1) ≡ ok balance_after_sale) ↔ (
      (negsuc 1 ≢ pos 0)
      × (pos 3 ≡ pos 5 +ℤ negsuc 1)
      × (balance_after_sale.reserved_quantity ≡ 2)
      × (2 ≤ 3))
apply_quantity_change_iff_example = apply_quantity_change_iff 5 2 (negsuc 1) balance_after_sale

-- Three units at 0.0100 and four at 0.0105: 720 ten-thousandths over seven units, which is rounded.
abbrev old_basis : ℕ
old_basis = 100

abbrev new_basis : ℕ
new_basis = 103

new_basis-is : weighted_cost_basis 3 old_basis (pos 4) (pos 105) ≡ ok new_basis
unfolding weighted_cost_basis half_up
new_basis-is = refl

weighted_cost_basis-value_example :
    (2 * (103 * (3 + 4)) ≤ 2 * (100 * 3 + 105 * 4) + (3 + 4))
    × (2 * (100 * 3 + 105 * 4) ≤ 2 * (103 * (3 + 4)) + (3 + 4))
weighted_cost_basis-value_example =
    weighted_cost_basis-value 3 4 105 old_basis new_basis new_basis-is
