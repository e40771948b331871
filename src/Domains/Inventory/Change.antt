-- ===== src/Domains/Inventory/Change.antt =====
-- When a stock change is accepted, and what it leaves.
use cax_commerce_operations.Prelude.{ℕ, ◌≤◌, ◌≡◌, ◌≢◌, ◌↔◌, arith}
use cax_commerce_operations.Prelude.Int.{ℤ, pos, ◌+ℤ◌}
use cax_commerce_operations.Errors.{ok}
use cax_commerce_operations.Domains.Inventory.{InventoryBalance, apply_quantity_change}

-- A change by a nonzero amount that leaves at least the reserved stock on hand is applied: the
-- stock on hand moves by exactly that amount and the reservation stays. Every other change is
-- refused.
pub apply_quantity_change_iff :
    (on_hand reserved : ℕ) (delta : ℤ) (b : InventoryBalance)
    → (apply_quantity_change on_hand reserved delta ≡ ok b) ↔ (
        (delta ≢ pos 0)
        × (pos b.quantity_on_hand ≡ pos on_hand +ℤ delta)
        × (b.reserved_quantity ≡ reserved)
        × (b.reserved_quantity ≤ b.quantity_on_hand))
unfolding apply_quantity_change
apply_quantity_change_iff on_hand reserved (pos d) b = (λ h. ground arith, λ h. ground arith)
apply_quantity_change_iff on_hand reserved delta b = (λ h. ground arith, λ h. ground arith)
