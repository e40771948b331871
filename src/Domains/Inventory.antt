-- ===== src/Domains/Inventory.antt =====
-- src/commerce_operations/domains/inventory/model.py: stock balances and the weighted cost.
-- Stored quantities have a CHECK constraint `>= 0` and are naturals; a change is an integer.
-- Amounts of money are whole ten-thousandths, as in the Numeric(19, 4) columns.
pub mod Change
pub mod CostBasis
use cax_commerce_operations.Prelude.{ℕ, ◌+◌, ◌*◌, ◌/◌, if◌then◌else◌}
use cax_commerce_operations.Prelude.Int.{ℤ, pos, ◌+ℤ◌, sub_ℕ, pos_part, ltb_ℤ, leb_ℤ, int_eq}
use cax_commerce_operations.Errors.{Error, Result, ok, err}

pub record InventoryBalance : Type 0 where
  pub quantity_on_hand : ℕ
  pub reserved_quantity : ℕ

-- `num / den` to the nearest whole number, a half up, as a Numeric column rounds.
unfoldable pub half_up : ℕ → ℕ → ℕ
half_up num den = (2 * num + den) / (2 * den)

unfoldable pub available_quantity : InventoryBalance → ℤ
available_quantity b = sub_ℕ b.quantity_on_hand b.reserved_quantity

-- After the tests the new quantity is no negative number, so its `pos_part` is the number.
unfoldable pub apply_quantity_change : ℕ → ℕ → ℤ → Result InventoryBalance
unfolding ◌+ℤ◌
apply_quantity_change quantity_on_hand reserved_quantity quantity_delta =
    let new_on_hand = pos quantity_on_hand +ℤ quantity_delta in
    if int_eq quantity_delta (pos 0)
    then err Error.invalid_inventory_change
    else if ltb_ℤ new_on_hand (pos 0)
    then err Error.invalid_inventory_change
    else if ltb_ℤ new_on_hand (pos reserved_quantity)
    then err Error.invalid_inventory_change
    else ok
        (record { quantity_on_hand = pos_part new_on_hand; reserved_quantity = reserved_quantity })

-- The cost basis as the Numeric(19, 4) column keeps it: the quotient, rounded to whole
-- ten-thousandths, a half up. The program divides with 28 digits before the column rounds; for
-- quantities of 32 bits and amounts below 10^13 no quotient is so close to a half that this makes a
-- difference.
unfoldable pub weighted_cost_basis : ℕ → ℕ → ℤ → ℤ → Result ℕ
unfolding half_up
weighted_cost_basis current_quantity current_cost_basis added_quantity added_unit_cost =
    if leb_ℤ added_quantity (pos 0)
    then err Error.invalid_inventory_change
    else if ltb_ℤ added_unit_cost (pos 0)
    then err Error.invalid_inventory_change
    else ok (
        half_up
          (current_cost_basis * current_quantity
            + pos_part added_unit_cost * pos_part added_quantity)
          (current_quantity + pos_part added_quantity))
