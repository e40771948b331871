-- ===== src/Domains/Pricing.antt =====
-- src/commerce_operations/domains/pricing/model.py: the price calculation. Amounts and percentages
-- are whole ten-thousandths; a margin of 1 is 10000. The quotients of the calculation are kept exact,
-- as fractions, until the program rounds them.
pub mod Rounding
pub mod Price
use cax_commerce_operations.Prelude.{
  ℕ, ◌+◌, ◌*◌, Bool, true, false, not, ◌&&◌, ◌||◌, Option, none, some, ◌==◌, Eq-nat, ltb, leb,
  if◌then◌else◌,
}
use cax_commerce_operations.Prelude.Int.{ℤ, pos, sub_ℕ, pos_part, neg_part, abs, ltb_ℤ, leb_ℤ}
use cax_commerce_operations.Errors.{Error, Result, ok, err}
use cax_commerce_operations.Domains.Pricing.Rounding.{ceil_div, quantize}

-- `num / den` ten-thousandths.
pub record Quotient : Type 0 where
  pub num : ℤ
  pub den : ℕ

pub record CommercialPricingRules : Type 0 where
  pub minimum_price : ℤ
  pub maximum_price : Option ℤ
  pub rounding_increment : ℤ
  pub maximum_automatic_change_percent : ℤ

-- The defaults of the fields.
abbrev pub default_rules : CommercialPricingRules
default_rules = record {
  minimum_price = pos 0;
  maximum_price = none;
  rounding_increment = pos 100;
  maximum_automatic_change_percent = pos 100000;
}

pub record PricingInputs : Type 0 where
  pub landed_cost : Quotient
  pub marketplace_fees : ℤ
  pub fulfilment_costs : ℤ
  pub target_margin : ℤ
  pub minimum_margin : ℤ
  pub current_selling_price : Option ℤ

pub record PricingCalculation : Type 0 where
  pub gross_profit : ℤ
  pub contribution_profit : ℤ
  pub margin_percentage : ℤ
  pub roi_percentage : Option ℤ
  pub minimum_selling_price : ℕ
  pub recommended_selling_price : ℕ
  pub price_change_percentage : Option ℤ
  pub within_automatic_boundary : Bool

abbrev one : ℤ
one = pos 10000

-- `value is not None and value < bound`, and the like
abbrev is_below : Option ℤ → ℤ → Bool
is_below none bound = false
is_below (some value) bound = ltb_ℤ value bound

abbrev is_not_positive : Option ℤ → Bool
is_not_positive none = false
is_not_positive (some value) = leb_ℤ value (pos 0)

-- `_validate`
unfoldable pub validate : PricingInputs → CommercialPricingRules → Result (Unit {0})
validate i r =
    if ltb_ℤ i.landed_cost.num (pos 0)
      || ltb_ℤ i.marketplace_fees (pos 0)
      || ltb_ℤ i.fulfilment_costs (pos 0)
    then err Error.pricing_validation
    else if not (leb_ℤ (pos 0) i.minimum_margin && ltb_ℤ i.minimum_margin one)
    then err Error.pricing_validation
    else if not (leb_ℤ i.minimum_margin i.target_margin && ltb_ℤ i.target_margin one)
    then err Error.pricing_validation
    else if is_not_positive i.current_selling_price
    then err Error.pricing_validation
    else if ltb_ℤ r.minimum_price (pos 0)
    then err Error.pricing_validation
    else if is_below r.maximum_price r.minimum_price
    then err Error.pricing_validation
    else if leb_ℤ r.rounding_increment (pos 0)
    then err Error.pricing_validation
    else if leb_ℤ r.maximum_automatic_change_percent (pos 0)
    then err Error.pricing_validation
    else ok tt

-- A quotient of naturals, which the checked inputs are.
pub record Ratio : Type 0 where
  pub num : ℕ
  pub den : ℕ

-- `landed_cost + marketplace_fees + fulfilment_costs`
abbrev pub total_cost : PricingInputs → Ratio
total_cost i = record {
  num =
      pos_part i.landed_cost.num
      + (pos_part i.marketplace_fees + pos_part i.fulfilment_costs) * i.landed_cost.den;
  den = i.landed_cost.den;
}

-- `cost / (Decimal("1") - margin)`
abbrev pub price_for_margin : Ratio → ℤ → Ratio
price_for_margin cost margin = record {
  num = cost.num * 10000;
  den = cost.den * pos_part (sub_ℕ 10000 (pos_part margin));
}

-- `max(value, price)`
abbrev pub at_least : Ratio → ℕ → Ratio
at_least value price =
    if ltb value.num (price * value.den) then record { num = price; den = 1 } else value

-- `_round_up`
abbrev pub round_up : Ratio → ℕ → ℕ
round_up value increment = ceil_div value.num (value.den * increment) * increment

unfoldable pub minimum_price_of : PricingInputs → CommercialPricingRules → ℕ
minimum_price_of i r =
    round_up
      (at_least (price_for_margin (total_cost i) i.minimum_margin) (pos_part r.minimum_price))
      (pos_part r.rounding_increment)

unfoldable pub recommended_price_of : PricingInputs → CommercialPricingRules → ℕ
recommended_price_of i r =
    round_up (at_least (price_for_margin (total_cost i) i.target_margin) (minimum_price_of i r))
      (pos_part r.rounding_increment)

-- `rules.maximum_price is not None and recommended_price > rules.maximum_price`
abbrev pub exceeds : ℕ → Option ℤ → Bool
exceeds price none = false
exceeds price (some maximum) = ltb_ℤ maximum (pos price)

-- `contribution_profit / landed_cost * 100`, if there is a landed cost
abbrev roi : ℤ → Quotient → Option ℤ
roi contribution landed =
    if ltb_ℤ (pos 0) landed.num
    then some (quantize contribution 1000000 (pos_part landed.num))
    else none

-- `(recommended_price - current) / current * 100`
abbrev change_of : ℕ → Option ℤ → Option ℤ
change_of price none = none
change_of price (some current) =
    some (quantize (sub_ℕ price (pos_part current)) 1000000 (pos_part current))

-- The change itself, before it is rounded, is compared with the boundary.
abbrev pub is_within : ℕ → Option ℤ → ℤ → Bool
is_within price none boundary = true
is_within price (some current) boundary =
    ltb (abs (sub_ℕ price (pos_part current)) * 1000000) (pos_part boundary * pos_part current)

-- The profits and percentages at a recommended price; a quotient by the price 0 raises.
unfoldable pub calculate :
    PricingInputs → CommercialPricingRules → ℕ → ℕ → Result PricingCalculation
calculate i r minimum price =
    let cost = total_cost i in
    let contribution = sub_ℕ (price * cost.den) cost.num in
    if price == 0
    then err Error.invalid_operation
    else ok (record {
      gross_profit = quantize (sub_ℕ (price * cost.den) (pos_part i.landed_cost.num)) 1 cost.den;
      contribution_profit = quantize contribution 1 cost.den;
      margin_percentage = quantize contribution 1000000 (price * cost.den);
      roi_percentage = roi contribution i.landed_cost;
      minimum_selling_price = minimum;
      recommended_selling_price = price;
      price_change_percentage = change_of price i.current_selling_price;
      within_automatic_boundary =
          is_within price i.current_selling_price r.maximum_automatic_change_percent;
    })

-- `calculate_price`
unfoldable pub calculate_price : PricingInputs → CommercialPricingRules → Result PricingCalculation
calculate_price i r = elim (validate i r) [
  | err e ↦ err e
  | ok _ ↦
      let price = recommended_price_of i r in
      if exceeds price r.maximum_price
      then err Error.pricing_validation
      else calculate i r (minimum_price_of i r) price
]
