-- ===== src/Integrations/Contracts.antt =====
-- src/commerce_operations/integrations/repository_1/contracts.py: the feed of approved products.
-- Amounts and percentages are in ten-thousandths. The limits on the lengths of texts are left out.
use cax_commerce_operations.Prelude.{ℕ, String, not, ◌||◌, Option, List, ltb, if◌then◌else◌}
use cax_commerce_operations.Prelude.Int.{ℤ}
use cax_commerce_operations.Errors.{Error, Result, ok, err}
use cax_commerce_operations.Persistence.Json.{Object}
use cax_commerce_operations.Prelude.{Bool}

pub record ProductInformationV1 : Type 0 where
  pub name : String
  pub brand : Option String
  pub identifiers : Object
  pub attributes : Object

pub record SelectedSupplierV1 : Type 0 where
  pub source_supplier_id : String
  pub name : String
  pub contact_details : Object
  pub terms : Object

pub record SupplierQuoteV1 : Type 0 where
  pub source_quote_id : String
  pub currency : String
  pub moq : ℕ
  pub quantity : ℕ
  pub unit_cost : ℕ
  pub shipping_cost : ℕ
  pub lead_time_days : ℕ
  pub valid_until : Option ℕ
  pub source_reference : Option String

pub record EconomicsV1 : Type 0 where
  pub estimated_landed_cost_per_unit : ℕ
  pub recommended_selling_price : ℕ
  pub expected_profit_per_unit : ℕ
  pub margin_percent : ℤ
  pub roi_percent : ℤ

-- `evidence` is the JSON form of the list.
pub record RecommendationV1 : Type 0 where
  pub evidence : List Object
  pub decided_at : ℕ

pub record ApprovedProductRequestV1 : Type 0 where
  pub source_system : String
  pub source_product_id : String
  pub source_workflow_run_id : String
  pub source_recommendation_id : String
  pub product : ProductInformationV1
  pub selected_supplier : SelectedSupplierV1
  pub supplier_quote : SupplierQuoteV1
  pub economics : EconomicsV1
  pub recommendation : RecommendationV1

-- The validators of a quote: `is_alpha` and `upper` are Python's methods of str.
abbrev pub validate_quote :
    (String → Bool) → (String → String) → SupplierQuoteV1 → Result SupplierQuoteV1
validate_quote is_alpha upper quote =
    if not (ltb 0 quote.moq) || not (ltb 0 quote.quantity)
    then err Error.validation_error
    else if not (is_alpha quote.currency)
    then err Error.validation_error
    else if ltb quote.quantity quote.moq
    then err Error.validation_error
    else ok (record quote { currency = upper quote.currency })

-- `recommendation_context` of a procurement request, the JSON form of these two.
pub record RecommendationContext : Type 0 where
  pub economics : EconomicsV1
  pub recommendation : RecommendationV1
