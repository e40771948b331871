-- ===== src/Errors.antt =====
-- The exceptions that the services raise, one constructor for each class; the message texts are
-- left out. A call returns a value or raises.
use cax_commerce_operations.Prelude.{◌≡◌, refl, ◌⊎◌, inl, inr, Bool, true, false}

pub data Error : Type 0 where
  -- domains
  invalid_order_transition invalid_procurement_transition invalid_inventory_change : Error
  pricing_validation : Error
  -- application services
  inventory_not_found purchase_order_not_receivable purchase_order_receipt_not_found : Error
  inventory_idempotency_conflict order_not_found insufficient_inventory : Error
  order_idempotency_conflict order_validation procurement_not_found purchase_order_not_found : Error
  procurement_validation refund_approval pricing_inventory_not_found pricing_approval : Error
  -- approvals, events and workflows
  approval_not_found approval_transition approval_expired event_conflict event_not_found : Error
  event_processing non_retryable_workflow : Error
  -- conversations and the product feed
  conversation_not_found customer_message_conflict customer_response_approval : Error
  approved_product_conflict spending_limit_exceeded : Error
  -- built-in exceptions, pydantic's ValidationError and the database's IntegrityError
  attribute_error lookup_error value_error runtime_error assertion_error validation_error
        integrity_error invalid_operation type_error :
      Error

pub data Result {ℓ} (A : Type ℓ) : Type ℓ where
  ok : A → Result A
  err : Error → Result A

abbrev pub is_ok {ℓ} : {A : Type ℓ} → Result A → Bool
is_ok (ok a) = true
is_ok (err e) = false

-- `isinstance(exc, NonRetryableWorkflowError)`
abbrev pub is_non_retryable : Error → Bool
is_non_retryable Error.non_retryable_workflow = true
is_non_retryable _ = false

-- To split on a computed result and keep the equation.
pub Result-cases {ℓ} :
    {A : Type ℓ} (r : Result A) → ((a : A) × (r ≡ ok a)) ⊎ ((e : Error) × (r ≡ err e))
Result-cases (ok a) = inl (a, refl)
Result-cases (err e) = inr (e, refl)
