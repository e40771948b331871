-- ===== src/Application/Orchestration/Reorder.antt =====
-- src/commerce_operations/application/orchestration.py: the step of a low-stock event.
use cax_commerce_operations.Prelude.{
  ℕ, ◌+◌, ◌*◌, ◌-◌, max, String, Option, none, some, [], ◌∷◌, ◌==◌, Eq-nat, Eq-string, Eq-option,
  find, if◌then◌else◌,
}
use cax_commerce_operations.Prelude.Int.{pos, pos_part, ltb_ℤ, Eq-int}
use cax_commerce_operations.Errors.{Error, Result, ok, err}
use cax_commerce_operations.Persistence.Enums.{
  Eq-procurement_status, Eq-movement_type, Eq-order_status, Eq-refund_status, Eq-approval_status,
}
use cax_commerce_operations.Persistence.Json.{Json}
use cax_commerce_operations.Persistence.Tables.{get, add}
use cax_commerce_operations.Persistence.Models.{
  InventoryItem, WorkflowRun, available, HasId-procurement_request, HasId-supplier_quote,
  HasId-inventory_item, HasId-order, HasId-approval, HasId-workflow_run,
}
use cax_commerce_operations.Persistence.Commercial.{ReorderRecommendation, HasId-return_record}
use cax_commerce_operations.Events.Types.{EventPayload}
use cax_commerce_operations.Events.Store.{EventEnvelope}
use cax_commerce_operations.Workflows.Definitions.{WorkflowOutcome, WorkflowStep, completed}
use cax_commerce_operations.Session.{Db, Action}
use cax_commerce_operations.Session.Actions.{
  pure, gets, lift, or_raise, raise_if, modify, new_id, ◌>>=◌, ◌>>◌,
}
use cax_commerce_operations.Application.Orchestration.{refused}

abbrev pub read_low_stock : EventPayload → Result (ℕ × String)
read_low_stock (EventPayload.low_stock inventory_item_id sku _ _) = ok (inventory_item_id, sku)
read_low_stock _ = err Error.validation_error

-- `max(threshold * multiplier, threshold + 1)`
abbrev pub target_stock : ℕ → ℕ → ℕ
target_stock multiplier threshold = max (threshold * multiplier) (threshold + 1)

-- The constraints of the table keep the available quantity from being negative.
abbrev pub new_recommendation :
    ℕ → ℕ → EventEnvelope → WorkflowRun → InventoryItem → ReorderRecommendation
new_recommendation id multiplier event workflow item = record {
  id = id;
  inventory_item_id = item.id;
  workflow_run_id = workflow.id;
  source_event_id = event.event_id;
  available_quantity = pos_part (available item);
  low_stock_threshold = item.low_stock_threshold;
  suggested_quantity =
      max (target_stock multiplier item.low_stock_threshold - pos_part (available item)) 1;
  reason = "Available stock reached the configured low-stock threshold";
  status = "proposed";
}

abbrev pub recommended : ReorderRecommendation → Option WorkflowOutcome
recommended r =
    some (completed "reorder_recommended" (("reorder_recommendation_id", Json.ident r.id) ∷ []))

abbrev pub recommendation_for : ℕ → Db → Option ReorderRecommendation
recommendation_for event_id s = find (λ r. r.source_event_id == event_id) s.recommendations

-- The item that an event names, if it has the event's SKU.
abbrev pub low_item : ℕ × String → Db → Option InventoryItem
low_item (id, sku) s = elim (get id s.inventory) [
  | none ↦ none
  | some item ↦ if item.sku == sku then some item else none
]

-- The part of `_low_stock_to_reorder` for an event that has no recommendation yet.
unfoldable pub recommend :
    ℕ → EventEnvelope → WorkflowRun → ℕ × String → Action (Option WorkflowOutcome)
unfolding new_id
recommend multiplier event workflow payload = do
  item ← (λ s. or_raise (low_item payload s) refused s)
  raise_if (ltb_ℤ (pos item.low_stock_threshold) (available item)) refused
  id ← new_id
  let r = new_recommendation id multiplier event workflow item
  modify (λ s. record s { recommendations = add r s.recommendations })
  pure (recommended r)

-- `_low_stock_to_reorder`; `multiplier` is `settings.reorder_target_multiplier`.
unfoldable pub low_stock_to_reorder : ℕ → WorkflowStep
unfolding recommend
low_stock_to_reorder multiplier event workflow = do
  payload ← lift (read_low_stock event.body)
  existing ← gets (recommendation_for event.event_id)
  elim existing [
    | some r ↦ pure (recommended r)
    | none ↦ recommend multiplier event workflow payload
  ]
