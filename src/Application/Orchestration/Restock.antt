-- ===== src/Application/Orchestration/Restock.antt =====
-- What a low-stock event leads to.
use cax_commerce_operations.Prelude.{
  ℕ, ◌+◌, ◌*◌, ◌≤◌, ◌<◌, ◌≡◌, ◌⊎◌, refl, ap, sym, ◌∙◌, String, Option, none, some, ◌==◌, Eq-nat,
  Eq-string, inl, inr, arith, find-append_last, eq_self, Option-cases, Bool-cases,
}
use cax_commerce_operations.Prelude.Int.{ℤ, pos, negsuc, pos_part, ltb_ℤ, ◌≤ℤ◌}
use cax_commerce_operations.Errors.{ok, Result-cases}
use cax_commerce_operations.Persistence.Tables.{get, add, get-id}
use cax_commerce_operations.Persistence.Models.{
  WorkflowRun, InventoryItem, available, HasId-inventory_item,
}
use cax_commerce_operations.Persistence.Commercial.{ReorderRecommendation}
use cax_commerce_operations.Events.Store.{EventEnvelope}
use cax_commerce_operations.Workflows.Definitions.{WorkflowOutcome}
use cax_commerce_operations.Application.Orchestration.Reorder.{
  read_low_stock, low_item, recommendation_for, recommended, new_recommendation, recommend,
  low_stock_to_reorder,
}
use cax_commerce_operations.Session.{Db}
use cax_commerce_operations.Session.Actions.{new_id}

-- What a new recommendation is made from, and what is stored.
record Recommends (multiplier : ℕ) (event : EventEnvelope) (workflow : WorkflowRun)
    (payload : ℕ × String) (o : Option WorkflowOutcome) (s s' : Db) : Type 0 where
  item : InventoryItem
  named : low_item payload s ≡ some item
  is_low : available item ≤ℤ pos item.low_stock_threshold
  outcome : o ≡ recommended (new_recommendation s.next_id multiplier event workflow item)
  stored : s' ≡ record s {
    next_id = s.next_id + 1;
    recommendations =
        add (new_recommendation s.next_id multiplier event workflow item) s.recommendations;
  }

recommends :
    (multiplier : ℕ) (event : EventEnvelope) (workflow : WorkflowRun) (payload : ℕ × String)
    (o : Option WorkflowOutcome) (s s' : Db)
    → recommend multiplier event workflow payload s ≡ (ok o, s')
    → Recommends multiplier event workflow payload o s s'
unfolding recommend new_id
recommends multiplier event workflow payload o s s' h = elim (Option-cases (low_item payload s)) [
  | inl missing ↦ absurd (ground (arith, missing, h))
  | inr (item, named) ↦ elim (Bool-cases (ltb_ℤ (pos item.low_stock_threshold) (available item))) [
    | inl enough ↦ absurd (ground (arith, named, enough, h))
    | inr low ↦ record {
      item = item;
      named = named;
      is_low = ground (arith, low);
      outcome = ground (arith, named, low, h);
      stored = ground (arith, named, low, h);
    }
  ]
]

-- An event that has a recommendation gets it again.
recommended_again :
    (multiplier : ℕ) (event : EventEnvelope) (workflow : WorkflowRun) (payload : ℕ × String)
    (r : ReorderRecommendation) (s : Db)
    → read_low_stock event.body ≡ ok payload
    → recommendation_for event.event_id s ≡ some r
    → low_stock_to_reorder multiplier event workflow s ≡ (ok (recommended r), s)
unfolding low_stock_to_reorder
recommended_again multiplier event workflow payload r s read found = ground (arith, read, found)

-- The two ends of the step.
low_stock_cases :
    (multiplier : ℕ) (event : EventEnvelope) (workflow : WorkflowRun) (o : Option WorkflowOutcome)
    (s s' : Db)
    → low_stock_to_reorder multiplier event workflow s ≡ (ok o, s')
    → (payload : ℕ × String) × (read_low_stock event.body ≡ ok payload)
      × (((r : ReorderRecommendation) × (recommendation_for event.event_id s ≡ some r)
            × (o ≡ recommended r)
            × (s' ≡ s))
          ⊎ ((recommendation_for event.event_id s ≡ none)
              × Recommends multiplier event workflow payload o s s'))
unfolding low_stock_to_reorder
low_stock_cases multiplier event workflow o s s' h =
    elim (Result-cases (read_low_stock event.body)) [
      | inr (x, bad) ↦ absurd (ground (arith, bad, h))
      | inl (payload, read) ↦ elim (Option-cases (recommendation_for event.event_id s)) [
        | inr (r, found) ↦ (
          payload,
          read,
          inl (r, found, ground (arith, read, found, h), ground (arith, read, found, h)),
        )
        | inl new ↦ (
          payload,
          read,
          inr (
            new,
            recommends multiplier event workflow payload o s s' (ground (arith, read, new, h)),
          ),
        )
      ]
    ]

low_part : (a : ℤ) (n : ℕ) → a ≤ℤ pos n → pos_part a ≤ n
low_part (pos m) n h = ground (arith, h)
low_part (negsuc m) n h = omega arith

-- The item that is named has the id and the SKU of the event.
named_item :
    (payload : ℕ × String) (item : InventoryItem) (s : Db)
    → low_item payload s ≡ some item
    → (get payload.0 s.inventory ≡ some item) × (item.id ≡ payload.0) × (item.sku ≡ payload.1)
named_item (id, sku) item s h = elim (Option-cases (get id s.inventory)) [
  | inl missing ↦ absurd (ground (arith, missing, h))
  | inr (i, found) ↦ elim (Bool-cases (i.sku == sku)) [
    | inr other ↦ absurd (ground (arith, found, other, h))
    | inl same ↦
        ground (arith, found, same, h, get-id id i s.inventory, Eq-string.beq_iff i.sku sku)
  ]
]

-- A low-stock event leads to one recommendation: a step that returns has it on record under the
-- event, and the step again, of whatever run, returns the same outcome and writes nothing. A new
-- recommendation is for the item that the event names, which has the event's SKU and is at or below
-- its threshold, and what it suggests takes the available stock to the least amount that is above
-- the threshold and no less than the configured multiple of it.
pub low_stock_recommends :
    (multiplier : ℕ) (event : EventEnvelope) (workflow later : WorkflowRun)
    (o : Option WorkflowOutcome) (s s' : Db)
    → low_stock_to_reorder multiplier event workflow s ≡ (ok o, s')
    → (r : ReorderRecommendation) × (o ≡ recommended r)
      × (recommendation_for event.event_id s' ≡ some r)
      × (low_stock_to_reorder multiplier event later s' ≡ (ok o, s'))
      × (recommendation_for event.event_id s ≡ none
          → (id : ℕ) × (sku : String) × (item : InventoryItem) × (read_low_stock event.body
              ≡ ok (id, sku))
            × (get id s.inventory ≡ some item)
            × (item.sku ≡ sku)
            × (r.inventory_item_id ≡ id)
            × (available item ≤ℤ pos item.low_stock_threshold)
            × (item.low_stock_threshold < pos_part (available item) + r.suggested_quantity)
            × (item.low_stock_threshold * multiplier
                ≤ pos_part (available item) + r.suggested_quantity)
            × ((stock : ℕ)
                → item.low_stock_threshold < stock
                → item.low_stock_threshold * multiplier ≤ stock
                → pos_part (available item) + r.suggested_quantity ≤ stock))
low_stock_recommends multiplier event workflow later o s s' h =
    let (payload, read, ends) = low_stock_cases multiplier event workflow o s s' h in
    elim ends [
      | inl (r, found, outcome, same) ↦
          rw (outcome, same)
            (
              r,
              refl,
              found,
              recommended_again multiplier event later payload r s read found,
              λ new. absurd (ground (arith, new, found)),
            )
      | inr (new, made) ↦
          let r = new_recommendation s.next_id multiplier event workflow made.item in
          let found : recommendation_for event.event_id s' ≡ some r =
            ap (λ (x : Db). recommendation_for event.event_id x) made.stored
            ∙ find-append_last (λ (x : ReorderRecommendation). x.source_event_id == event.event_id)
                r s.recommendations new (eq_self event.event_id) in
          (
            r,
            made.outcome,
            found,
            recommended_again multiplier event later payload r s' read found
                ∙ ap (λ x. (ok x, s')) (sym made.outcome),
            λ _.
                let (there, own, same_sku) = named_item payload made.item s made.named in
                (
                  payload.0,
                  payload.1,
                  made.item,
                  read,
                  there,
                  same_sku,
                  own,
                  made.is_low,
                  omega arith,
                  omega arith,
                  λ stock above enough.
                      let below =
                        low_part (available made.item) made.item.low_stock_threshold made.is_low in
                      omega (arith, above, enough, below),
                ),
          )
    ]
