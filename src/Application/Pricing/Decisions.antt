-- ===== src/Application/Pricing/Decisions.antt =====
-- When a new price takes effect: at once if the change is small, otherwise by an approval.
use cax_commerce_operations.Prelude.{
  ℕ, ◌+◌, ◌≤◌, ◌≡◌, ◌⊎◌, refl, String, Option, none, some, inl, inr, arith, Bool-cases,
  Option-cases, or_else, ltb, ◌==◌, Eq-nat, Eq-string, Eq-option,
}
use cax_commerce_operations.Prelude.Int.{ℤ, pos, abs, ◌≤ℤ◌}
use cax_commerce_operations.Errors.{Error, ok, err, Result-cases}
use cax_commerce_operations.Persistence.Tables.{get, put, add, get-put_self, get-add_new}
use cax_commerce_operations.Persistence.Models.{
  Approval, InventoryItem, HasId-approval, HasId-inventory_item,
}
use cax_commerce_operations.Persistence.Commercial.{PricingDecision, HasId-pricing_decision}
use cax_commerce_operations.Domains.Pricing.{PricingCalculation, calculate_price}
use cax_commerce_operations.Approvals.Policy.{Thresholds, from_settings}
use cax_commerce_operations.Approvals.Policy.Decision.{NeedsHuman}
use cax_commerce_operations.Approvals.Engine.{
  ApprovalEngine, registered, approve, request_if_required,
}
use cax_commerce_operations.Approvals.Engine.Ask.{Asked, request_if_required_cases}
use cax_commerce_operations.Approvals.Engine.Carry.{granted, saved, approve_runs}
use cax_commerce_operations.Application.Pricing.{
  CreatePricingDecision, PricingService, inputs_of, price_context, price_request, new_decision,
  record_decision, finish_decision, create_decision, effective, approve_price_change, answered,
  audit_decision,
}
use cax_commerce_operations.Session.{Db}
use cax_commerce_operations.Session.Actions.{add_audit, new_id}

-- The rounded change is known and no smaller than the configured percentage.
abbrev pub IsSignificant : Thresholds → Option ℤ → Type 0
IsSignificant t change =
    (p : ℤ) × (change ≡ some p) × (t.significant_price_change_percent ≤ℤ pos (abs p))

needs-IsSignificant :
    (t : Thresholds) (d : PricingDecision)
    → NeedsHuman t (price_context d)
    → IsSignificant t d.price_change_percentage
needs-IsSignificant t d (NeedsHuman.purchase e) = cc
needs-IsSignificant t d (NeedsHuman.destructive e) = cc
needs-IsSignificant t d (NeedsHuman.high_risk e) = cc
needs-IsSignificant t d (NeedsHuman.first_publication e f) = cc
needs-IsSignificant t d (NeedsHuman.price_change p e f g) = (p, f, g)
needs-IsSignificant t d (NeedsHuman.refund a e f g) = cc

IsSignificant-needs :
    (t : Thresholds) (d : PricingDecision)
    → IsSignificant t d.price_change_percentage
    → NeedsHuman t (price_context d)
IsSignificant-needs t d (p, f, g) = NeedsHuman.price_change p refl f g

-- What the handler finds when a price takes effect.
pub record Awaiting (a : Approval) (d : PricingDecision) (s : Db) : Type 0 where
  pub found : get a.resource_id s.pricing_decisions ≡ some d
  pub is_decision : a.resource_type ≡ "pricing_decision"
  pub names : d.approval_id ≡ some a.id
  pub waits : d.policy_result ≡ "approval_required"
  pub above_floor : d.minimum_price ≤ d.proposed_price

approve_price_change_cases :
    (a : Approval) (s : Db)
    → ((d : PricingDecision) × Awaiting a d s
        × (approve_price_change a s ≡ (
          ok tt,
          record s { pricing_decisions = put (effective s.clock d) s.pricing_decisions },
        )))
      ⊎ ((x : Error) × (approve_price_change a s ≡ (err x, s)))
unfolding approve_price_change
approve_price_change_cases a s = elim (Bool-cases (a.resource_type == "pricing_decision")) [
  | inr other ↦ inr (Error.pricing_approval, ground (arith, other))
  | inl same ↦ elim (Option-cases (get a.resource_id s.pricing_decisions)) [
    | inl missing ↦ inr (Error.pricing_approval, ground (arith, same, missing))
    | inr (d, found) ↦ elim (Bool-cases (d.approval_id == some a.id)) [
      | inr wrong ↦ inr (Error.pricing_approval, ground (arith, same, found, wrong))
      | inl named ↦ elim (Bool-cases (d.policy_result == "approval_required")) [
        | inr over ↦ inr (Error.pricing_approval, ground (arith, same, found, named, over))
        | inl waits ↦ elim (Bool-cases (ltb d.proposed_price d.minimum_price)) [
          | inl low ↦ inr (Error.pricing_approval, ground (arith, same, found, named, waits, low))
          | inr fits ↦ inl (
            d,
            record {
              found = found;
              is_decision = (Eq-string.beq_iff a.resource_type "pricing_decision").0 same;
              names = (Eq-option.beq_iff d.approval_id (some a.id)).0 named;
              waits = (Eq-string.beq_iff d.policy_result "approval_required").0 waits;
              above_floor = ground (arith, fits);
            },
            ground (arith, same, found, named, waits, fits),
          )
        ]
      ]
    ]
  ]
]

-- A granted price approval puts into effect exactly the decision that waits for it, whose price is no
-- lower than its minimum price. The handler of price changes is registered.
pub grant_sets_price :
    (engine : ApprovalEngine) (id : ℕ) (approver reason : String) (at : Option ℕ) (s s' : Db)
    (a b : Approval)
    → get id s.approvals ≡ some a
    → registered a.action_type engine.action_registry ≡ some approve_price_change
    → approve engine id approver reason at s ≡ (ok b, s')
    → (d : PricingDecision) × (get a.resource_id s.pricing_decisions ≡ some d)
      × (d.approval_id ≡ some a.id)
      × (d.policy_result ≡ "approval_required")
      × (d.minimum_price ≤ d.proposed_price)
      × (get a.resource_id s'.pricing_decisions ≡ some (effective s.clock d))
grant_sets_price engine id approver reason at s s' a b found handler h =
    let c = granted approver reason (or_else at s.clock) a in
    let (after, called, (w, t, u, kept)) =
      approve_runs engine approve_price_change id approver reason at s s' a b found handler h in
    elim (approve_price_change_cases c (saved c s)) [
      | inr (x, e) ↦ absurd (ground (arith, e, called))
      | inl (d, p, e) ↦
          let written : s'.pricing_decisions ≡ put (effective s.clock d) s.pricing_decisions =
            ground (arith, kept, called, e) in
          (
            d,
            p.found,
            p.names,
            p.waits,
            p.above_floor,
            ground (
              arith,
              written,
              get-put_self a.resource_id (effective s.clock d) d s.pricing_decisions p.found refl,
            ),
          )
    ]

-- A decision is stored, and is in effect at once unless its change is significant, when an approval
-- stands for it.
pub data Recorded (t : Thresholds) (now : ℕ) (d : PricingDecision) (s : Db) : Type 0 where
  in_effect :
      (¬ IsSignificant t d.price_change_percentage)
      → d.policy_result ≡ "allowed"
      → d.effective_at ≡ some now
      → get d.id s.pricing_decisions ≡ some d
      → Recorded t now d s
  held :
      (a : Approval)
      → IsSignificant t d.price_change_percentage
      → d.policy_result ≡ "approval_required"
      → d.effective_at ≡ none
      → d.approval_id ≡ some a.id
      → get d.id s.pricing_decisions ≡ some d
      → Recorded t now d s

-- The tail of `record_decision`, for any decision that was just added.
answer_decision :
    (engine : ApprovalEngine) (t : Thresholds) (requester : String) (base d : PricingDecision)
    (s s' : Db)
    → engine.policy ≡ from_settings t
    → base.effective_at ≡ none
    → get base.id s.pricing_decisions ≡ some base
    → finish_decision engine requester base s ≡ (ok d, s')
    → Recorded t s.clock d s'
unfolding finish_decision audit_decision add_audit
answer_decision engine t requester base d s s' configured idle stored h =
    elim (request_if_required_cases engine t (price_context base) (price_request base requester) s
      configured) [
        | Asked.is_allowed no_need e ↦
            let final = answered s.clock none base in
            let is_final : d ≡ final = ground (arith, e, h) in
            let wrote : s'.pricing_decisions ≡ put final s.pricing_decisions =
              ground (arith, e, h) in
            rw is_final (
              Recorded.in_effect (λ big. no_need (IsSignificant-needs t base big)) refl refl
                (rw wrote (get-put_self base.id final base s.pricing_decisions stored refl)))
        | Asked.is_known a needs known e ↦
            let final = answered s.clock (some a) base in
            let is_final : d ≡ final = ground (arith, e, h) in
            let wrote : s'.pricing_decisions ≡ put final s.pricing_decisions =
              ground (arith, e, h) in
            rw is_final (
              Recorded.held a (needs-IsSignificant t base needs) refl idle refl
                (rw wrote (get-put_self base.id final base s.pricing_decisions stored refl)))
        | Asked.is_new a name version u needs new made e ↦
            let final = answered s.clock (some a) base in
            let is_final : d ≡ final = ground (arith, e, h) in
            let wrote : s'.pricing_decisions ≡ put final s.pricing_decisions =
              ground (arith, e, h) in
            rw is_final (
              Recorded.held a (needs-IsSignificant t base needs) refl idle refl
                (rw wrote (get-put_self base.id final base s.pricing_decisions stored refl)))
      ]

finish_proposes :
    (engine : ApprovalEngine) (requester : String) (base d : PricingDecision) (s s' : Db)
    → finish_decision engine requester base s ≡ (ok d, s')
    → (d.proposed_price ≡ base.proposed_price) × (d.minimum_price ≡ base.minimum_price)
unfolding finish_decision audit_decision add_audit
finish_proposes engine requester base d s s' h =
    let m = request_if_required engine (price_context base) (price_request base requester) in
    elim (Result-cases (m s).0) [
      | inr (x, e) ↦ absurd (ground (arith, e, h))
      | inl (o, e) ↦ elim (Option-cases o) [
        | inl allowed ↦ (ground (arith, e, allowed, h), ground (arith, e, allowed, h))
        | inr (a, asked_one) ↦ (ground (arith, e, asked_one, h), ground (arith, e, asked_one, h))
      ]
    ]

recorded :
    (service : PricingService) (t : Thresholds) (command : CreatePricingDecision)
    (item : InventoryItem) (result : PricingCalculation) (s s' : Db) (d : PricingDecision)
    → service.approval_engine.policy ≡ from_settings t
    → get s.next_id s.pricing_decisions ≡ none
    → record_decision service command item result s ≡ (ok d, s')
    → Recorded t s.clock d s'
unfolding record_decision new_id
recorded service t command item result s s' d configured fresh h =
    let base = new_decision service s.next_id command item result in
    let s₁ : Db = record s {
      next_id = s.next_id + 1;
      pricing_decisions = add base s.pricing_decisions;
    } in
    elim (Bool-cases (ltb result.recommended_selling_price result.minimum_selling_price)) [
      | inl low ↦ absurd (ground (arith, low, h))
      | inr fits ↦
          answer_decision service.approval_engine t command.requester base d s₁ s' configured refl
            (ground (arith, get-add_new s.next_id base s.pricing_decisions, fresh))
            (ground (arith, fits, h))
    ]

proposes :
    (service : PricingService) (command : CreatePricingDecision) (item : InventoryItem)
    (result : PricingCalculation) (s s' : Db) (d : PricingDecision)
    → record_decision service command item result s ≡ (ok d, s')
    → (d.proposed_price ≡ result.recommended_selling_price)
      × (d.minimum_price ≡ result.minimum_selling_price)
unfolding record_decision new_id
proposes service command item result s s' d h =
    let base = new_decision service s.next_id command item result in
    let s₁ : Db = record s {
      next_id = s.next_id + 1;
      pricing_decisions = add base s.pricing_decisions;
    } in
    elim (Bool-cases (ltb result.recommended_selling_price result.minimum_selling_price)) [
      | inl low ↦ absurd (ground (arith, low, h))
      | inr fits ↦
          finish_proposes service.approval_engine command.requester base d s₁ s'
            (ground (arith, fits, h))
    ]

-- A pricing decision that is returned proposes the calculated price of its item, is stored, and is in
-- effect at once unless its change is significant; then it waits for an approval. The new id is one
-- that no decision has.
pub create_decision_records :
    (service : PricingService) (t : Thresholds) (command : CreatePricingDecision) (s s' : Db)
    (d : PricingDecision)
    → service.approval_engine.policy ≡ from_settings t
    → get s.next_id s.pricing_decisions ≡ none
    → create_decision service command s ≡ (ok d, s')
    → (item : InventoryItem) × (c : PricingCalculation) × (get command.inventory_item_id s.inventory
        ≡ some item)
      × (calculate_price (inputs_of command item) command.rules ≡ ok c)
      × (d.proposed_price ≡ c.recommended_selling_price)
      × (d.minimum_price ≡ c.minimum_selling_price)
      × Recorded t s.clock d s'
unfolding create_decision
create_decision_records service t command s s' d configured fresh h =
    elim (Option-cases (get command.inventory_item_id s.inventory)) [
      | inl missing ↦ absurd (ground (arith, missing, h))
      | inr (item, found) ↦
          elim (Result-cases (calculate_price (inputs_of command item) command.rules)) [
            | inr (x, bad) ↦ absurd (ground (arith, found, bad, h))
            | inl (c, priced) ↦
                let rest : record_decision service command item c s ≡ (ok d, s') =
                  ground (arith, found, priced, h) in
                let (price, floor) = proposes service command item c s s' d rest in
                (
                  item,
                  c,
                  found,
                  priced,
                  price,
                  floor,
                  recorded service t command item c s s' d configured fresh rest,
                )
          ]
    ]
