-- ===== src/Approvals/Policy/Decision.antt =====
-- What the configured policy lets through.
use mathlib.Core.List.{Memᴰ}
use cax_commerce_operations.Prelude.{
  ◌+◌, ◌≡◌, ◌↔◌, ◌⊎◌, ◌<◌, refl, inl, inr, true, false, none, some, List, [], ◌∷◌, arith, All,
  Bool-cases, Option-cases,
}
use cax_commerce_operations.Prelude.Int.{ℤ, pos, abs, ◌≤ℤ◌, pos_part, neg_part}
use cax_commerce_operations.Approvals.Policy.{
  ApprovalActionType, PolicyDecision, ApprovalContext, ApprovalRule, Thresholds, requires_approval,
  evaluate, from_settings,
}

-- The actions that a human must approve, as the policy's documentation lists them.
pub data NeedsHuman (t : Thresholds) (c : ApprovalContext) : Type 0 where
  purchase : c.action_type ≡ ApprovalActionType.supplier_purchase → NeedsHuman t c
  destructive : c.action_type ≡ ApprovalActionType.destructive_action → NeedsHuman t c
  high_risk : c.action_type ≡ ApprovalActionType.high_risk_action → NeedsHuman t c
  first_publication :
      c.action_type ≡ ApprovalActionType.first_marketplace_publication
      → c.is_first_publication ≡ true
      → NeedsHuman t c
  -- a price change of at least the threshold, up or down
  price_change :
      (p : ℤ)
      → c.action_type ≡ ApprovalActionType.price_change
      → c.price_change_percent ≡ some p
      → t.significant_price_change_percent ≤ℤ pos (abs p)
      → NeedsHuman t c
  -- a refund of more than the threshold
  refund :
      (a : ℤ)
      → c.action_type ≡ ApprovalActionType.refund
      → c.amount ≡ some a
      → pos_part t.refund_approval_threshold + neg_part a
        < pos_part a + neg_part t.refund_approval_threshold
      → NeedsHuman t c

module _ (t : Thresholds) (c : ApprovalContext) where
  abbrev Asks : Type 0
  Asks = (evaluate (from_settings t) c).decision ≡ PolicyDecision.require_approval

  asks-needs : (a : ApprovalActionType) → c.action_type ≡ a → Asks → NeedsHuman t c
  unfolding evaluate requires_approval
  asks-needs ApprovalActionType.supplier_purchase q h = NeedsHuman.purchase q
  asks-needs ApprovalActionType.destructive_action q h = NeedsHuman.destructive q
  asks-needs ApprovalActionType.high_risk_action q h = NeedsHuman.high_risk q
  asks-needs ApprovalActionType.first_marketplace_publication q h =
      NeedsHuman.first_publication q (ground arith)
  asks-needs ApprovalActionType.price_change q h = elim (Option-cases c.price_change_percent) [
    | inl e ↦ absurd (ground arith)
    | inr (p, e) ↦ NeedsHuman.price_change p q e (ground arith)
  ]
  asks-needs ApprovalActionType.refund q h = elim (Option-cases c.amount) [
    | inl e ↦ absurd (ground arith)
    | inr (a, e) ↦ NeedsHuman.refund a q e (ground arith)
  ]
  asks-needs ApprovalActionType.customer_response q h = absurd (ground arith)

  needs-asks : NeedsHuman t c → Asks
  unfolding evaluate requires_approval
  needs-asks (NeedsHuman.purchase q) = ground arith
  needs-asks (NeedsHuman.destructive q) = ground arith
  needs-asks (NeedsHuman.high_risk q) = ground arith
  needs-asks (NeedsHuman.first_publication q f) = ground arith
  needs-asks (NeedsHuman.price_change p q e le) = ground arith
  needs-asks (NeedsHuman.refund a q e lt) = ground arith

-- The configured policy asks for an approval exactly for supplier purchases, destructive and
-- high-risk actions, first publications, price changes of at least the threshold in either
-- direction, and refunds above the threshold.
pub from_settings_exact :
    (t : Thresholds) (c : ApprovalContext)
    → ((evaluate (from_settings t) c).decision ≡ PolicyDecision.require_approval) ↔ NeedsHuman t c
from_settings_exact t c = (asks-needs t c c.action_type refl, needs-asks t c)

-- A decision to ask names a rule that is among the policy's and that applies to the action; a
-- decision to allow names none, and no rule of the policy applies.
pub evaluate_explained :
    (rules : List ApprovalRule) (c : ApprovalContext)
    → let r = evaluate rules c in
      ((r.decision ≡ PolicyDecision.allow)
        × (r.matched_rule ≡ none)
        × All (λ rule. requires_approval rule c ≡ false) rules)
      ⊎ ((rule : ApprovalRule) × (r.decision ≡ PolicyDecision.require_approval)
          × (r.matched_rule ≡ some rule)
          × Memᴰ rule rules
          × (requires_approval rule c ≡ true))
unfolding evaluate
evaluate_explained [] c = inl (refl, refl, tt)
evaluate_explained (rule ∷ rules) c = elim (Bool-cases (requires_approval rule c)) [
  | inl applies ↦ inr (rule, ground arith, ground arith, Memᴰ.head refl, applies)
  | inr passes ↦ elim (evaluate_explained rules c) [
    | inl (d, m, all) ↦ inl (ground arith, ground arith, (passes, all))
    | inr (found, d, m, member, applies) ↦
        inr (found, ground arith, ground arith, Memᴰ.tail member, applies)
  ]
]
