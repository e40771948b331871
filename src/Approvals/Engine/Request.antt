-- ===== src/Approvals/Engine/Request.antt =====
-- Requesting an approval: once for each action, and for exactly the actions that need a human.
use cax_commerce_operations.Prelude.{
  ℕ, ◌≡◌, refl, String, Option, none, some, List, [], ◌∷◌, arith, ◌⊎◌, inl, inr, find, find-append,
  Option-cases, Eq-nat, Eq-string, eq_self,
}
use cax_commerce_operations.Errors.{ok}
use cax_commerce_operations.Persistence.Tables.{add}
use cax_commerce_operations.Persistence.Models.{Approval}
use cax_commerce_operations.Approvals.Policy.{
  PolicyDecision, ApprovalContext, Thresholds, rule_name, rule_version, evaluate, from_settings,
}
use cax_commerce_operations.Approvals.Policy.Decision.{
  NeedsHuman, from_settings_exact, evaluate_explained,
}
use cax_commerce_operations.Session.{Db}
use cax_commerce_operations.Approvals.Engine.{
  ApprovalEngine, ApprovalRequest, same_request, new_approval, insert_request, create_request,
  request_if_required,
}

-- The row that answers a request, if there is one.
abbrev pub answering : ApprovalEngine → ApprovalRequest → List Approval → Option Approval
answering engine r = find (
    same_request r.resource_type r.resource_id
      (engine.action_hash r.action_type r.resource_id r.requested_action))

answering-add :
    (engine : ApprovalEngine) (r : ApprovalRequest) (id now version : ℕ) (name : String)
    (t : List Approval)
    → answering engine r t ≡ none
    → let a = new_approval id now engine name version r in answering engine r (add a t) ≡ some a
answering-add engine r id now version name t new =
    rw
      (find-append
        (same_request r.resource_type r.resource_id
          (engine.action_hash r.action_type r.resource_id r.requested_action))
        t (new_approval id now engine name version r ∷ []))
      (ground (
        arith,
        new,
        eq_self r.resource_type,
        eq_self r.resource_id,
        eq_self (engine.action_hash r.action_type r.resource_id r.requested_action),
      ))

pub create_request_existing :
    (engine : ApprovalEngine) (name : String) (version : ℕ) (r : ApprovalRequest) (s : Db)
    (a : Approval)
    → answering engine r s.approvals ≡ some a
    → create_request engine name version r s ≡ (ok a, s)
unfolding create_request
create_request_existing engine name version r s a found = ground arith

pub create_request_answers :
    (engine : ApprovalEngine) (name : String) (version : ℕ) (r : ApprovalRequest) (s : Db)
    → (a : Approval) × (s' : Db) × (create_request engine name version r s ≡ (ok a, s'))
      × (answering engine r s'.approvals ≡ some a)
unfolding create_request insert_request
create_request_answers engine name version r s =
    elim (Option-cases (answering engine r s.approvals)) [
      | inl new ↦
          let a = new_approval s.next_id s.clock engine name version r in
          let s' = (create_request engine name version r s).1 in
          let grown : s'.approvals ≡ add a s.approvals = ground arith in
          (
            a,
            s',
            ground arith,
            rw grown (answering-add engine r s.next_id s.clock version name s.approvals new),
          )
      | inr (a, found) ↦ (a, s, ground arith, found)
    ]

-- A request is made once: creating it always returns an approval, and creating it again, even under
-- another rule, returns that approval and changes nothing.
pub create_request_again :
    (engine : ApprovalEngine) (name name' : String) (version version' : ℕ) (r : ApprovalRequest)
    (s : Db)
    → (a : Approval) × (s' : Db) × (create_request engine name version r s ≡ (ok a, s'))
      × (create_request engine name' version' r s' ≡ (ok a, s'))
create_request_again engine name name' version version' r s =
    let (a, s', e, found) = create_request_answers engine name version r s in
    (a, s', e, create_request_existing engine name' version' r s' a found)

pub decision_cases :
    (d : PolicyDecision) → (d ≡ PolicyDecision.allow) ⊎ (d ≡ PolicyDecision.require_approval)
decision_cases PolicyDecision.allow = inl refl
decision_cases PolicyDecision.require_approval = inr refl

asked_returns :
    (engine : ApprovalEngine) (c : ApprovalContext) (r : ApprovalRequest) (s : Db)
    → (evaluate engine.policy c).decision ≡ PolicyDecision.require_approval
    → (a : Approval) × ((request_if_required engine c r s).0 ≡ ok (some a))
unfolding request_if_required
asked_returns engine c r s asks = elim (evaluate_explained engine.policy c) [
  | inl (d, m, all) ↦ absurd (ground arith)
  | inr (rule, d, m, member, applies) ↦
      let (a, s', e, found) =
        create_request_answers engine (rule_name rule) (rule_version rule) r s in
      (a, ground arith)
]

-- Under the configured policy an action goes through without an approval exactly when it needs no
-- human; otherwise the call returns an approval, and never trips its assertion.
pub request_if_required_exact :
    (engine : ApprovalEngine) (t : Thresholds) (c : ApprovalContext) (r : ApprovalRequest) (s : Db)
    → engine.policy ≡ from_settings t
    → (((request_if_required engine c r s).0 ≡ ok none) × ¬ NeedsHuman t c)
      ⊎ ((a : Approval) × ((request_if_required engine c r s).0 ≡ ok (some a)) × NeedsHuman t c)
unfolding request_if_required
request_if_required_exact engine t c r s configured =
    let exact = from_settings_exact t c in
    elim (decision_cases (evaluate engine.policy c).decision) [
      | inl allow ↦
          inl (ground arith, λ needs. let asks = exact.1 needs in cc (configured, allow, asks))
      | inr asks ↦
          let (a, e) = asked_returns engine c r s asks in
          inr (a, e, exact.0 (rw (← configured) asks))
    ]
