-- ===== src/Approvals/Engine/Ask.antt =====
-- The three ways in which `request_if_required` ends, with the state that it leaves.
use cax_commerce_operations.Prelude.{
  ℕ, ◌+◌, ◌≡◌, refl, String, none, some, List, arith, inl, inr, Option-cases,
}
use cax_commerce_operations.Errors.{ok}
use cax_commerce_operations.Persistence.Tables.{add}
use cax_commerce_operations.Persistence.Models.{Approval, AuditEvent}
use cax_commerce_operations.Approvals.Policy.{
  ApprovalContext, Thresholds, rule_name, rule_version, evaluate, from_settings,
}
use cax_commerce_operations.Approvals.Policy.Decision.{
  NeedsHuman, from_settings_exact, evaluate_explained,
}
use cax_commerce_operations.Approvals.Engine.{
  ApprovalEngine, ApprovalRequest, new_approval, insert_request, create_request,
  request_if_required,
}
use cax_commerce_operations.Approvals.Engine.Request.{
  answering, create_request_existing, decision_cases,
}
use cax_commerce_operations.Session.{Db}

-- A new approval was stored.
abbrev pub asked : Approval → List AuditEvent → Db → Db
asked a u s = record s { next_id = s.next_id + 1; approvals = add a s.approvals; audits = u }

pub data Asked (engine : ApprovalEngine) (t : Thresholds) (c : ApprovalContext)
    (r : ApprovalRequest) (s : Db) : Type 0 where
  is_allowed :
      ¬ NeedsHuman t c → request_if_required engine c r s ≡ (ok none, s) → Asked engine t c r s
  is_known :
      (a : Approval)
      → NeedsHuman t c
      → answering engine r s.approvals ≡ some a
      → request_if_required engine c r s ≡ (ok (some a), s)
      → Asked engine t c r s
  is_new :
      (a : Approval) (name : String) (version : ℕ) (u : List AuditEvent)
      → NeedsHuman t c
      → answering engine r s.approvals ≡ none
      → a ≡ new_approval s.next_id s.clock engine name version r
      → request_if_required engine c r s ≡ (ok (some a), asked a u s)
      → Asked engine t c r s

create_request_new :
    (engine : ApprovalEngine) (name : String) (version : ℕ) (r : ApprovalRequest) (s : Db)
    → answering engine r s.approvals ≡ none
    → let a = new_approval s.next_id s.clock engine name version r in
      create_request engine name version r s
      ≡ (ok a, asked a (create_request engine name version r s).1.audits s)
unfolding create_request insert_request
create_request_new engine name version r s new = ground arith

pub request_if_required_cases :
    (engine : ApprovalEngine) (t : Thresholds) (c : ApprovalContext) (r : ApprovalRequest) (s : Db)
    → engine.policy ≡ from_settings t
    → Asked engine t c r s
unfolding request_if_required
request_if_required_cases engine t c r s configured =
    let exact = from_settings_exact t c in
    elim (decision_cases (evaluate engine.policy c).decision) [
      | inl allow ↦
          Asked.is_allowed (λ needs. let asks = exact.1 needs in cc (configured, allow, asks))
            (ground (arith, allow))
      | inr asks ↦
          let needs = exact.0 (rw (← configured) asks) in
          elim (evaluate_explained engine.policy c) [
            | inl (d, m, all) ↦ absurd (ground (arith, d, asks))
            | inr (rule, d, m, member, applies) ↦
                elim (Option-cases (answering engine r s.approvals)) [
                  | inr (a, found) ↦
                      let e =
                        create_request_existing engine (rule_name rule) (rule_version rule) r s a
                          found in
                      Asked.is_known a needs found (ground (arith, d, m, e))
                  | inl new ↦
                      let e =
                        create_request_new engine (rule_name rule) (rule_version rule) r s new in
                      let a =
                        new_approval s.next_id s.clock engine (rule_name rule) (rule_version rule)
                          r in
                      Asked.is_new a (rule_name rule) (rule_version rule)
                        (create_request engine (rule_name rule) (rule_version rule) r s).1.audits
                        needs new refl (ground (arith, d, m, e))
                ]
          ]
    ]
