-- ===== src/Workflows/Engine/Writes.antt =====
-- What the engine writes besides the step: the run, its audit trail and its failure notice.
use cax_commerce_operations.Prelude.{ℕ, ◌+◌, ◌≡◌, refl, String, Bool, none, some, List, ◌⊎◌, ◌∙◌}
use cax_commerce_operations.Errors.{Error, ok, err}
use cax_commerce_operations.Persistence.Enums.{RunStatus}
use cax_commerce_operations.Persistence.Keys.{Key}
use cax_commerce_operations.Persistence.Tables.{put}
use cax_commerce_operations.Events.Store.Emit.{emit_frame}
use cax_commerce_operations.Persistence.Models.{
  DomainEvent, AuditEvent, WorkflowRun, HasId-workflow_run,
}
use cax_commerce_operations.Events.Types.{EventPayload}
use cax_commerce_operations.Events.Store.{emit}
use cax_commerce_operations.Workflows.Definitions.{name_text}
use cax_commerce_operations.Workflows.Engine.{audit_run, save_run, failure, terminal_failure}
use cax_commerce_operations.Session.{Db}
use cax_commerce_operations.Session.Actions.{then_pure, add_audit}

-- Every table but the runs, the events and the audit trail is as it was.
pub record SameBusiness (s s' : Db) : Type 0 where
  pub same_quotes : s'.quotes ≡ s.quotes
  pub same_requests : s'.requests ≡ s.requests
  pub same_purchase_orders : s'.purchase_orders ≡ s.purchase_orders
  pub same_inventory : s'.inventory ≡ s.inventory
  pub same_movements : s'.movements ≡ s.movements
  pub same_orders : s'.orders ≡ s.orders
  pub same_refunds : s'.refunds ≡ s.refunds
  pub same_approvals : s'.approvals ≡ s.approvals
  pub same_receipts : s'.receipts ≡ s.receipts
  pub same_products : s'.products ≡ s.products
  pub same_suppliers : s'.suppliers ≡ s.suppliers
  pub same_returns : s'.returns ≡ s.returns
  pub same_pricing_decisions : s'.pricing_decisions ≡ s.pricing_decisions
  pub same_recommendations : s'.recommendations ≡ s.recommendations
  pub same_conversations : s'.conversations ≡ s.conversations
  pub same_messages : s'.messages ≡ s.messages
  pub same_agent_runs : s'.agent_runs ≡ s.agent_runs

-- `s'` differs from `s` at most in events, audits, ids and the runs, which are `t`.
abbrev pub Writes : List WorkflowRun → Db → Db → Type 0
Writes t s s' =
    (n : ℕ) × (events : List DomainEvent) × (audits : List AuditEvent) × (s'
      ≡ record s { next_id = n; workflows = t; events = events; audits = audits })

pub Writes-business : (t : List WorkflowRun) (s s' : Db) → Writes t s s' → SameBusiness s s'
Writes-business t s s' (n, ev, au, e) = rw e (record {
  same_quotes = refl;
  same_requests = refl;
  same_purchase_orders = refl;
  same_inventory = refl;
  same_movements = refl;
  same_orders = refl;
  same_refunds = refl;
  same_approvals = refl;
  same_receipts = refl;
  same_products = refl;
  same_suppliers = refl;
  same_returns = refl;
  same_pricing_decisions = refl;
  same_recommendations = refl;
  same_conversations = refl;
  same_messages = refl;
  same_agent_runs = refl;
})

pub Writes-runs : (t : List WorkflowRun) (s s' : Db) → Writes t s s' → s'.workflows ≡ t
Writes-runs t s s' (n, ev, au, e) = rw e refl

-- The row as `save_run` writes it.
abbrev pub saved : WorkflowRun → WorkflowRun
saved w = record w { version = w.version + 1 }

-- The row as `terminal_failure` writes it.
abbrev pub failed_row : ℕ → String → Bool → WorkflowRun → WorkflowRun
failed_row now reason retryable w = saved (record w {
  status = RunStatus.failed;
  current_step = some "failed";
  completed_at = some now;
  error = some (failure "workflow_failure" reason retryable);
  next_retry_at = none;
})

pub terminal_failure-Writes :
    (w : WorkflowRun) (reason : String) (b : Bool) (s : Db)
    → let x = failed_row s.clock reason b w in
      Writes (put x s.workflows) s (terminal_failure w reason b s).1
      × (((terminal_failure w reason b s).0 ≡ ok x)
          ⊎ ((y : Error) × ((terminal_failure w reason b s).0 ≡ err y)))
unfolding terminal_failure save_run audit_run add_audit
terminal_failure-Writes w reason b s =
    let x = failed_row s.clock reason b w in
    let notice =
      emit (EventPayload.workflow_failed w.id (name_text w.workflow_name) reason b) "workflow_run"
        w.id w.version w.correlation_id (some w.id) (Key.of_id "workflow-failed" w.id) in
    let s₁ =
      (audit_run x (some w.status) RunStatus.failed reason
        (record s { workflows = put x s.workflows })).1 in
    let (same, result) = then_pure notice x s₁ in
    let (n, events, e) =
      emit_frame (EventPayload.workflow_failed w.id (name_text w.workflow_name) reason b)
        "workflow_run" w.id w.version w.correlation_id (some w.id)
        (Key.of_id "workflow-failed" w.id) s₁ in
    ((n, events, s₁.audits, same ∙ e), result)

pub SameBusiness-trans : {s t u : Db} → SameBusiness s t → SameBusiness t u → SameBusiness s u
SameBusiness-trans a b = record {
  same_quotes = b.same_quotes ∙ a.same_quotes;
  same_requests = b.same_requests ∙ a.same_requests;
  same_purchase_orders = b.same_purchase_orders ∙ a.same_purchase_orders;
  same_inventory = b.same_inventory ∙ a.same_inventory;
  same_movements = b.same_movements ∙ a.same_movements;
  same_orders = b.same_orders ∙ a.same_orders;
  same_refunds = b.same_refunds ∙ a.same_refunds;
  same_approvals = b.same_approvals ∙ a.same_approvals;
  same_receipts = b.same_receipts ∙ a.same_receipts;
  same_products = b.same_products ∙ a.same_products;
  same_suppliers = b.same_suppliers ∙ a.same_suppliers;
  same_returns = b.same_returns ∙ a.same_returns;
  same_pricing_decisions = b.same_pricing_decisions ∙ a.same_pricing_decisions;
  same_recommendations = b.same_recommendations ∙ a.same_recommendations;
  same_conversations = b.same_conversations ∙ a.same_conversations;
  same_messages = b.same_messages ∙ a.same_messages;
  same_agent_runs = b.same_agent_runs ∙ a.same_agent_runs;
}
