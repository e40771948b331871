-- ===== src/Session.antt =====
-- A database session: the tables, and the actions of the services on them. An action returns or
-- raises; what it wrote before it raised stays written until its caller rolls back.
-- One transaction runs at a time, so a row lock (`with_for_update`) has no effect of its own, and a
-- row object that the code mutates is written back by `put`.
pub mod Actions
use cax_commerce_operations.Prelude.{ℕ, List, []}
use cax_commerce_operations.Errors.{Result}
use cax_commerce_operations.Persistence.Models.{
  SupplierQuote, ProcurementRequest, PurchaseOrder, InventoryItem, InventoryMovement, Order, Refund,
  Approval, WorkflowRun, DomainEvent, EventHandlerReceipt, AuditEvent,
}
use cax_commerce_operations.Persistence.Commercial.{
  PricingDecision, ReturnRecord, ReorderRecommendation,
}
use cax_commerce_operations.Persistence.Catalog.{Product, Supplier}
use cax_commerce_operations.Persistence.Conversations.{
  CustomerConversation, CustomerMessage, AgentRun,
}

-- `next_id` stands for `uuid4`: each new id is one that was never given out. `clock` is what
-- `datetime.now(UTC)` returns.
pub record Db : Type 0 where
  pub next_id : ℕ
  pub clock : ℕ
  pub products : List Product
  pub suppliers : List Supplier
  pub quotes : List SupplierQuote
  pub requests : List ProcurementRequest
  pub purchase_orders : List PurchaseOrder
  pub inventory : List InventoryItem
  pub movements : List InventoryMovement
  pub orders : List Order
  pub returns : List ReturnRecord
  pub refunds : List Refund
  pub pricing_decisions : List PricingDecision
  pub recommendations : List ReorderRecommendation
  pub conversations : List CustomerConversation
  pub messages : List CustomerMessage
  pub agent_runs : List AgentRun
  pub approvals : List Approval
  pub workflows : List WorkflowRun
  pub events : List DomainEvent
  pub receipts : List EventHandlerReceipt
  pub audits : List AuditEvent

abbrev pub empty_db : Db
empty_db = record {
  next_id = 0;
  clock = 0;
  products = [];
  suppliers = [];
  quotes = [];
  requests = [];
  purchase_orders = [];
  inventory = [];
  movements = [];
  orders = [];
  returns = [];
  refunds = [];
  pricing_decisions = [];
  recommendations = [];
  conversations = [];
  messages = [];
  agent_runs = [];
  approvals = [];
  workflows = [];
  events = [];
  receipts = [];
  audits = [];
}

abbrev pub Action {ℓ} : Type ℓ → Type ℓ
Action A = Db → Result A × Db
