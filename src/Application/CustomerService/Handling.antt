-- ===== src/Application/CustomerService/Handling.antt =====
-- src/commerce_operations/application/customer_service.py: a message is stored, screened, classified
-- and answered, drafted or handed to a human.
use cax_commerce_operations.Prelude.{
  ℕ, ◌+◌, String, Bool, ◌&&◌, Option, none, some, List, [], ◌∷◌, ◌==◌, Eq-nat, Eq-string, Eq-option,
  is_empty, if◌then◌else◌,
}
use cax_commerce_operations.Prelude.Int.{pos_part}
use cax_commerce_operations.Errors.{Result, ok, err}
use cax_commerce_operations.Persistence.Enums.{RunStatus, Eq-approval_status}
use cax_commerce_operations.Persistence.Keys.{CorrelationId}
use cax_commerce_operations.Persistence.Json.{Json}
use cax_commerce_operations.Persistence.Tables.{put, add}
use cax_commerce_operations.Persistence.Conversations.{
  ConversationStatus, MessageStatus, CustomerServiceDecision, CustomerIntent, CustomerConversation,
  CustomerMessage, AgentRun, Eq-conversation_status, Eq-message_status, HasId-conversation,
  HasId-message, HasId-agent_run,
}
use cax_commerce_operations.Agents.Usage.{UsageAccounting, authorize, record_usage}
use cax_commerce_operations.Agents.Answers.{LlmResult}
use cax_commerce_operations.Approvals.Policy.{ApprovalActionType, value}
use cax_commerce_operations.Approvals.Engine.{ApprovalEngine, ApprovalRequest, create_request}
use cax_commerce_operations.Application.CustomerService.Screen.{evaluate, Verdict, choose}
use cax_commerce_operations.Session.{Db, Action}
use cax_commerce_operations.Session.Actions.{
  pure, gets, lift, modify, new_id, add_audit, ◌>>=◌, ◌>>◌,
}

-- `generate` is the language model, which is sent what the session holds about a message and its
-- conversation; `search` is the search of a rule's pattern in a text.
pub record CustomerServiceAgent : Type 0 where
  pub approval_engine : ApprovalEngine
  pub prompt_version : String
  pub usage_accounting : UsageAccounting
  pub generate : Db → CustomerConversation → CustomerMessage → Result LlmResult
  pub search : String → String → Bool
  pub lower : String → String

pub record CustomerServiceResult : Type 0 where
  pub message : CustomerMessage
  pub duplicate : Bool

-- A conversation and its message, as a call has changed them so far.
abbrev pub Case : Type 0
Case = CustomerConversation × CustomerMessage

abbrev pub decision_text : CustomerServiceDecision → String
decision_text CustomerServiceDecision.auto_respond = "AUTO_RESPOND"
decision_text CustomerServiceDecision.draft_for_approval = "DRAFT_FOR_APPROVAL"
decision_text CustomerServiceDecision.human_escalation = "HUMAN_ESCALATION"

abbrev pub intent_text : CustomerIntent → String
intent_text CustomerIntent.product_enquiry = "product_enquiry"
intent_text CustomerIntent.order_status = "order_status"
intent_text CustomerIntent.delivery_question = "delivery_question"
intent_text CustomerIntent.return_request = "return_request"
intent_text CustomerIntent.refund_enquiry = "refund_enquiry"
intent_text CustomerIntent.complaint = "complaint"
intent_text CustomerIntent.common_marketplace_message = "common_marketplace_message"
intent_text CustomerIntent.unknown = "unknown"

-- `_escalate`
abbrev pub escalate : List String → CustomerIntent → Case → Case
escalate reasons intent (c, m) = (
  record c {
    classification = some "HUMAN_ESCALATION";
    risk_level = some "high";
    status = ConversationStatus.escalated;
    assignee = some "human-support-queue";
  },
  record m {
    intent = some intent;
    classification = some CustomerServiceDecision.human_escalation;
    risk_level = some "high";
    risk_reasons = reasons;
    status = MessageStatus.received;
  },
)

-- `_auto_respond`
abbrev pub auto_respond : ℕ → Case → Case
auto_respond now (c, m) = (
  record c {
    classification = some "AUTO_RESPOND";
    risk_level = some "low";
    status = ConversationStatus.open_;
  },
  record m {
    classification = some CustomerServiceDecision.auto_respond;
    risk_level = some "low";
    final_response = m.generated_response;
    status = MessageStatus.approved;
    responded_at = some now;
  },
)

abbrev pub drafted : Case → Case
drafted (c, m) = (
  record c {
    classification = some "DRAFT_FOR_APPROVAL";
    risk_level = some "medium";
    status = ConversationStatus.awaiting_approval;
  },
  record m {
    classification = some CustomerServiceDecision.draft_for_approval;
    risk_level = some "medium";
    status = MessageStatus.draft;
  },
)

abbrev text_or_null : Option String → Json
text_or_null none = Json.null
text_or_null (some t) = Json.text t

abbrev pub response_request : CustomerMessage → ApprovalRequest
response_request m = record {
  action_type = value ApprovalActionType.customer_response;
  resource_type = "customer_message";
  resource_id = m.id;
  requested_action = ("final_response", text_or_null m.generated_response) ∷ [];
  reason = "Customer response requires human review";
  requester = "customer-service-agent";
  risk_level = "customer_communication";
  workflow_run_id = none;
  expires_at = none;
}

-- `_draft_for_approval`
unfoldable pub draft_for_approval : ApprovalEngine → Case → Action Case
draft_for_approval engine x = do
  approval ← create_request engine "customer_response_review" 1 (response_request x.1)
  let (c, m) = drafted x
  pure (c, record m { approval_id = some approval.id })

-- The message with the answer of the model.
abbrev pub noted : String → LlmResult → CustomerMessage → CustomerMessage
noted prompt_version result m = record m {
  intent = some result.output.intent;
  generated_response = result.output.generated_response;
  structured_ai_response = some result.dump;
  prompt_version = some prompt_version;
  ai_provider = some result.provider;
  ai_model = some result.model;
  input_tokens = pos_part result.usage.input_tokens;
  output_tokens = pos_part result.usage.output_tokens;
  ai_cost_amount = pos_part result.usage.cost_amount;
  ai_cost_currency = result.usage.cost_currency;
}

-- The last part of `_classify_with_ai`.
unfoldable pub carry_out : CustomerServiceAgent → CustomerIntent → Verdict → Case → Action Case
unfolding draft_for_approval
carry_out agent intent (Verdict.escalate reason) x = pure (escalate (reason ∷ []) intent x)
carry_out agent intent Verdict.draft x = draft_for_approval agent.approval_engine x
carry_out agent intent Verdict.respond x = gets (λ s. auto_respond s.clock x)

abbrev pub new_run : ℕ → ℕ → ℕ → String → AgentRun
new_run id now message_id prompt_version = record {
  id = id;
  workflow_run_id = none;
  agent_type = "customer_service";
  status = RunStatus.running;
  input_reference = some message_id;
  output_reference = none;
  provider = none;
  model = none;
  prompt_version = some prompt_version;
  input_tokens = 0;
  output_tokens = 0;
  cost_amount = 0;
  cost_currency = none;
  safety_result = [];
  error = none;
  created_at = now;
}

abbrev write_agent_run : AgentRun → Action (Unit {0})
write_agent_run r = modify (λ s. record s { agent_runs = put r s.agent_runs })

-- The `try` block: the budget is checked and the model is asked. It writes nothing.
abbrev pub ask : CustomerServiceAgent → Case → Db → Result LlmResult
ask agent (c, m) s = elim (authorize agent.usage_accounting none s).0 [
  | err e ↦ err e
  | ok _ ↦ agent.generate s c m
]

-- The agent's run after the model has answered.
abbrev pub done : AgentRun → LlmResult → AgentRun
done run result = record run {
  status = RunStatus.succeeded;
  provider = some result.provider;
  model = some result.model;
}

-- What follows the `try` block, for the agent's run and what was answered.
unfoldable pub use_answer : CustomerServiceAgent → AgentRun → Case → Result LlmResult → Action Case
unfolding carry_out
use_answer agent run x (err e) = do
  write_agent_run (record run {
    status = RunStatus.failed;
    error = some (("type", Json.text "ai_processing_failure") ∷ []);
  })
  pure (escalate ("ai_processing_failure" ∷ []) CustomerIntent.unknown x)
use_answer agent run (c, m) (ok result) = do
  counted ← lift (record_usage result.usage (done run result))
  write_agent_run counted
  carry_out agent result.output.intent (choose agent.lower result.output)
      (c, noted agent.prompt_version result m)

-- `_classify_with_ai`
unfoldable pub classify_with_ai : CustomerServiceAgent → Case → Action Case
unfolding new_id use_answer
classify_with_ai agent x = do
  id ← new_id
  now ← gets (λ s. s.clock)
  let run = new_run id now x.1.id agent.prompt_version
  modify (λ s. record s { agent_runs = add run s.agent_runs })
  answer ← gets (ask agent x)
  use_answer agent run x answer

-- A message is screened before the model sees it.
unfoldable pub classify : CustomerServiceAgent → Case → Action Case
unfolding classify_with_ai
classify agent x =
    let risks = evaluate agent.search x.1.content x.0 in
    if is_empty risks
    then classify_with_ai agent x
    else pure (escalate risks CustomerIntent.unknown x)

-- `_audit`
unfoldable pub audit_message : Case → Action (Unit {0})
unfolding add_audit
audit_message (c, m) = add_audit (record {
  actor_type = "agent";
  actor_id = "customer-service-agent";
  action = "customer_message.classified";
  resource_type = "customer_message";
  resource_id = m.id;
  before_state = none;
  after_state = some (
      ("intent", elim m.intent [ none ↦ Json.null | some i ↦ Json.text (intent_text i) ])
      ∷ (
        "classification",
        elim m.classification [ none ↦ Json.null | some d ↦ Json.text (decision_text d) ],
      )
      ∷ ("risk_reasons", Json.texts m.risk_reasons)
      ∷ []);
  reason = some "Deterministic safety screening and structured AI classification";
  correlation_id = CorrelationId.of_row c.id;
})

-- The columns that a call may change.
abbrev pub same_columns : CustomerConversation → CustomerConversation → Bool
same_columns a b =
    a.classification == b.classification
    && a.risk_level == b.risk_level
    && a.status == b.status
    && a.assignee == b.assignee

-- A flush writes a row, and counts the version up, only if a column has changed.
unfoldable pub flush_conversation : CustomerConversation → CustomerConversation → Action (Unit {0})
flush_conversation old new =
    if same_columns old new
    then pure tt
    else modify (λ s. record s {
      conversations = put (record new { version = old.version + 1 }) s.conversations;
    })

abbrev pub write_message : CustomerMessage → Action (Unit {0})
write_message m = modify (λ s. record s { messages = put m s.messages })

-- What `handle_message` and `process_received_event` have in common.
unfoldable pub settle : CustomerServiceAgent → Case → Action CustomerMessage
unfolding classify audit_message flush_conversation
settle agent x = do
  y ← classify agent x
  write_message y.1
  flush_conversation x.0 y.0
  audit_message y
  pure y.1
