-- ===== src/Examples/Messages.antt =====
-- Messages of a customer: a question that is answered, delivered twice, and a third message that is
-- refused.
use cax_commerce_operations.Prelude.{
  ◌≡◌, refl, true, false, none, some, [], ◌∷◌, arith, ◌==◌, Eq-string, ◌&&◌,
}
use cax_commerce_operations.Prelude.Int.{pos}
use cax_commerce_operations.Errors.{Error, ok, err}
use cax_commerce_operations.Persistence.Enums.{ApprovalStatus}
use cax_commerce_operations.Persistence.Tables.{get, put}
use cax_commerce_operations.Persistence.Models.{Approval}
use cax_commerce_operations.Persistence.Conversations.{
  ConversationStatus, MessageDirection, MessageStatus, CustomerIntent, CustomerServiceDecision,
  CustomerConversation, CustomerMessage, HasId-message,
}
use cax_commerce_operations.Agents.Usage.{authorize, record_usage}
use cax_commerce_operations.Agents.Answers.{LlmResult}
use cax_commerce_operations.Approvals.Engine.{
  approve, audit_approval, open_approval, resume_action, resume_workflow, stamp_resumed,
}
use cax_commerce_operations.Events.Store.{
  create_event, emit, publish, publish_to, insert_event, to_record,
}
use cax_commerce_operations.Application.CustomerService.Screen.{evaluate, choose}
use cax_commerce_operations.Application.CustomerService.Handling.{
  CustomerServiceAgent, CustomerServiceResult, settle, classify, classify_with_ai, use_answer,
  carry_out, audit_message, flush_conversation,
}
use cax_commerce_operations.Application.CustomerService.Inbox.{
  responded, handle_message, receive_message, approve_response,
}
use cax_commerce_operations.Application.CustomerService.Safety.{handle_message_again}
use cax_commerce_operations.Application.CustomerService.Replies.{
  second_message_refused, grant_sends_draft,
}
use cax_commerce_operations.Session.{Db, empty_db}
use cax_commerce_operations.Session.Actions.{new_id, add_audit}

abbrev answer : LlmResult
answer = record {
  output = record {
    intent = CustomerIntent.order_status;
    decision = CustomerServiceDecision.auto_respond;
    risk_level = "low";
    generated_response = some "It is on its way.";
    rationale = "A question about an order";
  };
  dump = [];
  provider = "openai";
  model = "small";
  usage = record {
    input_tokens = pos 10;
    output_tokens = pos 5;
    cost_amount = pos 3;
    cost_currency = some "EUR";
  };
}

-- Only the words of a lawyer are risky, and the model always gives the same answer.
abbrev agent : CustomerServiceAgent
agent = record {
  approval_engine = record {
    policy = [];
    default_expiry_hours = 24;
    action_registry = ("customer_response", approve_response) ∷ [];
    action_hash = λ type id payload. id;
  };
  prompt_version = "v1";
  usage_accounting = record {
    monthly_limit = some 100;
    workflow_limit = none;
    currency = "EUR";
    month_start = λ now. 0;
    upper = λ t. t;
  };
  generate = λ s c m. ok answer;
  search = λ name content. name == "legal_threat" && content == "My lawyer will call";
  lower = λ t. t;
}

abbrev conversation : CustomerConversation
conversation = record {
  id = 1;
  version = 1;
  order_id = none;
  product_id = none;
  marketplace = "amazon";
  classification = none;
  risk_level = none;
  status = ConversationStatus.open_;
  assignee = none;
}

abbrev start : Db
start = record empty_db { next_id = 20; clock = 1000; conversations = conversation ∷ [] }

abbrev first : Db
first = (handle_message agent 1 "M-1" "email" "Where is my order?" start).1

abbrev answered_message : CustomerMessage
answered_message = record {
  id = 20;
  conversation_id = 1;
  approval_id = none;
  external_message_id = some "M-1";
  direction = MessageDirection.inbound;
  channel = "email";
  content = "Where is my order?";
  author_type = "customer";
  status = MessageStatus.approved;
  intent = some CustomerIntent.order_status;
  classification = some CustomerServiceDecision.auto_respond;
  risk_level = some "low";
  risk_reasons = [];
  generated_response = some "It is on its way.";
  final_response = some "It is on its way.";
  structured_ai_response = some [];
  prompt_version = some "v1";
  ai_provider = some "openai";
  ai_model = some "small";
  input_tokens = 10;
  output_tokens = 5;
  ai_cost_amount = 3;
  ai_cost_currency = some "EUR";
  responded_at = some 1000;
}

abbrev result : CustomerServiceResult
result = record { message = answered_message; duplicate = false }

answers : handle_message agent 1 "M-1" "email" "Where is my order?" start ≡ (ok result, first)
unfolding handle_message receive_message settle classify classify_with_ai use_answer carry_out
    audit_message flush_conversation evaluate choose authorize record_usage emit create_event
    publish publish_to insert_event to_record new_id add_audit put
answers = refl

handle_message_again_example :
    handle_message agent 1 "M-1" "email" "Where is my order?" first
    ≡ (ok (record { message = answered_message; duplicate = true }), first)
handle_message_again_example =
    handle_message_again agent 1 "M-1" "email" "Where is my order?" start first result answers refl
      refl

-- A second question of the same kind changes no column of the conversation, so that its version is
-- not counted up and its event has the version that a third one would have.
abbrev second : Db
second = (handle_message agent 1 "M-2" "email" "And my invoice?" first).1

abbrev later : CustomerConversation
later = record conversation {
  version = 2;
  classification = some "AUTO_RESPOND";
  risk_level = some "low";
}

second_message_refused_example :
    (handle_message agent 1 "M-3" "email" "Hello?" second).0 ≡ err Error.integrity_error
unfolding handle_message receive_message settle classify classify_with_ai use_answer carry_out
    audit_message flush_conversation evaluate choose authorize record_usage emit create_event
    publish publish_to insert_event to_record new_id add_audit put
second_message_refused_example =
    second_message_refused agent 1 "M-3" "email" "Hello?" second later refl refl refl
      (λ e. omega (arith, e)) refl

-- A complaint whose answer waits for the approval of id 21.
abbrev drafted_message : CustomerMessage
drafted_message = record answered_message {
  approval_id = some 21;
  status = MessageStatus.draft;
  final_response = none;
  responded_at = none;
}

abbrev request : Approval
request = record {
  id = 21;
  action_type = "customer_response";
  resource_type = "customer_message";
  resource_id = 20;
  requested_payload = [];
  action_hash = 20;
  risk_level = "customer_communication";
  rule_name = "customer_response_review";
  rule_version = 1;
  status = ApprovalStatus.pending;
  requested_by = "customer-service-agent";
  requested_reason = "Customer response requires human review";
  decided_by = none;
  rationale = none;
  workflow_run_id = none;
  expires_at = some 87400;
  decided_at = none;
  resumed_at = none;
  created_at = 1000;
}

abbrev waiting : Db
waiting = record start { next_id = 22; messages = drafted_message ∷ []; approvals = request ∷ [] }

abbrev decision : Approval
decision = record request {
  status = ApprovalStatus.approved;
  decided_by = some "bob";
  rationale = some "Fine";
  decided_at = some 2000;
  resumed_at = some 2000;
}

abbrev after : Db
after = (approve agent.approval_engine 21 "bob" "Fine" (some 2000) waiting).1

grants : approve agent.approval_engine 21 "bob" "Fine" (some 2000) waiting ≡ (ok decision, after)
unfolding approve open_approval resume_action resume_workflow stamp_resumed audit_approval
    approve_response flush_conversation add_audit put
grants = refl

grant_sends_draft_example :
    (m : CustomerMessage) × (get 20 waiting.messages ≡ some m)
    × (m.status ≡ MessageStatus.draft)
    × (m.approval_id ≡ some 21)
    × (after.messages ≡ put (responded 1000 m) waiting.messages)
    × (get 20 after.messages ≡ some (responded 1000 m))
grant_sends_draft_example =
    grant_sends_draft agent.approval_engine 21 "bob" "Fine" (some 2000) waiting after request
      decision refl refl grants
