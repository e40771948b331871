-- ===== src/Persistence/Conversations.antt =====
-- src/commerce_operations/persistence/models.py: conversations with customers, their messages, and
-- the runs of the agents that answer them.
use cax_commerce_operations.Prelude.{ℕ, String, ◌≡◌, ◌↔◌, true, Option, List, arith, Eq, nat_eq}
use cax_commerce_operations.Persistence.Enums.{RunStatus}
use cax_commerce_operations.Persistence.Json.{Object}
use cax_commerce_operations.Persistence.Tables.{HasId}

pub data ConversationStatus : Type 0 where
  open_ awaiting_approval escalated closed : ConversationStatus

pub data MessageDirection : Type 0 where
  inbound outbound : MessageDirection

pub data MessageStatus : Type 0 where
  received draft approved sent failed : MessageStatus

pub data CustomerServiceDecision : Type 0 where
  auto_respond draft_for_approval human_escalation : CustomerServiceDecision

pub data CustomerIntent : Type 0 where
  product_enquiry order_status delivery_question return_request refund_enquiry complaint
        common_marketplace_message unknown :
      CustomerIntent

abbrev pub conversation_code : ConversationStatus → ℕ
conversation_code ConversationStatus.open_ = 0
conversation_code ConversationStatus.awaiting_approval = 1
conversation_code ConversationStatus.escalated = 2
conversation_code ConversationStatus.closed = 3

abbrev pub message_code : MessageStatus → ℕ
message_code MessageStatus.received = 0
message_code MessageStatus.draft = 1
message_code MessageStatus.approved = 2
message_code MessageStatus.sent = 3
message_code MessageStatus.failed = 4

abbrev pub decision_code : CustomerServiceDecision → ℕ
decision_code CustomerServiceDecision.auto_respond = 0
decision_code CustomerServiceDecision.draft_for_approval = 1
decision_code CustomerServiceDecision.human_escalation = 2

abbrev pub intent_code : CustomerIntent → ℕ
intent_code CustomerIntent.product_enquiry = 0
intent_code CustomerIntent.order_status = 1
intent_code CustomerIntent.delivery_question = 2
intent_code CustomerIntent.return_request = 3
intent_code CustomerIntent.refund_enquiry = 4
intent_code CustomerIntent.complaint = 5
intent_code CustomerIntent.common_marketplace_message = 6
intent_code CustomerIntent.unknown = 7

pub message_eq_iff :
    (a b : MessageStatus) → (nat_eq (message_code a) (message_code b) ≡ true) ↔ (a ≡ b)
message_eq_iff a b = ground arith

pub decision_eq_iff :
    (a b : CustomerServiceDecision) → (nat_eq (decision_code a) (decision_code b) ≡ true) ↔ (a ≡ b)
decision_eq_iff a b = ground arith

pub intent_eq_iff :
    (a b : CustomerIntent) → (nat_eq (intent_code a) (intent_code b) ≡ true) ↔ (a ≡ b)
intent_eq_iff a b = ground arith

pub conversation_eq_iff :
    (a b : ConversationStatus)
    → (nat_eq (conversation_code a) (conversation_code b) ≡ true) ↔ (a ≡ b)
conversation_eq_iff a b = ground arith

instance abbrev pub Eq-conversation_status : Eq ConversationStatus
Eq-conversation_status = record {
  beq = λ a b. nat_eq (conversation_code a) (conversation_code b);
  beq_iff = conversation_eq_iff;
}

instance abbrev pub Eq-message_status : Eq MessageStatus
Eq-message_status = record {
  beq = λ a b. nat_eq (message_code a) (message_code b);
  beq_iff = message_eq_iff;
}

instance abbrev pub Eq-service_decision : Eq CustomerServiceDecision
Eq-service_decision = record {
  beq = λ a b. nat_eq (decision_code a) (decision_code b);
  beq_iff = decision_eq_iff;
}

instance abbrev pub Eq-customer_intent : Eq CustomerIntent
Eq-customer_intent = record {
  beq = λ a b. nat_eq (intent_code a) (intent_code b);
  beq_iff = intent_eq_iff;
}

pub record CustomerConversation : Type 0 where
  pub id : ℕ
  pub version : ℕ
  pub order_id : Option ℕ
  pub product_id : Option ℕ
  pub marketplace : String
  pub classification : Option String
  pub risk_level : Option String
  pub status : ConversationStatus
  pub assignee : Option String

pub record CustomerMessage : Type 0 where
  pub id : ℕ
  pub conversation_id : ℕ
  pub approval_id : Option ℕ
  pub external_message_id : Option String
  pub direction : MessageDirection
  pub channel : String
  pub content : String
  pub author_type : String
  pub status : MessageStatus
  pub intent : Option CustomerIntent
  pub classification : Option CustomerServiceDecision
  pub risk_level : Option String
  pub risk_reasons : List String
  pub generated_response : Option String
  pub final_response : Option String
  pub structured_ai_response : Option Object
  pub prompt_version : Option String
  pub ai_provider : Option String
  pub ai_model : Option String
  pub input_tokens : ℕ
  pub output_tokens : ℕ
  pub ai_cost_amount : ℕ
  pub ai_cost_currency : Option String
  pub responded_at : Option ℕ

pub record AgentRun : Type 0 where
  pub id : ℕ
  pub workflow_run_id : Option ℕ
  pub agent_type : String
  pub status : RunStatus
  pub input_reference : Option ℕ
  pub output_reference : Option ℕ
  pub provider : Option String
  pub model : Option String
  pub prompt_version : Option String
  pub input_tokens : ℕ
  pub output_tokens : ℕ
  pub cost_amount : ℕ
  pub cost_currency : Option String
  pub safety_result : Object
  pub error : Option Object
  pub created_at : ℕ

instance abbrev pub HasId-conversation : HasId CustomerConversation
HasId-conversation = record { id_of = λ r. r.id }

instance abbrev pub HasId-message : HasId CustomerMessage
HasId-message = record { id_of = λ r. r.id }

instance abbrev pub HasId-agent_run : HasId AgentRun
HasId-agent_run = record { id_of = λ r. r.id }
