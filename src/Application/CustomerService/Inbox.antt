-- ===== src/Application/CustomerService/Inbox.antt =====
-- src/commerce_operations/application/customer_service.py: the entry points, for a message that
-- comes in, for its event, and for the approval of a drafted answer.
use cax_commerce_operations.Prelude.{
  ℕ, String, Bool, true, false, not, ◌&&◌, ◌||◌, none, some, [], ◌==◌, Eq-nat, Eq-string, Eq-option,
  find, is_some, if◌then◌else◌,
}
use cax_commerce_operations.Errors.{Error, Result, ok, err}
use cax_commerce_operations.Persistence.Enums.{ApprovalStatus, Eq-approval_status}
use cax_commerce_operations.Persistence.Keys.{Key, CorrelationId}
use cax_commerce_operations.Persistence.Tables.{get, add}
use cax_commerce_operations.Persistence.Conversations.{
  ConversationStatus, MessageDirection, MessageStatus, CustomerConversation, CustomerMessage,
  Eq-conversation_status, Eq-message_status, HasId-conversation, HasId-message,
}
use cax_commerce_operations.Approvals.Policy.{ApprovalActionType, value}
use cax_commerce_operations.Approvals.Engine.{ActionRegistry, ResumeHandler, register_action}
use cax_commerce_operations.Events.Types.{EventPayload}
use cax_commerce_operations.Events.Store.{EventEnvelope, emit}
use cax_commerce_operations.Application.CustomerService.Handling.{
  CustomerServiceAgent, CustomerServiceResult, write_message, flush_conversation, settle,
}
use cax_commerce_operations.Session.{Action}
use cax_commerce_operations.Session.Actions.{
  pure, raise, gets, lift, or_raise, raise_if, modify, new_id, ◌>>=◌, ◌>>◌,
}

-- The message of a conversation with an external id.
abbrev pub has_external : ℕ → String → CustomerMessage → Bool
has_external conversation_id external_message_id m =
    m.conversation_id == conversation_id && m.external_message_id == some external_message_id

abbrev pub new_message : ℕ → ℕ → String → String → String → CustomerMessage
new_message id conversation_id external_message_id channel content = record {
  id = id;
  conversation_id = conversation_id;
  approval_id = none;
  external_message_id = some external_message_id;
  direction = MessageDirection.inbound;
  channel = channel;
  content = content;
  author_type = "customer";
  status = MessageStatus.received;
  intent = none;
  classification = none;
  risk_level = none;
  risk_reasons = [];
  generated_response = none;
  final_response = none;
  structured_ai_response = none;
  prompt_version = none;
  ai_provider = none;
  ai_model = none;
  input_tokens = 0;
  output_tokens = 0;
  ai_cost_amount = 0;
  ai_cost_currency = none;
  responded_at = none;
}

-- The event of a message, with the version that the conversation had when it was read.
abbrev pub announce_message : CustomerConversation → CustomerMessage → Action (Unit {0})
announce_message conversation m =
    emit (EventPayload.customer_message_received conversation.id m.id m.channel)
      "customer_conversation" conversation.id conversation.version
      (CorrelationId.of_row conversation.id) none (Key.of_id "customer-message-received" m.id)

-- The part of `handle_message` for a message that is not stored yet.
unfoldable pub receive_message :
    CustomerServiceAgent → ℕ → String → String → String → Action CustomerServiceResult
unfolding new_id
receive_message agent conversation_id external_message_id channel content = do
  conversation ←
      (λ s. or_raise (get conversation_id s.conversations) Error.conversation_not_found s)
  id ← new_id
  let m = new_message id conversation.id external_message_id channel content
  modify (λ s. record s { messages = add m s.messages })
  announce_message conversation m
  settled ← settle agent (conversation, m)
  pure (record { message = settled; duplicate = false })

-- `CustomerServiceAgent.handle_message`
unfoldable pub handle_message :
    CustomerServiceAgent → ℕ → String → String → String → Action CustomerServiceResult
handle_message agent conversation_id external_message_id channel content = do
  existing ← gets (λ s. find (has_external conversation_id external_message_id) s.messages)
  elim existing [
    | none ↦ receive_message agent conversation_id external_message_id channel content
    | some m ↦
        if not (m.content == content) || not (m.channel == channel)
        then raise Error.customer_message_conflict
        else pure (record { message = m; duplicate = true })
  ]

-- `model_validate` of the event's payload: the ids of the conversation and the message.
abbrev pub read_received : EventPayload → Result (ℕ × ℕ)
read_received (EventPayload.customer_message_received conversation_id message_id channel) =
    ok (conversation_id, message_id)
read_received _ = err Error.validation_error

-- `CustomerServiceAgent.process_received_event`
unfoldable pub process_received_event :
    CustomerServiceAgent → EventEnvelope → Action CustomerMessage
process_received_event agent event = do
  ids ← lift (read_received event.body)
  m ← (λ s. or_raise (get ids.1 s.messages) Error.conversation_not_found s)
  raise_if (not (m.conversation_id == ids.0)) Error.conversation_not_found
  if is_some m.classification then pure m else do
    conversation ← (λ s. or_raise (get m.conversation_id s.conversations) Error.attribute_error s)
    settle agent (conversation, m)

abbrev pub responded : ℕ → CustomerMessage → CustomerMessage
responded now m = record m {
  final_response = m.generated_response;
  status = MessageStatus.approved;
  responded_at = some now;
}

-- `CustomerResponseApprovalService.approve_response`
unfoldable pub approve_response : ResumeHandler
unfolding flush_conversation
approve_response approval = do
  raise_if (not (approval.resource_type == "customer_message")) Error.customer_response_approval
  m ← (λ s. or_raise (get approval.resource_id s.messages) Error.customer_response_approval s)
  raise_if (not (m.approval_id == some approval.id) || not (m.status == MessageStatus.draft))
      Error.customer_response_approval
  raise_if (not (approval.status == ApprovalStatus.approved)) Error.customer_response_approval
  now ← gets (λ s. s.clock)
  write_message (responded now m)
  conversation ← (λ s. or_raise (get m.conversation_id s.conversations) Error.attribute_error s)
  flush_conversation conversation (record conversation { status = ConversationStatus.open_ })

-- `register_customer_response_approval_handler`
abbrev pub register_customer_response_approval_handler : ActionRegistry → Result ActionRegistry
register_customer_response_approval_handler registry =
    register_action (value ApprovalActionType.customer_response) approve_response registry
