-- ===== src/Application/CustomerService/Replies.antt =====
-- What the approval of a drafted answer sends, and what a second message of one conversation
-- version meets.
use cax_commerce_operations.Prelude.{
  ℕ, ◌+◌, List, [], ◌∷◌, ◌≡◌, ◌≢◌, refl, String, Bool, true, not, ◌&&◌, ◌||◌, Option, none, some,
  inl, inr, arith, ◌==◌, Eq-string, Eq-nat, Eq-option, Bool-cases, Option-cases, find, any, or_else,
}
use cax_commerce_operations.Errors.{Error, ok, err}
use cax_commerce_operations.Persistence.Enums.{Eq-approval_status}
use cax_commerce_operations.Persistence.Keys.{CorrelationId, Key, Eq-key}
use cax_commerce_operations.Persistence.Tables.{get, put, get-put_self}
use cax_commerce_operations.Persistence.Models.{Approval, DomainEvent, HasId-approval}
use cax_commerce_operations.Persistence.Conversations.{
  MessageStatus, CustomerConversation, CustomerMessage, HasId-conversation, HasId-message,
  Eq-message_status,
}
use cax_commerce_operations.Events.Types.{EventPayload, EventType, Eq-event_type}
use cax_commerce_operations.Events.Store.{
  EventEnvelope, conflicts, to_record, with_key, publish, create_event, emit,
}
use cax_commerce_operations.Approvals.Engine.{ApprovalEngine, registered, approve}
use cax_commerce_operations.Approvals.Engine.Carry.{granted, saved, approve_runs}
use cax_commerce_operations.Application.CustomerService.Handling.{
  CustomerServiceAgent, flush_conversation,
}
use cax_commerce_operations.Application.CustomerService.Inbox.{
  has_external, handle_message, receive_message, responded, approve_response,
}
use cax_commerce_operations.Session.{Db}
use cax_commerce_operations.Session.Actions.{new_id}

-- What the handler found and wrote.
record Sent (a : Approval) (m : CustomerMessage) (s s' : Db) : Type 0 where
  found : get a.resource_id s.messages ≡ some m
  named : m.approval_id ≡ some a.id
  was_draft : m.status ≡ MessageStatus.draft
  written : s'.messages ≡ put (responded s.clock m) s.messages

approve_response_sends :
    (a : Approval) (s s' : Db)
    → approve_response a s ≡ (ok tt, s')
    → (m : CustomerMessage) × Sent a m s s'
unfolding approve_response flush_conversation
approve_response_sends a s s' h = elim (Option-cases (get a.resource_id s.messages)) [
  | inl missing ↦ absurd (ground (arith, missing, h))
  | inr (m, found) ↦
      elim (Bool-cases
        (not (m.approval_id == some a.id) || not (m.status == MessageStatus.draft))) [
          | inl bad ↦ absurd (ground (arith, found, bad, h))
          | inr good ↦ elim (Option-cases (get m.conversation_id s.conversations)) [
            | inl lost ↦ absurd (ground (arith, found, good, lost, h))
            | inr (c, here) ↦ (
              m,
              record {
                found = found;
                named = ground (arith, good, Eq-option.beq_iff m.approval_id (some a.id));
                was_draft =
                    ground (arith, good, Eq-message_status.beq_iff m.status MessageStatus.draft);
                written = ground (arith, found, good, here, h);
              },
            )
          ]
        ]
]

-- An approval of a drafted answer that is granted sends the draft that waits for it: the message had
-- the status draft and the id of that approval, and afterwards it is approved, with the generated
-- text as its final one and the time of the grant. The handler of answers is registered.
pub grant_sends_draft :
    (engine : ApprovalEngine) (id : ℕ) (approver reason : String) (at : Option ℕ) (s s' : Db)
    (a b : Approval)
    → get id s.approvals ≡ some a
    → registered a.action_type engine.action_registry ≡ some approve_response
    → approve engine id approver reason at s ≡ (ok b, s')
    → (m : CustomerMessage) × (get a.resource_id s.messages ≡ some m)
      × (m.status ≡ MessageStatus.draft)
      × (m.approval_id ≡ some a.id)
      × (s'.messages ≡ put (responded s.clock m) s.messages)
      × (get a.resource_id s'.messages ≡ some (responded s.clock m))
grant_sends_draft engine id approver reason at s s' a b found handler h =
    let c = granted approver reason (or_else at s.clock) a in
    let (after, called, (w, t, u, kept)) =
      approve_runs engine approve_response id approver reason at s s' a b found handler h in
    let (m, sent) = approve_response_sends c (saved c s) after called in
    let written : s'.messages ≡ put (responded s.clock m) s.messages =
      ground (arith, kept, sent.written) in
    (
      m,
      sent.found,
      sent.was_draft,
      sent.named,
      written,
      ground (
        arith,
        written,
        get-put_self a.resource_id (responded s.clock m) m s.messages sent.found refl,
      ),
    )

-- The conversation already has an event of this kind for its version.
abbrev pub is_announced : CustomerConversation → DomainEvent → Bool
is_announced c r =
    "customer_conversation" == r.aggregate_type
    && c.id == r.aggregate_id
    && c.version == r.aggregate_version
    && EventType.customer_message_received == r.event_type

-- An event of the same kind and version is kept out.
announced_conflict :
    (c : CustomerConversation) (r : DomainEvent) (t : List DomainEvent)
    → r.aggregate_type ≡ "customer_conversation"
    → r.aggregate_id ≡ c.id
    → r.aggregate_version ≡ c.version
    → r.event_type ≡ EventType.customer_message_received
    → any (is_announced c) t ≡ true
    → any (conflicts r) t ≡ true
announced_conflict c r [] kind id version type h = absurd (ground (arith, h))
announced_conflict c r (x ∷ t) kind id version type h = elim (Bool-cases (is_announced c x)) [
  | inl same ↦ ground (arith, kind, id, version, type, same)
  | inr other ↦
      let rest = announced_conflict c r t kind id version type (ground (arith, other, h)) in
      ground (arith, rest)
]

-- A message of a conversation whose version an event of an earlier message has is refused: the call
-- raises the violation of the unique constraint on events, whatever the message says. The message
-- is new, and no event has its key.
pub second_message_refused :
    (agent : CustomerServiceAgent) (conversation_id : ℕ)
    (external_message_id channel content : String) (s : Db) (c : CustomerConversation)
    → get conversation_id s.conversations ≡ some c
    → find (has_external conversation_id external_message_id) s.messages ≡ none
    → with_key (Key.of_id "customer-message-received" s.next_id) s.events ≡ none
    → c.version ≢ 0
    → any (is_announced c) s.events ≡ true
    → (handle_message agent conversation_id external_message_id channel content s).0
      ≡ err Error.integrity_error
unfolding handle_message receive_message new_id emit create_event publish to_record
second_message_refused agent conversation_id external_message_id channel content s c found unseen
      fresh counted announced =
    let e : EventEnvelope = record {
      event_id = s.next_id + 1;
      event_type = EventType.customer_message_received;
      event_version = 1;
      occurred_at = s.clock;
      producer = "commerce-operations";
      aggregate_type = "customer_conversation";
      aggregate_id = c.id;
      aggregate_version = c.version;
      correlation_id = CorrelationId.of_row c.id;
      workflow_id = none;
      causation_id = none;
      idempotency_key = Key.of_id "customer-message-received" s.next_id;
      body = EventPayload.customer_message_received c.id s.next_id channel;
    } in
    let clash = announced_conflict c (to_record e) s.events refl refl refl refl announced in
    ground (arith, found, unseen, fresh, counted, clash)
