-- ===== src/Application/CustomerService/Safety.antt =====
-- What may be answered without a human, and what becomes of every message.
use cax_commerce_operations.Prelude.{
  ℕ, ◌+◌, ◌≡◌, refl, String, Bool, true, false, none, some, List, [], ◌∷◌, inl, inr, arith,
  Eq-string, Eq-nat, Eq-option, Bool-cases, Option-cases, find, eq_self, if◌then◌else◌,
}
use cax_commerce_operations.Errors.{ok, Result-cases}
use cax_commerce_operations.Persistence.Tables.{get, put, add, get-id}
use cax_commerce_operations.Persistence.Models.{DomainEvent}
use cax_commerce_operations.Persistence.Conversations.{
  CustomerConversation, CustomerMessage, HasId-conversation, HasId-message,
}
use cax_commerce_operations.Application.CustomerService.Handling.{
  CustomerServiceAgent, CustomerServiceResult, Case, classify, settle, same_columns,
  flush_conversation, audit_message,
}
use cax_commerce_operations.Application.CustomerService.Outcomes.{
  Handled, Handled-approvals, Begins, SameMessage, classified,
}
use cax_commerce_operations.Application.CustomerService.Inbox.{
  has_external, new_message, announce_message, receive_message, handle_message,
}
use cax_commerce_operations.Events.Store.Emit.{emit_frame}
use cax_commerce_operations.Persistence.Keys.{Key, CorrelationId}
use cax_commerce_operations.Events.Types.{EventPayload}
use cax_commerce_operations.Session.{Db}
use cax_commerce_operations.Session.Actions.{add_audit, new_id}

-- What `settle` leaves: the message of the outcome is stored, and the conversation if it changed.
pub record Settled (agent : CustomerServiceAgent) (x : Case) (m : CustomerMessage) (s s' : Db)
    : Type 0 where
  pub start : Db
  pub begins : Begins agent x s start
  pub handled : Handled agent x start s'.approvals m
  pub kept : SameMessage x.1 m
  pub after : CustomerConversation
  pub owner : after.id ≡ x.0.id
  pub messages : s'.messages ≡ put m s.messages
  pub events : s'.events ≡ s.events
  pub conversations : s'.conversations ≡ (
      if same_columns x.0 after
      then s.conversations
      else put (record after { version = x.0.version + 1 }) s.conversations)

pub settled :
    (agent : CustomerServiceAgent) (x : Case) (m : CustomerMessage) (s s' : Db)
    → settle agent x s ≡ (ok m, s')
    → Settled agent x m s s'
unfolding settle flush_conversation audit_message add_audit
settled agent x m s s' h = elim (Result-cases (classify agent x s).0) [
  | inr (e, bad) ↦ absurd (ground (arith, bad, h))
  | inl (y, good) ↦
      let s₁ = (classify agent x s).1 in
      let (start, begins, o) = classified agent x y s s₁ (ground (arith, good)) in
      elim (Bool-cases (same_columns x.0 y.0)) [
        | inl same ↦
            let result : m ≡ y.1 = ground (arith, good, same, h) in
            rw (result) (record {
              start = start;
              begins = begins;
              handled = Handled-approvals (ground (arith, good, same, h)) o.handled;
              kept = o.kept;
              after = y.0;
              owner = o.conversation;
              messages = ground (arith, good, same, h, o.messages);
              events = ground (arith, good, same, h, o.events);
              conversations = ground (arith, good, same, h, o.conversations);
            })
        | inr changed ↦
            let result : m ≡ y.1 = ground (arith, good, changed, h) in
            rw (result) (record {
              start = start;
              begins = begins;
              handled = Handled-approvals (ground (arith, good, changed, h)) o.handled;
              kept = o.kept;
              after = y.0;
              owner = o.conversation;
              messages = ground (arith, good, changed, h, o.messages);
              events = ground (arith, good, changed, h, o.events);
              conversations = ground (arith, good, changed, h, o.conversations);
            })
      ]
]

-- A new last row that is written again is what is searched for.
find_last_written :
    (p : CustomerMessage → Bool) (m n : CustomerMessage) (t : List CustomerMessage)
    → find p t ≡ none
    → get m.id t ≡ none
    → n.id ≡ m.id
    → p m ≡ true
    → find p (put m (add n t)) ≡ some m
unfolding put
find_last_written p m n [] none_yet fresh same holds = ground (arith, same, holds)
find_last_written p m n (x ∷ t) none_yet fresh same holds =
    ground (arith, none_yet, fresh, same, holds, find_last_written p m n t)

-- What a message that was not stored before leaves.
pub record Receipt (agent : CustomerServiceAgent) (conversation_id : ℕ)
    (external_message_id channel content : String) (s : Db) (res : CustomerServiceResult) (s' : Db)
    : Type 0 where
  pub conversation : CustomerConversation
  pub owner : get conversation_id s.conversations ≡ some conversation
  -- The state after the event of the message, and the one in which the model is asked.
  pub announced : Db
  pub sent :
      (n : ℕ) × (events : List DomainEvent) × (announced ≡ record s {
        next_id = n;
        messages =
            add
              (new_message s.next_id conversation.id external_message_id channel content)
              s.messages;
        events = events;
      })
  pub start : Db
  pub begins :
      Begins agent
        (conversation, new_message s.next_id conversation.id external_message_id channel content)
        announced
        start
  pub handled :
      Handled agent
        (conversation, new_message s.next_id conversation.id external_message_id channel content)
        start
        s'.approvals
        res.message
  pub kept :
      SameMessage
        (new_message s.next_id conversation.id external_message_id channel content)
        res.message
  pub first : res.duplicate ≡ false
  pub messages :
      s'.messages
      ≡ put res.message (
          add
            (new_message s.next_id conversation.id external_message_id channel content)
            s.messages)

received :
    (agent : CustomerServiceAgent) (conversation_id : ℕ)
    (external_message_id channel content : String) (s s' : Db) (res : CustomerServiceResult)
    → receive_message agent conversation_id external_message_id channel content s ≡ (ok res, s')
    → Receipt agent conversation_id external_message_id channel content s res s'
unfolding receive_message new_id
received agent conversation_id external_message_id channel content s s' res h =
    elim (Option-cases (get conversation_id s.conversations)) [
      | inl missing ↦ absurd (ground (arith, missing, h))
      | inr (c, found) ↦
          let m = new_message s.next_id c.id external_message_id channel content in
          let s₁ : Db = record s { next_id = s.next_id + 1; messages = add m s.messages } in
          elim (Result-cases (announce_message c m s₁).0) [
            | inr (e, bad) ↦ absurd (ground (arith, found, bad, h))
            | inl (u, sent) ↦
                let s₂ = (announce_message c m s₁).1 in
                elim (Result-cases (settle agent (c, m) s₂).0) [
                  | inr (e, bad) ↦ absurd (ground (arith, found, sent, bad, h))
                  | inl (y, good) ↦
                      let s₃ = (settle agent (c, m) s₂).1 in
                      let left = settled agent (c, m) y s₂ s₃ (ground (arith, good)) in
                      let (n, t, sent_frame) =
                        emit_frame (EventPayload.customer_message_received c.id m.id channel)
                          "customer_conversation" c.id c.version (CorrelationId.of_row c.id) none
                          (Key.of_id "customer-message-received" m.id) s₁ in
                      let result : res ≡ record { message = y; duplicate = false } =
                        ground (arith, found, sent, good, h) in
                      let state : s' ≡ s₃ = ground (arith, found, sent, good, h) in
                      rw (result, state)
                        (record {
                          conversation = c;
                          owner = found;
                          announced = s₂;
                          sent = (n, t, sent_frame);
                          start = left.start;
                          begins = left.begins;
                          handled = left.handled;
                          kept = left.kept;
                          first = refl;
                          messages = ground (arith, sent_frame, left.messages);
                        })
                ]
          ]
    ]

-- A message that was taken in and is delivered again, with the same text over the same channel, is
-- recognised: the stored message is returned as a duplicate, and nothing is written, so it is not
-- answered twice. Its id had not been given out to another message.
pub handle_message_again :
    (agent : CustomerServiceAgent) (conversation_id : ℕ)
    (external_message_id channel content : String) (s s' : Db) (res : CustomerServiceResult)
    → handle_message agent conversation_id external_message_id channel content s ≡ (ok res, s')
    → find (has_external conversation_id external_message_id) s.messages ≡ none
    → get s.next_id s.messages ≡ none
    → handle_message agent conversation_id external_message_id channel content s'
      ≡ (ok (record { message = res.message; duplicate = true }), s')
unfolding handle_message
handle_message_again agent conversation_id external_message_id channel content s s' res h unseen
      fresh =
    let r =
      received agent conversation_id external_message_id channel content s s' res
        (ground (arith, unseen, h)) in
    let n = new_message s.next_id r.conversation.id external_message_id channel content in
    let own : r.conversation.id ≡ conversation_id =
      get-id conversation_id r.conversation s.conversations r.owner in
    let again =
      find_last_written (has_external conversation_id external_message_id) res.message n s.messages
        unseen (ground (arith, fresh, r.kept.id)) (ground (arith, r.kept.id))
        (ground (
          arith,
          r.kept.conversation_id,
          r.kept.external_message_id,
          own,
          eq_self external_message_id,
        )) in
    ground
      (arith, r.messages, again, r.kept.content, r.kept.channel, eq_self content, eq_self channel)
