-- ===== src/Application/CustomerService/Outcomes.antt =====
-- How the classification of a message ends, and what it leaves alone.
use cax_commerce_operations.Prelude.{
  ℕ, ◌+◌, ◌≡◌, ◌⊎◌, ap, ◌∙◌, refl, String, true, false, some, List, [], ◌∷◌, inl, inr, arith, ◌==◌,
  Eq-string, Eq-nat, Option-cases, contains,
}
use cax_commerce_operations.Errors.{Result, ok, err, Result-cases}
use cax_commerce_operations.Persistence.Tables.{put, add}
use cax_commerce_operations.Persistence.Models.{Approval}
use cax_commerce_operations.Persistence.Conversations.{
  MessageStatus, CustomerServiceDecision, CustomerIntent, CustomerMessage, AgentRun,
  Eq-customer_intent, Eq-service_decision, HasId-agent_run,
}
use cax_commerce_operations.Agents.Usage.{record_usage}
use cax_commerce_operations.Agents.Answers.{CustomerServiceAiResponse, LlmResult}
use cax_commerce_operations.Application.CustomerService.Screen.{
  Verdict, choose, evaluate, is_high, is_blank, safe_auto_intents,
}
use cax_commerce_operations.Application.CustomerService.Handling.{
  CustomerServiceAgent, Case, ask, noted, carry_out, draft_for_approval, use_answer,
  classify_with_ai, classify, escalate, auto_respond, drafted, response_request, new_run, done,
}
use cax_commerce_operations.Approvals.Engine.{
  ApprovalEngine, ApprovalRequest, create_request, insert_request,
}
use cax_commerce_operations.Approvals.Engine.Request.{answering, create_request_answers}
use cax_commerce_operations.Session.{Db}
use cax_commerce_operations.Session.Actions.{bind_ok, pure, new_id}

-- An answer that may go out: a harmless question, which the model answers with confidence.
pub record IsHarmless (lower : String → String) (o : CustomerServiceAiResponse) : Type 0 where
  pub safe_intent : contains o.intent safe_auto_intents ≡ true
  pub auto_decision : o.decision ≡ CustomerServiceDecision.auto_respond
  pub low_risk : is_high (some (lower o.risk_level)) ≡ false
  pub has_text : is_blank o.generated_response ≡ false

decision_left :
    (d : CustomerServiceDecision)
    → (d == CustomerServiceDecision.human_escalation) ≡ false
    → (d == CustomerServiceDecision.draft_for_approval) ≡ false
    → d ≡ CustomerServiceDecision.auto_respond
decision_left CustomerServiceDecision.auto_respond h k = refl
decision_left CustomerServiceDecision.draft_for_approval h k = absurd (ground (arith, k))
decision_left CustomerServiceDecision.human_escalation h k = absurd (ground (arith, h))

choose_respond :
    (lower : String → String) (o : CustomerServiceAiResponse)
    → choose lower o ≡ Verdict.respond
    → IsHarmless lower o
unfolding choose
choose_respond lower o h = record {
  safe_intent = ground (arith, h);
  auto_decision = decision_left o.decision (ground (arith, h)) (ground (arith, h));
  low_risk = ground (arith, h);
  has_text = ground (arith, h);
}

-- The three ends of a message, where the model was asked, if it was, in the state `s`, and
-- `approvals` are the approvals on record in the end.
pub data Handled (agent : CustomerServiceAgent) (x : Case) (s : Db) (approvals : List Approval)
    (m : CustomerMessage) : Type 0 where
  to_human :
      m.classification ≡ some CustomerServiceDecision.human_escalation
      → m.status ≡ MessageStatus.received
      → m.final_response ≡ x.1.final_response
      → Handled agent x s approvals m
  to_draft :
      m.classification ≡ some CustomerServiceDecision.draft_for_approval
      → m.status ≡ MessageStatus.draft
      → m.final_response ≡ x.1.final_response
      → (a : Approval) → answering agent.approval_engine (response_request m) approvals ≡ some a
      → m.approval_id ≡ some a.id
      → Handled agent x s approvals m
  answered :
      (r : LlmResult)
      → m.classification ≡ some CustomerServiceDecision.auto_respond
      → m.status ≡ MessageStatus.approved
      → m.final_response ≡ r.output.generated_response
      → evaluate agent.search x.1.content x.0 ≡ []
      → ask agent x s ≡ ok r
      → IsHarmless agent.lower r.output
      → Handled agent x s approvals m

pub Handled-approvals :
    {agent : CustomerServiceAgent} {x : Case} {s : Db} {t t' : List Approval} {m : CustomerMessage}
    → t' ≡ t
    → Handled agent x s t m
    → Handled agent x s t' m
Handled-approvals same (Handled.to_human p q r) = Handled.to_human p q r
Handled-approvals {agent} {m = m} same (Handled.to_draft p q r a found own) =
    Handled.to_draft p q r a
      (ap (λ t. answering agent.approval_engine (response_request m) t) same ∙ found) own
Handled-approvals same (Handled.answered r p q t u v w) = Handled.answered r p q t u v w

-- The state in which the model is asked: its run has been added, if the screen has let the message
-- through.
abbrev pub Begins : CustomerServiceAgent → Case → Db → Db → Type 0
Begins agent x s start =
    (start ≡ s)
    ⊎ (start ≡ record s {
      next_id = s.next_id + 1;
      agent_runs = add (new_run s.next_id s.clock x.1.id agent.prompt_version) s.agent_runs;
    })

-- What a message keeps.
pub record SameMessage (m m' : CustomerMessage) : Type 0 where
  pub id : m'.id ≡ m.id
  pub conversation_id : m'.conversation_id ≡ m.conversation_id
  pub external_message_id : m'.external_message_id ≡ m.external_message_id
  pub channel : m'.channel ≡ m.channel
  pub content : m'.content ≡ m.content

-- A classification writes neither messages nor conversations nor events.
pub record Outcome (agent : CustomerServiceAgent) (x : Case) (start : Db) (y : Case) (s s' : Db)
    : Type 0 where
  pub handled : Handled agent x start s'.approvals y.1
  pub kept : SameMessage x.1 y.1
  pub conversation : y.0.id ≡ x.0.id
  pub messages : s'.messages ≡ s.messages
  pub conversations : s'.conversations ≡ s.conversations
  pub events : s'.events ≡ s.events

create_request_frame :
    (engine : ApprovalEngine) (name : String) (version : ℕ) (r : ApprovalRequest) (s : Db)
    → let s' = (create_request engine name version r s).1 in
      (s'.messages ≡ s.messages) × (s'.conversations ≡ s.conversations) × (s'.events ≡ s.events)
unfolding create_request insert_request
create_request_frame engine name version r s =
    elim (Option-cases (answering engine r s.approvals)) [
      | inl new ↦ (ground (arith, new), ground (arith, new), ground (arith, new))
      | inr (a, found) ↦ (ground (arith, found), ground (arith, found), ground (arith, found))
    ]

same_noted :
    (prompt_version : String) (r : LlmResult) (m : CustomerMessage)
    → SameMessage m (noted prompt_version r m)
same_noted prompt_version r m = record {
  id = refl;
  conversation_id = refl;
  external_message_id = refl;
  channel = refl;
  content = refl;
}

same_self : (m : CustomerMessage) → SameMessage m m
same_self m = record {
  id = refl;
  conversation_id = refl;
  external_message_id = refl;
  channel = refl;
  content = refl;
}

-- A case that is handed to a human, whatever the reasons.
escalated :
    (agent : CustomerServiceAgent) (x z : Case) (start s s' : Db) (reasons : List String)
    (intent : CustomerIntent)
    → SameMessage x.1 z.1
    → z.1.final_response ≡ x.1.final_response
    → z.0.id ≡ x.0.id
    → s'.messages ≡ s.messages
    → s'.conversations ≡ s.conversations
    → s'.events ≡ s.events
    → Outcome agent x start (escalate reasons intent z) s s'
escalated agent x z start s s' reasons intent same final c m cs ev = record {
  handled = Handled.to_human refl refl final;
  kept = record {
    id = same.id;
    conversation_id = same.conversation_id;
    external_message_id = same.external_message_id;
    channel = same.channel;
    content = same.content;
  };
  conversation = c;
  messages = m;
  conversations = cs;
  events = ev;
}

draft_cases :
    (agent : CustomerServiceAgent) (x z y : Case) (start s s' : Db)
    → SameMessage x.1 z.1
    → z.1.final_response ≡ x.1.final_response
    → z.0.id ≡ x.0.id
    → draft_for_approval agent.approval_engine z s ≡ (ok y, s')
    → Outcome agent x start y s s'
unfolding draft_for_approval
draft_cases agent x z y start s s' same final owner h =
    let engine = agent.approval_engine in
    let (a, made, rest) =
      bind_ok (create_request engine "customer_response_review" 1 (response_request z.1))
        (λ approval.
          let (c, m) = drafted z in pure (c, record m { approval_id = some approval.id }))
        y s s' h in
    let (ms, cs, ev) =
      create_request_frame engine "customer_response_review" 1 (response_request z.1) s in
    let (a', t, e, found) =
      create_request_answers engine "customer_response_review" 1 (response_request z.1) s in
    let same_row : a' ≡ a = ground (arith, made, e) in
    let same_end : (create_request engine "customer_response_review" 1 (response_request z.1) s).1
        ≡ t =
      ap (λ p. p.1) e in
    let (c, m) = drafted z in
    let result : y ≡ (c, record m { approval_id = some a.id }) = ground (arith, rest) in
    let state : s'
        ≡ (create_request engine "customer_response_review" 1 (response_request z.1) s).1 =
      ground (arith, rest) in
    rw (result, state)
      (record {
        handled =
            Handled.to_draft refl refl final a
              (ap (λ (d : Db). answering engine (response_request z.1) d.approvals) same_end
                ∙ found
                ∙ ap some same_row)
              refl;
        kept = record {
          id = same.id;
          conversation_id = same.conversation_id;
          external_message_id = same.external_message_id;
          channel = same.channel;
          content = same.content;
        };
        conversation = owner;
        messages = ms;
        conversations = cs;
        events = ev;
      })

Verdict-cases :
    (v : Verdict)
    → ((reason : String) × (v ≡ Verdict.escalate reason))
      ⊎ (v ≡ Verdict.draft)
      ⊎ (v ≡ Verdict.respond)
Verdict-cases (Verdict.escalate reason) = inl (reason, refl)
Verdict-cases Verdict.draft = inr (inl refl)
Verdict-cases Verdict.respond = inr (inr refl)

-- The last step, once the model has answered.
carried :
    (agent : CustomerServiceAgent) (x : Case) (r : LlmResult) (start : Db) (y : Case) (s s' : Db)
    → evaluate agent.search x.1.content x.0 ≡ []
    → ask agent x start ≡ ok r
    → carry_out agent r.output.intent
        (choose agent.lower r.output)
        (x.0, noted agent.prompt_version r x.1)
        s
      ≡ (ok y, s')
    → Outcome agent x start y s s'
unfolding carry_out
carried agent x r start y s s' clear answer h =
    let z : Case = (x.0, noted agent.prompt_version r x.1) in
    elim (Verdict-cases (choose agent.lower r.output)) [
      | inl (reason, e) ↦
          let result : y ≡ escalate (reason ∷ []) r.output.intent z = ground (arith, e, h) in
          let state : s' ≡ s = ground (arith, e, h) in
          rw (result, state)
            (escalated agent x z start s s (reason ∷ []) r.output.intent
              (same_noted agent.prompt_version r x.1) refl refl refl refl refl)
      | inr (inl e) ↦
          draft_cases agent x z y start s s' (same_noted agent.prompt_version r x.1) refl refl
            (ground (arith, e, h))
      | inr (inr e) ↦
          let result : y ≡ auto_respond s.clock z = ground (arith, e, h) in
          let state : s' ≡ s = ground (arith, e, h) in
          rw (result, state)
            (record {
              handled =
                  Handled.answered r refl refl refl clear answer
                    (choose_respond agent.lower r.output e);
              kept = record {
                id = refl;
                conversation_id = refl;
                external_message_id = refl;
                channel = refl;
                content = refl;
              };
              conversation = refl;
              messages = refl;
              conversations = refl;
              events = refl;
            })
    ]

used :
    (agent : CustomerServiceAgent) (run : AgentRun) (x : Case) (answer : Result LlmResult)
    (start : Db) (y : Case) (s s' : Db)
    → evaluate agent.search x.1.content x.0 ≡ []
    → ask agent x start ≡ answer
    → use_answer agent run x answer s ≡ (ok y, s')
    → Outcome agent x start y s s'
unfolding use_answer
used agent run x (err e) start y s s' clear answer h =
    let reasons = "ai_processing_failure" ∷ [] in
    let result : y ≡ escalate reasons CustomerIntent.unknown x = ground (arith, h) in
    rw result (
      escalated agent x x start s s' reasons CustomerIntent.unknown (same_self x.1) refl refl
        (ground (arith, h)) (ground (arith, h)) (ground (arith, h)))
used agent run x (ok r) start y s s' clear answer h =
    elim (Result-cases (record_usage r.usage (done run r))) [
      | inr (e, bad) ↦ absurd (ground (arith, bad, h))
      | inl (counted, good) ↦
          let s₁ : Db = record s { agent_runs = put counted s.agent_runs } in
          let o = carried agent x r start y s₁ s' clear answer (ground (arith, good, h)) in
          record {
            handled = o.handled;
            kept = o.kept;
            conversation = o.conversation;
            messages = o.messages;
            conversations = o.conversations;
            events = o.events;
          }
    ]

screened :
    (risks : List String) → (risks ≡ []) ⊎ ((r : String) × (t : List String) × (risks ≡ r ∷ t))
screened [] = inl refl
screened (r ∷ t) = inr (r, t, refl)

-- The classification of a message by the screen and the model.
pub classified :
    (agent : CustomerServiceAgent) (x y : Case) (s s' : Db)
    → classify agent x s ≡ (ok y, s')
    → (start : Db) × Begins agent x s start × Outcome agent x start y s s'
unfolding classify classify_with_ai new_id
classified agent x y s s' h = elim (screened (evaluate agent.search x.1.content x.0)) [
  | inr (e, t, risky) ↦
      let risks = evaluate agent.search x.1.content x.0 in
      let result : y ≡ escalate risks CustomerIntent.unknown x = ground (arith, risky, h) in
      let state : s' ≡ s = ground (arith, risky, h) in
      (
        s,
        inl refl,
        rw (result, state)
            (escalated agent x x s s s risks CustomerIntent.unknown (same_self x.1) refl refl refl
              refl refl),
      )
  | inl clear ↦
      let run = new_run s.next_id s.clock x.1.id agent.prompt_version in
      let s₁ : Db = record s { next_id = s.next_id + 1; agent_runs = add run s.agent_runs } in
      let o = used agent run x (ask agent x s₁) s₁ y s₁ s' clear refl (ground (arith, clear, h)) in
      (
        s₁,
        inr refl,
        record {
          handled = o.handled;
          kept = o.kept;
          conversation = o.conversation;
          messages = o.messages;
          conversations = o.conversations;
          events = o.events;
        },
      )
]
