-- ===== src/Application/CustomerService/Screen.antt =====
-- src/commerce_operations/application/customer_service.py: the rules that decide who answers a
-- message, a human or the language model.
use cax_commerce_operations.Prelude.{
  String, Bool, true, false, ◌||◌, Option, none, some, List, [], ◌∷◌, ◌++◌, ◌==◌, Eq-string,
  Eq-option, contains, filter, if◌then◌else◌,
}
use cax_commerce_operations.Persistence.Conversations.{
  CustomerConversation, CustomerIntent, CustomerServiceDecision, Eq-customer_intent,
  Eq-service_decision,
}
use cax_commerce_operations.Agents.Answers.{CustomerServiceAiResponse}

-- The names of `CustomerRiskScreen.rules`.
abbrev pub rules : List String
rules =
    "legal_threat" ∷ "dispute" ∷ "suspected_fraud" ∷ "abusive_or_threatening" ∷ "unusual_refund"
    ∷ []

abbrev existing_risk : String
existing_risk = "existing_high_risk_conversation"

-- Every reason, in the order of `sorted`.
abbrev pub alphabet : List String
alphabet =
    "abusive_or_threatening" ∷ "dispute" ∷ existing_risk ∷ "legal_threat" ∷ "suspected_fraud"
    ∷ "unusual_refund" ∷ []

abbrev pub is_high : Option String → Bool
is_high none = false
is_high (some risk) = contains risk ("high" ∷ "critical" ∷ [])

-- `CustomerRiskScreen.evaluate`. `search` says whether the pattern of a rule is found in a text.
unfoldable pub evaluate : (String → String → Bool) → String → CustomerConversation → List String
evaluate search content conversation =
    let reasons =
      filter (λ name. search name content) rules
      ++ (if is_high conversation.risk_level then existing_risk ∷ [] else []) in
    filter (λ name. contains name reasons) alphabet

abbrev pub safe_auto_intents : List CustomerIntent
safe_auto_intents =
    CustomerIntent.product_enquiry ∷ CustomerIntent.order_status ∷ CustomerIntent.delivery_question
    ∷ CustomerIntent.common_marketplace_message ∷ []

abbrev pub approval_intents : List CustomerIntent
approval_intents =
    CustomerIntent.return_request ∷ CustomerIntent.refund_enquiry ∷ CustomerIntent.complaint ∷ []

-- Which of `_escalate`, `_draft_for_approval` and `_auto_respond` handles an answer.
pub data Verdict : Type 0 where
  escalate : String → Verdict
  draft : Verdict
  respond : Verdict

-- `not output.generated_response`
abbrev pub is_blank : Option String → Bool
is_blank none = true
is_blank (some text) = text == ""

-- The chain of tests of `_classify_with_ai`. `lower` is Python's `str.lower`.
unfoldable pub choose : (String → String) → CustomerServiceAiResponse → Verdict
choose lower output =
    if output.intent == CustomerIntent.unknown
    then Verdict.escalate "outside_defined_policy"
    else if is_high (some (lower output.risk_level))
    then Verdict.escalate "ai_high_risk"
    else if output.decision == CustomerServiceDecision.human_escalation
    then Verdict.escalate "ai_requested_escalation"
    else if is_blank output.generated_response
    then Verdict.escalate "missing_generated_response"
    else if output.decision == CustomerServiceDecision.draft_for_approval
        || contains output.intent approval_intents
    then Verdict.draft
    else if contains output.intent safe_auto_intents
    then Verdict.respond
    else Verdict.escalate "outside_defined_policy"
