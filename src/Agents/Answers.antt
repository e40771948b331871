-- ===== src/Agents/Answers.antt =====
-- src/commerce_operations/agents/customer_service_models.py: the answer of the language model to a
-- message. The limits on the lengths of texts are left out.
use cax_commerce_operations.Prelude.{String, Option}
use cax_commerce_operations.Persistence.Json.{Object}
use cax_commerce_operations.Persistence.Conversations.{CustomerIntent, CustomerServiceDecision}
use cax_commerce_operations.Agents.Usage.{LlmUsage}

pub record CustomerServiceAiResponse : Type 0 where
  pub intent : CustomerIntent
  pub decision : CustomerServiceDecision
  pub risk_level : String
  pub generated_response : Option String
  pub rationale : String

-- `LLMResult` of such an answer; `dump` is its JSON form.
pub record LlmResult : Type 0 where
  pub output : CustomerServiceAiResponse
  pub dump : Object
  pub provider : String
  pub model : String
  pub usage : LlmUsage
