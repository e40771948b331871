-- ===== src/Agents/Usage.antt =====
-- src/commerce_operations/ai/usage.py: budgets for language models, and what was spent.
pub mod Budget
use cax_commerce_operations.Prelude.{
  ℕ, ◌+◌, String, Bool, true, false, not, ◌&&◌, ◌||◌, Option, none, some, List, [], ◌∷◌, ◌==◌,
  Eq-string, Eq-option, filter, leb, if◌then◌else◌,
}
use cax_commerce_operations.Prelude.Int.{ℤ, pos, pos_part, ltb_ℤ}
use cax_commerce_operations.Errors.{Error, Result, ok, err}
use cax_commerce_operations.Persistence.Models.{WorkflowRun}
use cax_commerce_operations.Persistence.Conversations.{AgentRun}
use cax_commerce_operations.Session.{Db, Action}
use cax_commerce_operations.Session.Actions.{pure, raise, gets, raise_if, ◌>>=◌, ◌>>◌}

-- What a provider reports (ai/provider.py).
pub record LlmUsage : Type 0 where
  pub input_tokens : ℤ
  pub output_tokens : ℤ
  pub cost_amount : ℤ
  pub cost_currency : Option String

-- `month_start` gives the first moment of the month of a time; `upper` is Python's `str.upper`.
pub record UsageAccounting : Type 0 where
  pub monthly_limit : Option ℕ
  pub workflow_limit : Option ℕ
  pub currency : String
  pub month_start : ℕ → ℕ
  pub upper : String → String

abbrev pub counts : UsageAccounting → ℕ → AgentRun → Bool
counts u now r = leb (u.month_start now) r.created_at && r.cost_currency == some u.currency

abbrev pub sum_costs : List AgentRun → ℕ
sum_costs [] = 0
sum_costs (r ∷ rs) = r.cost_amount + sum_costs rs

-- What the month has cost so far.
abbrev pub spent : UsageAccounting → Db → ℕ
spent u s = sum_costs (filter (counts u s.clock) s.agent_runs)

-- `limit is not None and amount >= limit`
abbrev pub reaches : ℕ → Option ℕ → Bool
reaches amount none = false
reaches amount (some limit) = leb limit amount

abbrev pub run_reaches : UsageAccounting → Option WorkflowRun → Bool
run_reaches u none = false
run_reaches u (some w) =
    w.cost_currency == some u.currency && reaches w.cost_amount u.workflow_limit

-- `UsageAccounting.authorize`
unfoldable pub authorize : UsageAccounting → Option WorkflowRun → Action (Unit {0})
authorize u workflow = do
  monthly ← gets (spent u)
  raise_if (reaches monthly u.monthly_limit) Error.spending_limit_exceeded
  raise_if (run_reaches u workflow) Error.spending_limit_exceeded

-- The agent's run with the usage that was reported.
abbrev pub with_usage : LlmUsage → AgentRun → AgentRun
with_usage usage r = record r {
  input_tokens = pos_part usage.input_tokens;
  output_tokens = pos_part usage.output_tokens;
  cost_amount = pos_part usage.cost_amount;
  cost_currency = usage.cost_currency;
}

-- `workflow.cost_currency not in {None, currency}`
abbrev other_currency : Option String → String → Bool
other_currency none currency = false
other_currency (some c) currency = not (c == currency)

-- The costs of a workflow grow, in one currency. An empty currency counts as none.
unfoldable pub charge : UsageAccounting → LlmUsage → WorkflowRun → Result WorkflowRun
charge u usage w = elim usage.cost_currency [
  | none ↦ ok w
  | some c ↦
      let currency = u.upper c in
      if c == ""
      then ok w
      else if other_currency w.cost_currency currency
      then err Error.value_error
      else ok (record w {
        cost_currency = some currency;
        cost_amount = w.cost_amount + pos_part usage.cost_amount;
      })
]

abbrev pub is_negative : LlmUsage → Bool
is_negative usage =
    ltb_ℤ usage.cost_amount (pos 0)
    || ltb_ℤ usage.input_tokens (pos 0)
    || ltb_ℤ usage.output_tokens (pos 0)

-- `UsageAccounting.record` without a workflow.
unfoldable pub record_usage : LlmUsage → AgentRun → Result AgentRun
record_usage usage r = if is_negative usage then err Error.value_error else ok (with_usage usage r)

-- `UsageAccounting.record` with a workflow.
unfoldable pub record_run_usage :
    UsageAccounting → LlmUsage → WorkflowRun → AgentRun → Result (WorkflowRun × AgentRun)
unfolding charge
record_run_usage u usage w r =
    if is_negative usage
    then err Error.value_error
    else elim (charge u usage w) [ err e ↦ err e | ok w' ↦ ok (w', with_usage usage r) ]
