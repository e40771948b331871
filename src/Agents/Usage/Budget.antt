-- ===== src/Agents/Usage/Budget.antt =====
-- What a budget guarantees: no call is allowed once the limit is reached, and a workflow's costs are
-- the sum of what was charged, in one currency.
use cax_commerce_operations.Prelude.{
  ℕ, ◌+◌, ◌≤◌, ◌<◌, ◌≡◌, ◌≢◌, if◌then◌else◌, String, Bool, false, Option, none, some, List, [], ◌∷◌,
  inl, inr, arith, ◌==◌, Eq-string, Bool-cases, Option-cases, filter, ap, sym, ◌∙◌, All,
}
use cax_commerce_operations.Prelude.Int.{pos_part}
use cax_commerce_operations.Errors.{Result, Result-cases, ok, err}
use cax_commerce_operations.Persistence.Models.{WorkflowRun}
use cax_commerce_operations.Persistence.Conversations.{AgentRun}
use cax_commerce_operations.Persistence.Tables.{add}
use cax_commerce_operations.Session.{Db}
use cax_commerce_operations.Agents.Usage.{
  LlmUsage, UsageAccounting, authorize, spent, charge, counts, sum_costs, record_usage,
}

-- The costs of one workflow, charged one after another; a charge that raises ends the sequence.
abbrev pub charge_all : UsageAccounting → List LlmUsage → WorkflowRun → Result WorkflowRun
charge_all u [] w = ok w
charge_all u (x ∷ xs) w = elim (charge u x w) [ err e ↦ err e | ok w' ↦ charge_all u xs w' ]

-- What a usage costs a workflow: nothing if the provider names no currency.
abbrev pub price_of : LlmUsage → ℕ
price_of x = elim x.cost_currency [
  | none ↦ 0
  | some c ↦ if c == "" then 0 else pos_part x.cost_amount
]

abbrev pub total_of : List LlmUsage → ℕ
total_of [] = 0
total_of (x ∷ xs) = price_of x + total_of xs

-- The usage is priced in the currency `c`, or in none.
abbrev pub InCurrency : UsageAccounting → String → LlmUsage → Type 0
InCurrency u c x = (d : String) → x.cost_currency ≡ some d → d ≢ "" → u.upper d ≡ c

charge_cases :
    (u : UsageAccounting) (x : LlmUsage) (w w' : WorkflowRun)
    → charge u x w ≡ ok w'
    → (w'.cost_amount ≡ w.cost_amount + price_of x)
      × ((c : String) → w.cost_currency ≡ some c → (w'.cost_currency ≡ some c) × InCurrency u c x)
unfolding charge
charge_cases u x w w' h = elim (Option-cases x.cost_currency) [
  | inl nothing ↦ (
    ground (arith, nothing, h),
    λ c e. (ground (arith, nothing, h, e), λ d f ne. ground (arith, nothing, f)),
  )
  | inr (d, named) ↦ elim (Bool-cases (d == "")) [
    | inl empty ↦ (
      ground (arith, named, empty, h),
      λ c e. (
        ground (arith, named, empty, h, e),
        λ d' f ne. absurd (ne (ground (arith, named, f, (Eq-string.beq_iff d "").0 empty))),
      ),
    )
    | inr priced ↦ elim (Option-cases w.cost_currency) [
      | inl free ↦ (ground (arith, named, priced, free, h), λ c e. absurd (ground (arith, free, e)))
      | inr (c, taken) ↦ elim (Bool-cases (c == u.upper d)) [
        | inr other ↦ absurd (ground (arith, named, priced, taken, other, h))
        | inl same ↦ (
          ground (arith, named, priced, taken, same, h),
          λ c' e.
              let is_upper : c ≡ u.upper d = (Eq-string.beq_iff c (u.upper d)).0 same in
              (
                ground (arith, named, priced, taken, same, h, e, is_upper),
                λ d' f ne.
                    ap u.upper (ground (arith, named, f)) ∙ sym is_upper ∙ ground (arith, taken, e),
              ),
        )
      ]
    ]
  ]
]

-- A workflow is charged the sum of its priced usages, and once it has a currency every priced usage
-- is in that currency; a usage in another one makes the sequence raise.
pub charge_all_total :
    (u : UsageAccounting) (xs : List LlmUsage) (w w' : WorkflowRun)
    → charge_all u xs w ≡ ok w'
    → (w'.cost_amount ≡ w.cost_amount + total_of xs)
      × ((c : String)
          → w.cost_currency ≡ some c
          → (w'.cost_currency ≡ some c) × All (InCurrency u c) xs)
charge_all_total u [] w w' h = (ground (arith, h), λ c e. (ground (arith, h, e), tt))
charge_all_total u (x ∷ xs) w w' h = elim (Result-cases (charge u x w)) [
  | inr (e, bad) ↦ absurd (ground (arith, bad, h))
  | inl (v, first) ↦
      let rest = charge_all_total u xs v w' (ground (arith, first, h)) in
      let (cost, kept) = charge_cases u x w v first in
      (
        omega (arith, cost, rest.0),
        λ c e.
            let (same, priced) = kept c e in
            let (last, all) = rest.1 c same in (last, (priced, all)),
      )
]

sum-filter-add :
    (p : AgentRun → Bool) (r : AgentRun) (t : List AgentRun)
    → sum_costs (filter p (add r t)) ≤ sum_costs (filter p t) + r.cost_amount
sum-filter-add p r [] = ground arith
sum-filter-add p r (x ∷ t) = ground (arith, sum-filter-add p r t)

sum-filter-add_skipped :
    (p : AgentRun → Bool) (r : AgentRun) (t : List AgentRun)
    → p r ≡ false
    → sum_costs (filter p (add r t)) ≡ sum_costs (filter p t)
sum-filter-add_skipped p r [] h = ground (arith, h)
sum-filter-add_skipped p r (x ∷ t) h = ground (arith, h, sum-filter-add_skipped p r t)

-- The monthly limit is overrun by less than the cost of one call: when a call is authorized, the
-- month's costs with its run added stay below the limit plus the cost of the run.
pub overrun_bounded :
    (u : UsageAccounting) (w : Option WorkflowRun) (limit : ℕ) (r : AgentRun) (s : Db)
    → u.monthly_limit ≡ some limit
    → (authorize u w s).0 ≡ ok tt
    → spent u (record s { agent_runs = add r s.agent_runs }) < limit + r.cost_amount
unfolding authorize
overrun_bounded u w limit r s limited h =
    ground (arith, sum-filter-add (counts u s.clock) r s.agent_runs)

-- A run whose provider spells the currency in another way than the budget does, as in lower case, does
-- not count towards the monthly limit, whatever it costs.
pub spelled_otherwise_uncounted :
    (u : UsageAccounting) (c : String) (usage : LlmUsage) (r r' : AgentRun) (s : Db)
    → usage.cost_currency ≡ some c
    → c ≢ u.currency
    → record_usage usage r ≡ ok r'
    → spent u (record s { agent_runs = add r' s.agent_runs }) ≡ spent u s
unfolding record_usage
spelled_otherwise_uncounted u c usage r r' s spelled other h =
    let kept : r'.cost_currency ≡ some c = ground (arith, h, spelled) in
    let skipped : counts u s.clock r' ≡ false =
      ground (arith, kept, other, Eq-string.beq_iff c u.currency) in
    sum-filter-add_skipped (counts u s.clock) r' s.agent_runs skipped
