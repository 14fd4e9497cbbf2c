-- ===== src/Gateway/Ledger.antt =====
-- orchestrator/gateway/token_budget.py, cost_tracker.py and tracer.py: what the gateway writes down
-- of a call. Prices are in 10^-8 USD per token, costs in 10^-6 USD.
pub mod Usages
use url_copilot.Prelude.{
  Bool, Dict, List, Result, String, [], any_of, err, exceeds, false, if◌then◌else◌, insert,
  is_minus_one, lookup, nat_eq, none, ok, raise_if, remove, some, string_eq, ℕ, ◌&&◌, ◌*◌, ◌+◌, ◌-◌,
  ◌==◌, ◌∷◌,
}
use url_copilot.Gateway.Auth.{CurrentUser}
use url_copilot.Gateway.Models.{
  GatewayError, Metric, Request, RunOwner, Usage, foreign_key_violation, token_budget_exceeded,
}

-- JOIN orch_runs r ON m.run_id = r.id WHERE r.triggered_by = login AND the day is today
abbrev pub counts_for : List RunOwner → String → ℕ → Metric → Bool
counts_for runs login today m =
    any_of (λ r. r.id == m.run_id && r.triggered_by == login) runs && m.day == today

-- COALESCE(SUM(m.tokens_in + m.tokens_out), 0)
unfoldable pub used_tokens : List RunOwner → String → ℕ → List Metric → ℕ
used_tokens runs login today [] = 0
used_tokens runs login today (m ∷ ms) =
    let rest = used_tokens runs login today ms in
    if counts_for runs login today m then m.tokens_in + m.tokens_out + rest else rest

-- `TokenBudgetManager.check`
unfoldable pub check_budget :
    List RunOwner → List Metric → ℕ → CurrentUser → ℕ → Result GatewayError (Unit {0})
unfolding used_tokens
check_budget runs metrics today user estimated =
    if is_minus_one user.daily_token_budget
    then ok tt
    else raise_if
        (exceeds (used_tokens runs user.github_login today metrics + estimated)
          user.daily_token_budget)
        token_budget_exceeded

pub record Price : Type 0 where
  pub input : ℕ
  pub output : ℕ

abbrev pub fallback_price : Price
fallback_price = record { input = 250; output = 1_000 }

abbrev pub price_table : Dict String Price
price_table =
    ("gpt-4o", fallback_price)
    ∷ ("gpt-4o-mini", record { input = 15; output = 60 })
    ∷ ("o1-mini", record { input = 300; output = 1_200 })
    ∷ []

abbrev pub price_of : String → Price
price_of model = elim (lookup model price_table) [ none ↦ fallback_price | some p ↦ p ]

-- `_calculate_cost`; `round6` is `round(_, 6)`, from 10^-8 USD to 10^-6 USD
unfoldable pub calculate_cost : (ℕ → ℕ) → String → Usage → ℕ
calculate_cost round6 model usage =
    let price = price_of model in
    round6 (usage.input_tokens * price.input + usage.output_tokens * price.output)

-- `CostTracker.record`: one more row, if orch_runs has the run that it refers to
abbrev pub record_row :
    Bool
    → (ℕ → ℕ)
    → List RunOwner
    → ℕ
    → String
    → Request
    → Usage
    → ℕ
    → List Metric
    → Result GatewayError (List Metric)
record_row cache_hit round6 runs today trace_id request usage latency metrics =
    if any_of (λ r. r.id == request.run_id) runs
    then ok (
        record {
          run_id = request.run_id;
          stage_name = request.stage_name;
          trace_id = trace_id;
          tokens_in = usage.input_tokens;
          tokens_out = usage.output_tokens;
          cost_usd = calculate_cost round6 request.model usage;
          latency_ms = latency;
          cache_hit = cache_hit;
          model_used = request.model;
          prompt_version = request.prompt_version;
          day = today;
        }
        ∷ metrics)
    else err foreign_key_violation

-- the row of a call to the model
unfoldable pub record_cost :
    (ℕ → ℕ)
    → List RunOwner
    → ℕ
    → String
    → Request
    → Usage
    → ℕ
    → List Metric
    → Result GatewayError (List Metric)
record_cost round6 runs today trace_id request usage latency metrics =
    record_row false round6 runs today trace_id request usage latency metrics

-- trace_id → the instant at which the span began
abbrev pub Spans : Type 0
Spans = Dict String ℕ

-- `RequestTracer.start`, for the UUID drawn
unfoldable pub start_span : String → ℕ → Spans → Spans
start_span trace_id now spans = insert trace_id now spans

-- `RequestTracer.end`: the ticks since the start, 0 for a span that is not there
unfoldable pub end_span : String → ℕ → Spans → ℕ × Spans
end_span trace_id now spans =
    (elim (lookup trace_id spans) [ none ↦ 0 | some start ↦ now - start ], remove trace_id spans)
