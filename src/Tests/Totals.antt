-- ===== src/Tests/Totals.antt =====
-- Runs of the metrics of a run.
use url_copilot.Prelude.{
  Bool, List, Option, String, [], false, insert_sorted, length, map, none, pos, refl, some, true, ℕ,
  ℤ, ◌*◌, ◌+◌, ◌-◌, ◌/◌, ◌^◌, ◌∷◌, ◌≡◌, ◌≤◌,
}
use url_copilot.Gateway.Models.{Metric}
use url_copilot.Runs.Store.{StageResult, StageStatus}
use url_copilot.Metrics.{compute_mttr, of_run, per_stage_summary, success_rate, sum_of, summarize}
use url_copilot.Metrics.Totals.{count_in, per_stage_totals}

-- rounding down
abbrev floor : ℕ → ℕ → ℕ → ℕ
floor digits n d = 10 ^ digits * n / d

abbrev call_of : String → String → ℕ → ℕ → ℕ → Bool → Metric
call_of run stage tokens_in tokens_out latency hit = record {
  run_id = run;
  stage_name = stage;
  trace_id = "t";
  tokens_in = tokens_in;
  tokens_out = tokens_out;
  cost_usd = tokens_in + 4 * tokens_out;
  latency_ms = latency;
  cache_hit = hit;
  model_used = "gpt-4o";
  prompt_version = "v1";
  day = 3;
}

abbrev calls : List Metric
calls =
    call_of "r1" "test_plan" 0 0 0 true
    ∷ call_of "r1" "architecture" 10 5 300 false
    ∷ call_of "r2" "architecture" 7 7 50 false
    ∷ call_of "r1" "test_plan" 20 10 100 false
    ∷ []

abbrev attempt_of : String → ℕ → StageStatus → ℕ → Option ℕ → StageResult
attempt_of stage attempt status started completed_at = record {
  run_id = "r1";
  stage_name = stage;
  status = status;
  attempt_number = attempt;
  started_at = started;
  completed_at = completed_at;
  output_artifact = none;
  error_message = none;
  prompt_version = none;
  model_used = none;
}

-- two failures before a success: each failure is paired with the attempt after it, failed or not
abbrev attempts : List StageResult
attempts =
    attempt_of "test_plan" 3 StageStatus.completed 90 (some 99)
    ∷ attempt_of "test_plan" 2 StageStatus.failed 30 (some 50)
    ∷ attempt_of "architecture" 1 StageStatus.completed 1 (some 2)
    ∷ attempt_of "test_plan" 1 StageStatus.failed 10 (some 20)
    ∷ []

abbrev difference : ℕ → ℕ → ℕ → ℤ
difference a b n = pos ((a - b) / n)

stages_in_order :
    map (λ s. s.stage_name) (per_stage_summary floor "r1" calls) ≡ "test_plan" ∷ "architecture" ∷ []
unfolding per_stage_summary
stages_in_order = refl

rates : (summarize floor "r1" calls attempts).sums ≡ record {
  total_cost_usd = 90;
  total_tokens = 45;
  avg_llm_latency_ms = 13_333;
  cache_hit_rate = 3_333;
}
unfolding summarize sum_of
rates = refl

counts :
    (summarize floor "r1" calls attempts).counts
    ≡ record { stages_completed = 2; stages_failed = 2; retry_count = 1 }
unfolding summarize insert_sorted
counts = refl

nothing_yet :
    (summarize floor "r9" calls attempts).sums
    ≡ record { total_cost_usd = 0; total_tokens = 0; avg_llm_latency_ms = 0; cache_hit_rate = 0 }
unfolding summarize sum_of
nothing_yet = refl

-- (30 - 20 + 90 - 50) / 2
recovers : compute_mttr difference "r1" attempts ≡ some (pos 25)
unfolding compute_mttr sum_of insert_sorted
recovers = refl

no_retries : compute_mttr difference "r2" attempts ≡ none
unfolding compute_mttr
no_retries = refl

no_runs : success_rate floor [] ≡ 0
unfolding success_rate
no_runs = refl

per_stage_totals_example :
    let stages = per_stage_summary floor "r1" calls in
    let total = (summarize floor "r1" calls attempts).sums in
    ((a : String) → count_in a (map (λ s. s.stage_name) stages) ≤ 1)
    × (sum_of (λ s. s.total_tokens) stages ≡ total.total_tokens)
    × (sum_of (λ s. s.tokens_in) stages + sum_of (λ s. s.tokens_out) stages ≡ total.total_tokens)
    × (sum_of (λ s. s.cost_usd) stages ≡ total.total_cost_usd)
    × (sum_of (λ s. s.llm_calls) stages ≡ length (of_run "r1" calls))
per_stage_totals_example = per_stage_totals floor "r1" calls attempts
