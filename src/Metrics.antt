-- ===== src/Metrics.antt =====
-- orchestrator/metrics/tracker.py, on the tables orch_metrics, orch_stage_results and orch_runs. Of
-- the metrics the newest row is the first. `round_ratio k n d` is `round(n / d, k)` in units of
-- 10^-k, and an instant a number of ticks.
pub mod Totals
use url_copilot.Prelude.{
  Bool, List, Option, String, [], contains, false, if◌then◌else◌, leb, length, ltb, map, nat_beq,
  nat_eq, none, select, some, string_eq, true, ℕ, ℤ, ◌++◌, ◌+◌, ◌==◌, ◌∷◌,
}
use url_copilot.Gateway.Models.{Metric}
use url_copilot.Runs.Store.{Run, StageResult, StageStatus, completed, failed, stage_names}

pub record StageSummary : Type 0 where
  pub stage_name : String
  pub tokens_in : ℕ
  pub tokens_out : ℕ
  pub total_tokens : ℕ
  pub cost_usd : ℕ
  pub avg_latency_ms : ℕ
  pub llm_calls : ℕ
  pub cache_hits : ℕ

pub record MetricSums : Type 0 where
  pub total_cost_usd : ℕ
  pub total_tokens : ℕ
  pub avg_llm_latency_ms : ℕ
  pub cache_hit_rate : ℕ

-- SUM(f) over the rows
unfoldable pub sum_of : {A : Type 0} → (A → ℕ) → List A → ℕ
sum_of f [] = 0
sum_of f (m ∷ ms) = f m + sum_of f ms

-- CASE WHEN cache_hit THEN 1 ELSE 0 END
abbrev pub hit_of : Metric → ℕ
hit_of m = if m.cache_hit then 1 else 0

abbrev pub of_run : String → List Metric → List Metric
of_run run_id = select (λ m. m.run_id == run_id)

-- the stage names of the rows, each once, the one with the oldest row first
unfoldable pub stages_of : List Metric → List String
stages_of [] = []
stages_of (m ∷ ms) =
    let earlier = stages_of ms in
    if contains m.stage_name earlier then earlier else earlier ++ m.stage_name ∷ []

module _ (round_ratio : ℕ → ℕ → ℕ → ℕ) where
  -- COALESCE(AVG(llm_latency_ms), 0), rounded
  abbrev pub average_latency : ℕ → List Metric → ℕ
  average_latency digits [] = 0
  average_latency digits (m ∷ ms) =
      round_ratio digits (sum_of (λ r. r.latency_ms) (m ∷ ms)) (length (m ∷ ms))

  abbrev pub stage_summary : List Metric → String → StageSummary
  stage_summary rows stage =
      let group = select (λ m. m.stage_name == stage) rows in
      record {
        stage_name = stage;
        tokens_in = sum_of (λ m. m.tokens_in) group;
        tokens_out = sum_of (λ m. m.tokens_out) group;
        total_tokens = sum_of (λ m. m.tokens_in + m.tokens_out) group;
        cost_usd = sum_of (λ m. m.cost_usd) group;
        avg_latency_ms = average_latency 0 group;
        llm_calls = length group;
        cache_hits = sum_of hit_of group;
      }

  unfoldable pub per_stage_summary : String → List Metric → List StageSummary
  unfolding stages_of
  per_stage_summary run_id metrics =
      let rows = of_run run_id metrics in map (stage_summary rows) (stages_of rows)

  unfoldable pub aggregate_metrics : String → List Metric → MetricSums
  aggregate_metrics run_id metrics =
      let rows = of_run run_id metrics in
      record {
        total_cost_usd = sum_of (λ m. m.cost_usd) rows;
        total_tokens = sum_of (λ m. m.tokens_in + m.tokens_out) rows;
        avg_llm_latency_ms = average_latency 2 rows;
        cache_hit_rate =
            if ltb 0 (length rows) then round_ratio 4 (sum_of hit_of rows) (length rows) else 0;
      }

abbrev pub is_completed : StageStatus → Bool
is_completed StageStatus.completed = true
is_completed _ = false

abbrev pub is_failed : StageStatus → Bool
is_failed StageStatus.failed = true
is_failed _ = false

pub record StageCounts : Type 0 where
  pub stages_completed : ℕ
  pub stages_failed : ℕ
  pub retry_count : ℕ

abbrev pub results_of : String → List StageResult → List StageResult
results_of run_id = select (λ r. r.run_id == run_id)

-- `retry_count` counts the stages, not their attempts
unfoldable pub aggregate_stage_counts : String → List StageResult → StageCounts
aggregate_stage_counts run_id results =
    let rows = results_of run_id results in
    record {
      stages_completed = length (select (λ r. is_completed r.status) rows);
      stages_failed = length (select (λ r. is_failed r.status) rows);
      retry_count = length (stage_names (select (λ r. ltb 1 r.attempt_number) rows));
    }

pub record RunSummary : Type 0 where
  pub run_id : String
  pub sums : MetricSums
  pub counts : StageCounts

unfoldable pub summarize : (ℕ → ℕ → ℕ → ℕ) → String → List Metric → List StageResult → RunSummary
unfolding aggregate_metrics aggregate_stage_counts
summarize round_ratio run_id metrics results = record {
  run_id = run_id;
  sums = aggregate_metrics round_ratio run_id metrics;
  counts = aggregate_stage_counts run_id results;
}

-- ORDER BY attempt_number ASC; of equal attempts, the one saved first
abbrev pub insert_attempt : StageResult → List StageResult → List StageResult
insert_attempt r [] = r ∷ []
insert_attempt r (s ∷ rs) =
    if leb s.attempt_number r.attempt_number then s ∷ insert_attempt r rs else r ∷ s ∷ rs

abbrev pub by_attempt : List StageResult → List StageResult
by_attempt [] = []
by_attempt (r ∷ rs) = insert_attempt r (by_attempt rs)

-- a failed attempt's end and the start of the attempt after it
abbrev pub gap : StageResult → StageResult → Option (ℕ × ℕ)
gap current next_attempt =
    if is_failed current.status
    then elim current.completed_at [
      | none ↦ none
      | some failed_at ↦ some (failed_at, next_attempt.started_at)
    ]
    else none

abbrev pub gaps : List StageResult → List (ℕ × ℕ)
gaps [] = []
gaps (r ∷ []) = []
gaps (r ∷ s ∷ rs) = let rest = gaps (s ∷ rs) in elim (gap r s) [ none ↦ rest | some g ↦ g ∷ rest ]

abbrev pub recovery_times : List String → List StageResult → List (ℕ × ℕ)
recovery_times [] rows = []
recovery_times (stage ∷ stages) rows =
    gaps (by_attempt (select (λ r. r.stage_name == stage) rows)) ++ recovery_times stages rows

-- `mean a b n` is `round((a - b) / n, 3)` in units of 10^-3
unfoldable pub compute_mttr : (ℕ → ℕ → ℕ → ℤ) → String → List StageResult → Option ℤ
compute_mttr mean run_id results =
    let rows = results_of run_id results in
    elim (recovery_times (stage_names rows) rows) [
      | [] ↦ none
      | t ∷ ts ↦
          some (mean (sum_of (λ g. g.1) (t ∷ ts)) (sum_of (λ g. g.0) (t ∷ ts)) (length (t ∷ ts)))
    ]

unfoldable pub success_rate : (ℕ → ℕ → ℕ → ℕ) → List Run → ℕ
success_rate round_ratio runs =
    if nat_beq (length runs) 0
    then 0
    else round_ratio 4 (length (select (λ r. r.status == "completed") runs)) (length runs)
