-- ===== src/Scenarios/Nodes/Outcome.antt =====
-- What `StageAgent.run` of orchestrator/agents/stage_agent.py hands to its node.
use url_copilot.Prelude.{Bool, String, false, none, some, true, ℕ}
use url_copilot.Agents.Stage.{StageError, StageOutcome}
use url_copilot.Agents.Stage
use url_copilot.Agents.Tools.{ToolCache}
use url_copilot.Runs.Store.{StageResult, StageStatus}
use url_copilot.Scenarios.Nodes.{Produced}

-- The StageResult of `StageAgent.run`, and the tool cache that it leaves in the state: the stage's own
-- if the model has completed it, else the one from before. `describe` is `str` of an exception.
abbrev pub result_of :
    (StageError → String) → String → String → String → ℕ → ℕ → StageOutcome → StageResult
result_of describe stage version model started finished (Stage.completed artifact hit) = record {
  run_id = "";
  stage_name = stage;
  status = StageStatus.completed;
  attempt_number = 1;
  started_at = started;
  completed_at = some finished;
  output_artifact = some artifact;
  error_message = none;
  prompt_version = some version;
  model_used = some model;
}
result_of describe stage version model started finished (Stage.failed x) = record {
  run_id = "";
  stage_name = stage;
  status = StageStatus.failed;
  attempt_number = 1;
  started_at = started;
  completed_at = some finished;
  output_artifact = none;
  error_message = some (describe x);
  prompt_version = some version;
  model_used = some model;
}

abbrev pub is_hit : StageOutcome → Bool
is_hit (Stage.completed artifact hit) = hit
is_hit (Stage.failed x) = false

abbrev pub left_cache : ToolCache → ToolCache → StageOutcome → ToolCache
left_cache before after (Stage.completed artifact true) = before
left_cache before after (Stage.completed artifact false) = after
left_cache before after (Stage.failed x) = before

abbrev pub produced_of :
    (StageError → String)
    → String
    → String
    → String
    → ℕ
    → ℕ
    → ToolCache
    → ToolCache
    → StageOutcome
    → Produced
produced_of describe stage version model started finished before after outcome = record {
  result = result_of describe stage version model started finished outcome;
  cache_hit = is_hit outcome;
  tool_cache = left_cache before after outcome;
}
