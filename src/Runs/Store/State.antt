-- ===== src/Runs/Store/State.antt =====
-- `load_run_state` of orchestrator/state/store.py. The column resolved_req, which nothing writes, is
-- NULL in every row.
use url_copilot.Prelude.{
  Dict, List, Option, Result, String, [], insert, nat_eq, none, ok, some, string_eq, ◌>>=◌, ◌∷◌,
}
use url_copilot.Runs.Store.{StageResult, Store, StoreError, get_all_stage_results, get_run}

pub record RunState : Type 0 where
  pub run_id : String
  pub requirement : String
  pub resolved_requirement : String
  pub scenario_type : String
  pub triggered_by : String
  pub stage_artifacts : Dict String String
  pub feature_branch : Option String
  pub pr_url : Option String

-- {r["stage_name"]: r["output_artifact"] for r in rows if r.get("output_artifact") is not None}, on top
-- of what has been collected
unfoldable pub collect : Dict String String → List StageResult → Dict String String
collect d [] = d
collect d (r ∷ rows) = elim r.output_artifact [
  | none ↦ collect d rows
  | some artifact ↦ collect (insert r.stage_name artifact d) rows
]

unfoldable pub load_run_state : Store → String → Result StoreError RunState
load_run_state st run_id = do
  run ← get_run st run_id
  ok (record {
    run_id = run.id;
    requirement = run.requirement;
    resolved_requirement = "";
    scenario_type = run.scenario_type;
    triggered_by = run.triggered_by;
    stage_artifacts = collect [] (get_all_stage_results st run_id);
    feature_branch = run.feature_branch;
    pr_url = run.pr_url;
  })
