-- ===== src/Planner/Plan.antt =====
-- `Planner.plan` of orchestrator/planner/planner.py with a run store, as run.py calls it.
use url_copilot.Prelude.{
  List, Option, Result, String, [], codes, err, false, if◌then◌else◌, length, ltb, nat_eq, ok,
  string_eq, true, ℕ, ◌==◌, ◌>>=◌,
}
use url_copilot.Gateway.Models.{Request}
use url_copilot.Runs.Store.{Store, StoreError, create_run, update_run_scenario}
use url_copilot.Gateway.Auth.{AuthError, CurrentUser}
use url_copilot.Runs.Gates.{CliError}
use url_copilot.Planner.{ClarificationResult, PlanError, Reading, clarify, classify}

-- the OrchestratorState that a run starts with, less its empty collections
pub record InitialState : Type 0 where
  pub run_id : String
  pub requirement : String
  pub resolved_requirement : String
  pub scenario_type : String
  pub triggered_by : String
  pub token : String
  pub assumptions : List String

-- what `plan` raises: an error of the run store, or one of the understanding
pub data Failure : Type 0 where
  not_stored : StoreError → Failure
  not_understood : PlanError → Failure

-- what the CLI reports of it
abbrev pub reported : Failure → CliError
reported (not_stored x) = CliError.store_error x
reported (not_understood x) = CliError.classification_failed

module _ {W : Type 0} (r : Reading) (call : Request → W → Option (Option String) × W)
    (prompt : Option (String × String)) (lines : List String) where
  -- the scenario and the requirement that the rest of the run goes by
  unfoldable pub understand :
      String → String → String → W → Result PlanError (String × ClarificationResult) × W
  understand requirement token run_id w =
      let (classified, w1) = classify r call prompt requirement token run_id w in
      elim classified [
        | err x ↦ (err x, w1)
        | ok c ↦ elim (c.scenario_type == "ambiguous") [
          | false ↦ (
            ok (c.scenario_type, record { resolved_requirement = requirement; assumptions = [] }),
            w1,
          )
          | true ↦
              let (clarified, w2) = clarify r call prompt lines requirement token run_id w1 in
              (do result ← clarified; ok (c.scenario_type, result), w2)
        ]
      ]

  unfoldable pub plan :
      ℕ → String → String → String → String → Store → W → Result Failure InitialState × Store × W
  plan now run_id requirement triggered_by token st w =
      elim (create_run st now run_id requirement "pending" triggered_by) [
        | err x ↦ (err (not_stored x), st, w)
        | ok st1 ↦
            let (understood, w1) = understand requirement token run_id w in
            elim understood [
              | err x ↦ (err (not_understood x), st1, w1)
              | ok (kind, clear) ↦ (
                ok (record {
                  run_id = run_id;
                  requirement = requirement;
                  resolved_requirement = clear.resolved_requirement;
                  scenario_type = kind;
                  triggered_by = triggered_by;
                  token = token;
                  assumptions = clear.assumptions;
                }),
                update_run_scenario st1 run_id kind,
                w1,
              )
            ]
      ]

  -- `handle_run` of run.py up to the call of the engine
  unfoldable pub start_run :
      (String → Result AuthError CurrentUser)
      → ℕ
      → String
      → String
      → String
      → Store
      → W
      → Result CliError InitialState × Store × W
  start_run who now run_id requirement token st w = elim (who token) [
    | err x ↦ (err (CliError.not_resolved x), st, w)
    | ok user ↦
        if ltb (length (codes requirement)) 10
        then (err CliError.too_short, st, w)
        else if ltb 2_000 (length (codes requirement))
        then (err CliError.too_long, st, w)
        else (let (planned, st', w') = plan now run_id requirement user.github_login token st w in
            elim planned [ ok s ↦ (ok s, st', w') | err x ↦ (err (reported x), st', w') ])
  ]
