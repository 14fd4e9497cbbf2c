-- ===== src/Runs/Store.antt =====
-- orchestrator/state/store.py and orchestrator/core/stage.py: the tables orch_runs and
-- orch_stage_results. An instant is a number of ticks; a JSON artifact is its text.
pub mod Latest
pub mod State
pub mod Loaded
pub mod Sessions
use url_copilot.Prelude.{
  Bool, List, Option, Result, String, [], any_of, codes, err, first, if◌then◌else◌, insert_sorted,
  ltb, nat_eq, none, ok, or_raise, select, some, starts_with, string_eq, update_where, ℕ, ◌&&◌,
  ◌++◌, ◌==◌, ◌∷◌,
}

pub record Run : Type 0 where
  pub id : String
  pub requirement : String
  pub scenario_type : String
  pub status : String
  pub triggered_by : String
  pub created_at : ℕ
  pub completed_at : Option ℕ
  pub reviewed_by : Option String
  pub feedback_score : Option ℕ
  pub feedback_comment : Option String
  pub pr_url : Option String
  pub feature_branch : Option String

pub data StageStatus : Type 0 where
  pending running completed failed awaiting_approval skipped rolled_back : StageStatus

pub record StageResult : Type 0 where
  pub run_id : String
  pub stage_name : String
  pub status : StageStatus
  pub attempt_number : ℕ
  pub started_at : ℕ
  pub completed_at : Option ℕ
  pub output_artifact : Option String
  pub error_message : Option String
  pub prompt_version : Option String
  pub model_used : Option String

pub record Store : Type 0 where
  pub runs : List Run
  pub stage_results : List StageResult

pub data StoreError : Type 0 where
  unique_violation foreign_key_violation run_not_found : StoreError

abbrev pub new_run : ℕ → String → String → String → String → Run
new_run now run_id requirement scenario triggered_by = record {
  id = run_id;
  requirement = requirement;
  scenario_type = scenario;
  status = "running";
  triggered_by = triggered_by;
  created_at = now;
  completed_at = none;
  reviewed_by = none;
  feedback_score = none;
  feedback_comment = none;
  pr_url = none;
  feature_branch = none;
}

-- INSERT INTO orch_runs: `id` is the primary key; the newest row is the last
unfoldable pub create_run : Store → ℕ → String → String → String → String → Result StoreError Store
create_run st now run_id requirement scenario triggered_by =
    if any_of (λ r. r.id == run_id) st.runs
    then err unique_violation
    else ok
        (record st { runs = st.runs ++ new_run now run_id requirement scenario triggered_by ∷ [] })

-- UPDATE orch_runs SET ... WHERE id = :id
unfoldable pub update_run : String → (Run → Run) → Store → Store
update_run run_id f st = record st { runs = update_where (λ r. r.id == run_id) f st.runs }

unfoldable pub update_run_scenario : Store → String → String → Store
update_run_scenario st run_id scenario =
    update_run run_id (λ r. record r { scenario_type = scenario }) st

unfoldable pub update_run_status : Store → String → String → Store
update_run_status st run_id status = update_run run_id (λ r. record r { status = status }) st

abbrev pub completed_row : ℕ → Option ℕ → Option String → Option String → Run → Run
completed_row now score comment reviewed_by r = record r {
  status = "completed";
  completed_at = some now;
  feedback_score = score;
  feedback_comment = comment;
  reviewed_by = reviewed_by;
}

unfoldable pub update_run_completed :
    Store → ℕ → String → Option ℕ → Option String → Option String → Store
update_run_completed st now run_id score comment reviewed_by =
    update_run run_id (completed_row now score comment reviewed_by) st

abbrev pub rejected_row : ℕ → String → Option String → Run → Run
rejected_row now rejected_by comment r = record r {
  status = "rejected";
  completed_at = some now;
  reviewed_by = some rejected_by;
  feedback_comment = comment;
}

unfoldable pub update_run_rejected : Store → ℕ → String → String → Option String → Store
update_run_rejected st now run_id rejected_by comment =
    update_run run_id (rejected_row now rejected_by comment) st

unfoldable pub update_run_pr : Store → String → String → String → Store
update_run_pr st run_id pr_url branch =
    update_run run_id (λ r. record r { pr_url = some pr_url; feature_branch = some branch }) st

unfoldable pub get_run : Store → String → Result StoreError Run
get_run st run_id = or_raise (first (λ r. r.id == run_id) st.runs) run_not_found

-- status LIKE 'awaiting:%'
abbrev pub is_awaiting : String → Bool
is_awaiting status = starts_with (codes "awaiting:") (codes status)

-- ORDER BY created_at ASC
abbrev pub insert_oldest : Run → List Run → List Run
insert_oldest r [] = r ∷ []
insert_oldest r (s ∷ rs) =
    if ltb s.created_at r.created_at then s ∷ insert_oldest r rs else r ∷ s ∷ rs

abbrev pub oldest_first : List Run → List Run
oldest_first [] = []
oldest_first (r ∷ rs) = insert_oldest r (oldest_first rs)

unfoldable pub get_pending_runs : Store → List Run
get_pending_runs st = oldest_first (select (λ r. is_awaiting r.status) st.runs)

-- INSERT INTO orch_stage_results: `run_id` refers to orch_runs
unfoldable pub save_stage_result : Store → StageResult → Result StoreError Store
save_stage_result st result =
    if any_of (λ r. r.id == result.run_id) st.runs
    then ok (record st { stage_results = result ∷ st.stage_results })
    else err foreign_key_violation

-- ORDER BY attempt_number DESC LIMIT 1; of equal attempts, the one saved last
abbrev pub latest : List StageResult → Option StageResult
latest [] = none
latest (r ∷ rs) = elim (latest rs) [
  | none ↦ some r
  | some s ↦ if ltb r.attempt_number s.attempt_number then some s else some r
]

unfoldable pub get_stage_result : Store → String → String → Option StageResult
get_stage_result st run_id stage =
    latest (select (λ r. r.run_id == run_id && r.stage_name == stage) st.stage_results)

-- the stage names of the rows, in order and each once
abbrev pub stage_names : List StageResult → List String
stage_names [] = []
stage_names (r ∷ rs) = insert_sorted r.stage_name (stage_names rs)

abbrev pub insert_started : StageResult → List StageResult → List StageResult
insert_started r [] = r ∷ []
insert_started r (s ∷ rs) =
    if ltb s.started_at r.started_at then s ∷ insert_started r rs else r ∷ s ∷ rs

-- `results.sort(key=lambda r: r["started_at"])`, which is stable
abbrev pub by_start : List StageResult → List StageResult
by_start [] = []
by_start (r ∷ rs) = insert_started r (by_start rs)

-- SELECT DISTINCT ON (stage_name): for each name the row of the latest attempt
abbrev pub latest_of_each : List String → List StageResult → List StageResult
latest_of_each [] rows = []
latest_of_each (s ∷ names) rows =
    let rest = latest_of_each names rows in
    elim (latest (select (λ r. r.stage_name == s) rows)) [ none ↦ rest | some r ↦ r ∷ rest ]

unfoldable pub get_all_stage_results : Store → String → List StageResult
get_all_stage_results st run_id =
    let rows = select (λ r. r.run_id == run_id) st.stage_results in
    by_start (latest_of_each (stage_names rows) rows)
