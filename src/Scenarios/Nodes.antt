-- ===== src/Scenarios/Nodes.antt =====
-- orchestrator/scenarios/nodes.py: the node of a stage, with the fallback that opens the pull request,
-- and the node of a gate. `StageAgent.run`, GitHub, the JSON of an artifact and of a cached result, the
-- clocks and the UUID are arguments; the lines that PipelineLogger prints are left out. A branch name
-- or an address in an artifact counts where it is a text.
pub mod Execute
pub mod Pause
pub mod Writes
pub mod Records
pub mod Delivery
pub mod Recovery
pub mod Outcome
pub mod Booked
use url_copilot.Prelude.{
  Bool, Dict, List, Option, Result, String, [], codes, concat, err, if◌then◌else◌, insert, length,
  lookup, nat_eq, none, occurs_in, ok, prefix_of, some, string_eq, ℕ, ◌==◌, ◌>>=◌, ◌>>◌, ◌∷◌,
}
use url_copilot.Prelude.Json.{Fields, Value, null, num, or_null, text, truthy}
use url_copilot.Gateway.Models.{Metric, RunOwner}
use url_copilot.Governance.Audit.{AuditEvent, EventType, log}
use url_copilot.Runs.Store.{Run, StageResult, Store, update_run_pr}
use url_copilot.Agents.Tools.{ToolCache}

-- what the node reads of OrchestratorState
pub record NodeState : Type 0 where
  pub run_id : String
  pub requirement : String
  pub triggered_by : String
  pub stage_artifacts : Dict String Fields

pub record Database : Type 0 where
  pub store : Store
  pub audit : List AuditEvent
  pub metrics : List Metric

-- What StageAgent.run gives: its result, `cache_hit`, and the tool cache that it leaves in the state.
pub record Produced : Type 0 where
  pub result : StageResult
  pub cache_hit : Bool
  pub tool_cache : ToolCache

pub record Outside : Type 0 where
  -- a JSON text, where it is that of an object
  pub load_object : String → Option Fields
  -- `commit_and_push(branch, message)` and `create_pr(title, body, branch, "main")`, or the message of
  -- the exception
  pub commit_and_push : String → String → Result String String
  pub create_pr : String → String → String → Result String (ℕ × String)
  pub round6 : ℕ → ℕ
  pub trace_id : String
  pub today : ℕ
  -- the instant of the n-th row of orch_audit_events
  pub clock : ℕ → ℕ

-- the violated foreign key to orch_runs
pub data NodeError : Type 0 where
  integrity_error : NodeError

abbrev pub run_ids : List Run → List String
run_ids [] = []
run_ids (r ∷ rs) = r.id ∷ run_ids rs

abbrev pub owners : List Run → List RunOwner
owners [] = []
owners (r ∷ rs) = record { id = r.id; triggered_by = r.triggered_by } ∷ owners rs

-- `_audit`
unfoldable pub log_audit :
    Outside → String → EventType → Option String → Fields → Database → Result NodeError Database
unfolding log
log_audit o run_id event_type stage_name details db =
    elim (log (run_ids db.store.runs)
      (record {
        run_id = run_id;
        event_type = event_type;
        stage_name = stage_name;
        actor = "system";
        actor_role = none;
        details = some details;
        created_at = o.clock (length db.audit);
      })
      db.audit) [ err x ↦ err integrity_error | ok events ↦ ok (record db { audit = events }) ]

-- the key's value where it is a text that is not empty
abbrev pub filled_text : String → Fields → Option String
filled_text key fields = elim (or_null (lookup key fields)) [
  | Value.text s ↦ if s == "" then none else some s
  | _ ↦ none
]

-- the first cached object with a `pr_url` on GitHub
unfoldable pub find_pr : (String → Option Fields) → ToolCache → Option (String × Fields)
find_pr load_object [] = none
find_pr load_object ((key, cached) ∷ cache) =
    let rest = find_pr load_object cache in
    elim (load_object cached) [
      | none ↦ rest
      | some fields ↦ elim (filled_text "pr_url" fields) [
        | none ↦ rest
        | some url ↦ if occurs_in (codes "github.com") (codes url) then some (url, fields) else rest
      ]
    ]

-- `_persist_pr`
unfoldable pub persist_pr : String → String → String → Database → Database
persist_pr run_id url branch db = record db { store = update_run_pr db.store run_id url branch }

abbrev pub or_empty : Option String → String
or_empty none = ""
or_empty (some s) = s

-- the recovery of a pull request that the model opened and did not name
unfoldable pub recover_pr : Outside → String → ToolCache → Fields → Database → Fields × Database
unfolding find_pr persist_pr
recover_pr o run_id cache artifact db =
    if truthy (or_null (lookup "pr_url" artifact))
    then (artifact, db)
    else elim (find_pr o.load_object cache) [
      | none ↦ (artifact, db)
      | some (url, fields) ↦ (
        insert "pr_number" (or_null (lookup "pr_number" fields))
            (insert "pr_url" (Value.text url) artifact),
        persist_pr run_id url (or_empty (filled_text "branch_name" artifact)) db,
      )
    ]

abbrev pub titled : ℕ → String → String
titled n requirement =
    if requirement == ""
    then "feat: orchestrator implementation"
    else concat "feat: " (prefix_of n requirement)

abbrev pub pr_body : String → String → String
pr_body run_id requirement =
    concat "Automated PR from orchestrator run `"
      (concat run_id (concat "`.\n\n**Requirement**: " requirement))

-- the fallback that pushes and opens the pull request
unfoldable pub push_and_open : Outside → String → String → String → Result String (ℕ × String)
push_and_open o run_id requirement branch = do
  summary ← o.commit_and_push branch (titled 60 requirement)
  o.create_pr (titled 70 requirement) (pr_body run_id requirement) branch

unfoldable pub open_pr : Outside → String → String → Fields → Database → Fields × Database
unfolding push_and_open persist_pr
open_pr o run_id requirement artifact db = elim (filled_text "branch_name" artifact) [
  | none ↦ (artifact, db)
  | some branch ↦
      if truthy (or_null (lookup "pr_url" artifact))
      then (artifact, db)
      else elim (push_and_open o run_id requirement branch) [
        | err message ↦ (
          insert "pr_creation_error" (Value.text message) (insert "pr_url" Value.null artifact),
          db,
        )
        | ok (number, url) ↦ (
          insert "pr_number" (Value.num number) (insert "pr_url" (Value.text url) artifact),
          persist_pr run_id url branch db,
        )
      ]
]

-- `if lm_pr_url and lm_branch`
unfoldable pub keep_pr : String → Fields → Database → Database
unfolding persist_pr
keep_pr run_id artifact db = elim (filled_text "pr_url" artifact) [
  | none ↦ db
  | some url ↦ elim (filled_text "branch_name" artifact) [
    | none ↦ db
    | some branch ↦ persist_pr run_id url branch db
  ]
]

-- what follows a completed implementation
unfoldable pub deliver : Outside → NodeState → ToolCache → Fields → Database → Fields × Database
unfolding recover_pr open_pr keep_pr
deliver o st cache artifact db =
    let (recovered, db1) = recover_pr o st.run_id cache artifact db in
    let (opened, db2) = open_pr o st.run_id st.requirement recovered db1 in
    (opened, keep_pr st.run_id opened db2)
