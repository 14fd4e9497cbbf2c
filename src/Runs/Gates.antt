-- ===== src/Runs/Gates.antt =====
-- orchestrator/run.py: the commands that start a run and review and approve its gates, and
-- orchestrator/planner/planner.py. LangGraph and the language model enter as what they decide: the
-- outcome of an invocation, the writes that its nodes make and the scenario of a requirement.
pub mod Rows
pub mod Review
pub mod Terminal
pub mod Rejection
pub mod FourEyes
pub mod Preserve
pub mod Reach
use Prim.Native.Char.{code}
use url_copilot.Prelude.{
  Bool, Dict, List, Option, Result, String, [], codes, concat, err, if◌then◌else◌, length, lookup,
  ltb, nat_beq, nat_eq, none, not, ok, some, string_eq, ℕ, ◌==◌, ◌>>=◌, ◌>>◌, ◌∷◌,
}
use url_copilot.Gateway.Auth.{AuthError, CurrentUser}
use url_copilot.Governance.Checkpoint.{ApprovalError, request_approval}
use url_copilot.Runs.Store.{
  Run, StageResult, Store, StoreError, create_run, get_pending_runs, get_run, is_awaiting,
  save_stage_result, update_run_completed, update_run_pr, update_run_rejected, update_run_scenario,
  update_run_status,
}

-- `_GATE_PERMISSIONS`
abbrev pub gate_permissions : Dict String String
gate_permissions =
    ("architecture_gate", "approve_architecture")
    ∷ ("schema_gate", "approve_schema_change")
    ∷ ("tests_gate", "approve_architecture")
    ∷ ("pr_gate", "approve_release")
    ∷ ("release_gate", "approve_release")
    ∷ []

-- `raw_status.split(":", 1)[1]`, which is asked of "awaiting:..." only: the colon is always there
unfoldable pub gate_of : String → String
gate_of String.[] = String.[]
gate_of (String.◌∷◌ c s) = if nat_beq (code c) 58 then s else gate_of s

-- f"awaiting:{gate_name}"
abbrev pub awaiting : String → String
awaiting gate = concat "awaiting:" gate

pub data CliError : Type 0 where
  not_resolved : AuthError → CliError
  too_short too_long : CliError
  store_error : StoreError → CliError
  not_awaiting unknown_gate : CliError
  denied : ApprovalError → CliError
  classification_failed pipeline_failed : CliError

-- What a node writes to the tables of `Runs.Store`: `save_stage_result` and `update_run_pr`.
pub data Write : Type 0 where
  stage_saved : StageResult → Write
  pr_recorded : String → String → Write

-- `not snapshot.next`, the gate at which `_extract_interrupt` finds the graph, or an exception
pub data Outcome : Type 0 where
  finished : Outcome
  paused : Option String → Outcome
  raised : Outcome

unfoldable pub apply_writes : String → List Write → Store → Store
apply_writes run_id [] st = st
apply_writes run_id (stage_saved result ∷ ws) st = elim (save_stage_result st result) [
  | err x ↦ apply_writes run_id ws st
  | ok st' ↦ apply_writes run_id ws st'
]
apply_writes run_id (pr_recorded url branch ∷ ws) st =
    apply_writes run_id ws (update_run_pr st run_id url branch)

abbrev pub gate_name : Option String → String
gate_name none = "unknown_gate"
gate_name (some g) = g

-- `handle_run` up to the call of the engine: `Planner.plan` inserts the row as pending, and sets its
-- scenario once the requirement is classified
unfoldable pub begin_run :
    (String → Result AuthError CurrentUser)
    → Option String
    → ℕ
    → String
    → String
    → String
    → Store
    → Result CliError (Unit {0}) × Store
begin_run who scenario now run_id requirement token st = elim (who token) [
  | err x ↦ (err (not_resolved x), st)
  | ok user ↦
      if ltb (length (codes requirement)) 10
      then (err too_short, st)
      else if ltb 2_000 (length (codes requirement))
      then (err too_long, st)
      else elim (create_run st now run_id requirement "pending" user.github_login) [
        | err x ↦ (err (store_error x), st)
        | ok st' ↦ elim scenario [
          | none ↦ (err classification_failed, st')
          | some kind ↦ (ok tt, update_run_scenario st' run_id kind)
        ]
      ]
]

-- `handle_run` after the engine has returned
unfoldable pub conclude_run : String → Outcome → Store → Result CliError (Unit {0}) × Store
conclude_run run_id finished st = (ok tt, update_run_status st run_id "completed")
conclude_run run_id (paused gate) st =
    (ok tt, update_run_status st run_id (awaiting (gate_name gate)))
conclude_run run_id raised st = (err pipeline_failed, st)

unfoldable pub handle_run :
    (String → Result AuthError CurrentUser)
    → Option String
    → Outcome
    → List Write
    → ℕ
    → String
    → String
    → String
    → Store
    → Result CliError (Unit {0}) × Store
handle_run who scenario outcome writes now run_id requirement token st =
    let (begun, st1) = begin_run who scenario now run_id requirement token st in
    elim begun [
      | err x ↦ (err x, st1)
      | ok done ↦ conclude_run run_id outcome (apply_writes run_id writes st1)
    ]

-- `handle_approve` up to the reviewer's decision: the row, its gate and the approver
unfoldable pub begin_approval :
    (String → Result AuthError CurrentUser)
    → Store
    → String
    → String
    → Result CliError (Run × String × String)
begin_approval who st run_id token = elim (get_run st run_id) [
  | err x ↦ err (store_error x)
  | ok run ↦
      if not (is_awaiting run.status)
      then err not_awaiting
      else elim (lookup (gate_of run.status) gate_permissions) [
        | none ↦ err unknown_gate
        | some permission ↦ elim (request_approval who permission run.triggered_by token) [
          | err x ↦ err (denied x)
          | ok login ↦ ok (run, gate_of run.status, login)
        ]
      ]
]

-- What the reviewer types: the comment, whether the answer is "y", and the feedback on a finished
-- run.
pub record Answers : Type 0 where
  pub comment : String
  pub approved : Bool
  pub score : Option ℕ
  pub feedback_comment : Option String

-- `comment or None`
abbrev pub or_none : String → Option String
or_none s = if s == "" then none else some s

-- the rest of `handle_approve`
unfoldable pub conclude_approval :
    Answers
    → Outcome
    → List Write
    → ℕ
    → String
    → String
    → Store
    → Result CliError (Unit {0}) × Store
conclude_approval a outcome writes now run_id login st =
    if not a.approved
    then (ok tt, update_run_rejected st now run_id login (or_none a.comment))
    else let resumed = apply_writes run_id writes st in
      elim outcome [
        | finished ↦
            (ok tt, update_run_completed resumed now run_id a.score a.feedback_comment (some login))
        | paused gate ↦ (ok tt, update_run_status resumed run_id (awaiting (gate_name gate)))
        | raised ↦ (err pipeline_failed, resumed)
      ]

unfoldable pub handle_approve :
    (String → Result AuthError CurrentUser)
    → Answers
    → Outcome
    → List Write
    → ℕ
    → String
    → String
    → Store
    → Result CliError (Unit {0}) × Store
handle_approve who a outcome writes now run_id token st =
    elim (begin_approval who st run_id token) [
      | err x ↦ (err x, st)
      | ok (run, gate, login) ↦ conclude_approval a outcome writes now run_id login st
    ]

-- `handle_review`: the pending runs that the caller may approve, with their gates
unfoldable pub approvable :
    (String → Result AuthError CurrentUser) → String → List Run → List (Run × String)
approvable who token [] = []
approvable who token (run ∷ runs) =
    let rest = approvable who token runs in
    if not (is_awaiting run.status)
    then rest
    else elim (lookup (gate_of run.status) gate_permissions) [
      | none ↦ rest
      | some permission ↦ elim (request_approval who permission run.triggered_by token) [
        | err x ↦ rest
        | ok login ↦ (run, gate_of run.status) ∷ rest
      ]
    ]

unfoldable pub handle_review :
    (String → Result AuthError CurrentUser)
    → String
    → Store
    → Result AuthError (List (Run × String))
handle_review who token st = do user ← who token; ok (approvable who token (get_pending_runs st))
