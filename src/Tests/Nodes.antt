-- ===== src/Tests/Nodes.antt =====
-- Runs of the nodes of a stage and of a gate.
use mathlib.Core.Path.{subst}
use url_copilot.Prelude.{
  Bool-cases, Dict, Option, String, [], ap, arith, contains, err, false, if◌then◌else◌, inl, inr,
  length, lookup, nat_eq, none, ok, refl, some, string_eq, ℕ, ◌++◌, ◌+◌, ◌==◌, ◌∷◌, ◌≡◌, ◌≢◌,
}
use url_copilot.Prelude.Json.{Fields, Value}
use url_copilot.Governance.Audit.{EventType, get_events}
use url_copilot.Runs.Store.{
  StageResult, StageStatus, new_run, save_stage_result, update_run, update_run_pr,
}
use url_copilot.Agents.Tools.{
  ToolOutcome, cache_get, cache_set, execute, no_cache_tools, returned, run_tool,
}
use url_copilot.Agents.Tools.Stale.{Reached, further, here}
use url_copilot.Scenarios.Nodes.{
  Database, NodeState, Outside, Produced, deliver, integrity_error, recover_pr,
}
use url_copilot.Scenarios.Nodes.Execute.{stage_node}
use url_copilot.Scenarios.Nodes.Pause.{
  GateResult, decided, gate_node, gate_node_passes, interrupted, other, reached,
}
use url_copilot.Scenarios.Nodes.Writes.{hit_row, node_event}
use url_copilot.Scenarios.Nodes.Records.{stage_events, stage_node_records}
use url_copilot.Scenarios.Nodes.Delivery.{Shows, delivered_pr_shown}
use url_copilot.Scenarios.Nodes.Recovery.{recovery_never_finds, shows_pr}

-- one object is known by its text: an artifact with a branch and no pull request
abbrev load : String → Option Fields
load json =
    if json == "{branch}"
    then some (("branch_name", Value.text "feature/qr") ∷ ("pr_url", Value.null) ∷ [])
    else if json == "{pr}"
    then some
        (("pr_url", Value.text "https://github.com/a/b/pull/7") ∷ ("pr_number", Value.num 7) ∷ [])
    else none

abbrev pub outside : Outside
outside = record {
  load_object = load;
  commit_and_push = λ branch message. ok "pushed";
  create_pr = λ title body branch. ok (8, "https://github.com/a/b/pull/8");
  round6 = λ n. n;
  trace_id = "t-1";
  today = 3;
  clock = λ n. n + 100;
}

abbrev offline : Outside
offline = record outside { commit_and_push = λ branch message. err "nothing is staged" }

abbrev pub state : NodeState
state = record {
  run_id = "r1";
  requirement = "Add QR codes";
  triggered_by = "alice";
  stage_artifacts = [];
}

abbrev pub empty_db : Database
empty_db = record {
  store = record {
    runs = new_run 5 "r1" "Add QR codes" "greenfield" "alice" ∷ [];
    stage_results = [];
  };
  audit = [];
  metrics = [];
}

abbrev result : StageStatus → Option String → StageResult
result status artifact = record {
  run_id = "";
  stage_name = "implementation";
  status = status;
  attempt_number = 1;
  started_at = 6;
  completed_at = some 9;
  output_artifact = artifact;
  error_message = none;
  prompt_version = some "implementation_v1";
  model_used = some "gpt-4o";
}

abbrev pub produced : Produced
produced = record {
  result = result StageStatus.completed (some "{branch}");
  cache_hit = false;
  tool_cache = [];
}

abbrev opened_fields : Fields
opened_fields =
    ("branch_name", Value.text "feature/qr")
    ∷ ("pr_url", Value.text "https://github.com/a/b/pull/8")
    ∷ ("pr_number", Value.num 8)
    ∷ []

abbrev opened_db : Database
opened_db = record {
  store = record {
    runs =
        record (new_run 5 "r1" "Add QR codes" "greenfield" "alice") {
          pr_url = some "https://github.com/a/b/pull/8";
          feature_branch = some "feature/qr";
        }
        ∷ [];
    stage_results = record (result StageStatus.completed (some "{branch}")) { run_id = "r1" } ∷ [];
  };
  audit =
      stage_events outside "implementation" state (result StageStatus.completed (some "{branch}"))
        0;
  metrics = [];
}

opens_pr :
    stage_node outside "implementation" state produced empty_db
    ≡ (ok (("implementation", opened_fields) ∷ []), opened_db)
unfolding stage_node save_stage_result deliver update_run_pr update_run
opens_pr = refl

notes_the_error :
    (stage_node offline "implementation" state produced empty_db).0
    ≡ ok (
        (
          "implementation",
          ("branch_name", Value.text "feature/qr")
              ∷ ("pr_url", Value.null)
              ∷ ("pr_creation_error", Value.text "nothing is staged")
              ∷ [],
        )
        ∷ [])
unfolding stage_node save_stage_result deliver
notes_the_error = refl

-- a cached result that names a pull request would be taken
recovers :
    (recover_pr outside "r1" (("k", "{pr}") ∷ []) [] empty_db).0
    ≡ ("pr_url", Value.text "https://github.com/a/b/pull/7") ∷ ("pr_number", Value.num 7) ∷ []
unfolding recover_pr
recovers = refl

unknown_run :
    stage_node outside "implementation" (record state { run_id = "r9" }) produced empty_db
    ≡ (err integrity_error, empty_db)
unfolding stage_node
unknown_run = refl

stage_node_records_example :
    (artifacts : Dict String Fields) × (db' : Database) × (stage_node outside "implementation" state
        produced empty_db
      ≡ (ok artifacts, db'))
    × (db'.audit
        ≡ empty_db.audit
          ++ stage_events outside "implementation" state produced.result (length empty_db.audit))
    × (db'.store.stage_results ≡ record (produced.result) { run_id = "r1" } ∷ [])
    × (db'.metrics
        ≡ (if false then hit_row outside state "implementation" produced.result ∷ [] else []))
    × ((other : String)
        → other ≢ "implementation"
        → lookup other artifacts ≡ lookup other state.stage_artifacts)
stage_node_records_example =
    stage_node_records outside "implementation" state produced empty_db refl

delivered_pr_shown_example : Shows "r1" "https://github.com/a/b/pull/8" "feature/qr" opened_db
delivered_pr_shown_example =
    delivered_pr_shown outside state produced empty_db opened_db
      (("implementation", opened_fields) ∷ []) opened_fields "https://github.com/a/b/pull/8"
      "feature/qr" refl opens_pr refl refl refl

abbrev digest : String → String
digest s = s

-- create_pr answers with its pull request, every other tool with a list
abbrev tool : String → String → ℕ → ToolOutcome × ℕ
tool name args s = (returned (some (if name == "create_pr" then "{pr}" else "[]")), s)

tool_quiet :
    (name args : String) (s : ℕ) (r : String)
    → contains name no_cache_tools ≡ false
    → (tool name args s).0 ≡ returned (some r)
    → shows_pr load r ≡ false
tool_quiet name args s r cacheable h = elim (Bool-cases (name == "create_pr")) [
  | inl creates ↦ absurd (
      ground (
        arith,
        ap (λ n. contains n no_cache_tools) ((string_eq.beq_iff name "create_pr").0 creates),
      ))
  | inr differs ↦
      let list : ◌≡◌ {A = String} "[]" r = ground arith in
      subst (λ t. shows_pr load t ≡ false) list refl
]

-- the model reads the directory, and opens a pull request
ran_tools : Reached digest tool [] (("list_directory{}", "[]") ∷ [])
unfolding execute cache_get run_tool cache_set
ran_tools =
    further "create_pr" "{}" 0 (record { result = some "{pr}"; cache_hit = false; error = none }) _
      0
      (further "list_directory" "{}" 0
        (record { result = some "[]"; cache_hit = false; error = none })
        (("list_directory{}", "[]") ∷ []) 0 here refl)
      refl

recovery_never_finds_example :
    recover_pr outside "r1" (("list_directory{}", "[]") ∷ []) [] empty_db ≡ ([], empty_db)
recovery_never_finds_example =
    recovery_never_finds digest tool outside "r1" (("list_directory{}", "[]") ∷ []) [] empty_db
      tool_quiet ran_tools

gate_node_passes_example :
    (db1 : Database) × (db2 : Database) × (gate_node outside "pr_gate" "approve_pr" state none
        empty_db
      ≡ (ok interrupted, db1))
    × (gate_node outside "pr_gate" "approve_pr" state (some other) db1 ≡ (
      ok (
          GateResult.returned (
            ("pr_gate", ("approved", Value.boolean false) ∷ ("approver", Value.text "unknown") ∷ [])
            ∷ [])),
      db2,
    ))
    × (db2.store ≡ empty_db.store)
    × (db2.metrics ≡ empty_db.metrics)
    × (db2.audit
        ≡ ((empty_db.audit
              ++ reached outside "pr_gate" "approve_pr" state (length empty_db.audit) ∷ [])
            ++ reached outside "pr_gate" "approve_pr" state (length db1.audit) ∷ [])
          ++ decided outside "pr_gate" state other (length db1.audit + 1) ∷ [])
gate_node_passes_example = gate_node_passes outside "pr_gate" "approve_pr" state other empty_db refl

-- the events of the run, the oldest first
finds_events :
    get_events "r1"
      (opened_db.audit ++ node_event outside "r2" EventType.run_started none [] 9 ∷ [])
    ≡ opened_db.audit
unfolding get_events
finds_events = refl
