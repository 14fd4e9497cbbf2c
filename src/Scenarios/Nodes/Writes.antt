-- ===== src/Scenarios/Nodes/Writes.antt =====
-- The single writes of a node of a stage.
use url_copilot.Prelude.{
  Bool-cases, List, Option, Option-cases, Result-cases, String, [], any_of, arith, contains,
  if◌then◌else◌, inl, inr, length, lookup, nat_eq, none, not, ok, refl, some, string_eq, true, ℕ,
  ◌&&◌, ◌++◌, ◌==◌, ◌∙◌, ◌∷◌, ◌≡◌,
}
use url_copilot.Prelude.Json.{Fields, or_null, truthy}
use url_copilot.Gateway.Models.{Metric}
use url_copilot.Gateway.Ledger.{calculate_cost}
use url_copilot.Governance.Audit.{AuditEvent, EventType, log}
use url_copilot.Runs.Store.{Run, StageResult, save_stage_result, update_run, update_run_pr}
use url_copilot.Scenarios.Nodes.{
  Database, NodeState, Outside, Produced, deliver, filled_text, find_pr, keep_pr, log_audit,
  open_pr, or_empty, owners, persist_pr, push_and_open, recover_pr, run_ids,
}
use url_copilot.Agents.Tools.{ToolCache}
use url_copilot.Scenarios.Nodes.Execute.{artifact_fields, finish, is_empty, record_hit, save_result}

-- the run is in orch_runs
abbrev pub IsKnown : String → Database → Type 0
IsKnown run_id db = contains run_id (run_ids db.store.runs) ≡ true

any_of-run_ids :
    (run_id : String) (runs : List Run)
    → any_of (λ r. r.id == run_id) runs ≡ contains run_id (run_ids runs)
any_of-run_ids run_id [] = refl
any_of-run_ids run_id (r ∷ rs) =
    ground (
      arith,
      any_of-run_ids run_id rs,
      string_eq.beq_iff r.id run_id,
      string_eq.beq_iff run_id r.id,
    )

any_of-owners :
    (run_id : String) (runs : List Run)
    → any_of (λ o. o.id == run_id) (owners runs) ≡ contains run_id (run_ids runs)
any_of-owners run_id [] = refl
any_of-owners run_id (r ∷ rs) =
    ground
      (arith, any_of-owners run_id rs, string_eq.beq_iff r.id run_id, string_eq.beq_iff run_id r.id)

-- the event that a node writes
abbrev pub node_event : Outside → String → EventType → Option String → Fields → ℕ → AuditEvent
node_event o run_id event_type stage_name details n = record {
  run_id = run_id;
  event_type = event_type;
  stage_name = stage_name;
  actor = "system";
  actor_role = none;
  details = some details;
  created_at = o.clock n;
}

pub log_audit-IsKnown :
    (o : Outside) (run_id : String) (event_type : EventType) (stage_name : Option String)
    (details : Fields) (db : Database)
    → IsKnown run_id db
    → log_audit o run_id event_type stage_name details db
      ≡ ok (record db {
        audit =
            db.audit ++ node_event o run_id event_type stage_name details (length db.audit) ∷ [];
      })
unfolding log_audit log
log_audit-IsKnown o run_id event_type stage_name details db known = ground arith

pub save_result-IsKnown :
    (st : NodeState) (result : StageResult) (db : Database)
    → IsKnown st.run_id db
    → save_result st result db
      ≡ ok (record db {
        store = record (db.store) {
          stage_results = record result { run_id = st.run_id } ∷ db.store.stage_results;
        };
      })
unfolding save_result save_stage_result
save_result-IsKnown st result db known = ground (arith, any_of-run_ids st.run_id db.store.runs)

-- the row of orch_metrics of a stage that the cache has answered
abbrev pub hit_row : Outside → NodeState → String → StageResult → Metric
hit_row o st stage result = record {
  run_id = st.run_id;
  stage_name = stage;
  trace_id = o.trace_id;
  tokens_in = 0;
  tokens_out = 0;
  cost_usd =
      calculate_cost o.round6
        (elim result.model_used [ none ↦ "gpt-4o" | some m ↦ if m == "" then "gpt-4o" else m ])
        (record { input_tokens = 0; output_tokens = 0 });
  latency_ms = 0;
  cache_hit = true;
  model_used = elim result.model_used [
    | none ↦ "gpt-4o"
    | some m ↦ if m == "" then "gpt-4o" else m
  ];
  prompt_version = or_empty result.prompt_version;
  day = o.today;
}

pub record_hit-IsKnown :
    (o : Outside) (st : NodeState) (stage : String) (result : StageResult) (db : Database)
    → IsKnown st.run_id db
    → record_hit o st stage result db
      ≡ ok (record db { metrics = hit_row o st stage result ∷ db.metrics })
unfolding record_hit
record_hit-IsKnown o st stage result db known =
    ground (arith, any_of-owners st.run_id db.store.runs)

-- Everything but orch_runs.
abbrev pub SameBooks : Database → Database → Type 0
SameBooks db db' =
    (db'.audit ≡ db.audit)
    × (db'.metrics ≡ db.metrics)
    × (db'.store.stage_results ≡ db.store.stage_results)

persist_pr-SameBooks :
    (run_id url branch : String) (db : Database) → SameBooks db (persist_pr run_id url branch db)
unfolding persist_pr update_run_pr update_run
persist_pr-SameBooks run_id url branch db = (refl, refl, refl)

recover_pr-SameBooks :
    (o : Outside) (run_id : String) (cache : ToolCache) (artifact : Fields) (db : Database)
    → SameBooks db (recover_pr o run_id cache artifact db).1
unfolding recover_pr
recover_pr-SameBooks o run_id cache artifact db =
    elim (Bool-cases (truthy (or_null (lookup "pr_url" artifact)))) [
      | inl named ↦ rw (named, recover_pr) (refl, refl, refl)
      | inr unnamed ↦ elim (Option-cases (find_pr o.load_object cache)) [
        | inl missing ↦ ground arith
        | inr ((url, fields), found) ↦ ground (
          arith,
          persist_pr-SameBooks run_id url (or_empty (filled_text "branch_name" artifact)) db,
        )
      ]
    ]

open_pr-SameBooks :
    (o : Outside) (run_id requirement : String) (artifact : Fields) (db : Database)
    → SameBooks db (open_pr o run_id requirement artifact db).1
unfolding open_pr
open_pr-SameBooks o run_id requirement artifact db =
    elim (Option-cases (filled_text "branch_name" artifact)) [
      | inl missing ↦ ground arith
      | inr (branch, named) ↦ elim (Result-cases (push_and_open o run_id requirement branch)) [
        | inl (message, refused) ↦ ground arith
        | inr ((number, url), opened) ↦ ground (arith, persist_pr-SameBooks run_id url branch db)
      ]
    ]

keep_pr-SameBooks :
    (run_id : String) (artifact : Fields) (db : Database)
    → SameBooks db (keep_pr run_id artifact db)
unfolding keep_pr
keep_pr-SameBooks run_id artifact db = elim (Option-cases (filled_text "pr_url" artifact)) [
  | inl missing ↦ ground arith
  | inr (url, named) ↦ elim (Option-cases (filled_text "branch_name" artifact)) [
    | inl missing ↦ ground arith
    | inr (branch, filled) ↦ ground (arith, persist_pr-SameBooks run_id url branch db)
  ]
]

SameBooks-trans : (a b c : Database) → SameBooks a b → SameBooks b c → SameBooks a c
SameBooks-trans a b c h k = (k.0 ∙ h.0, k.1 ∙ h.1, k.2 ∙ h.2)

deliver-SameBooks :
    (o : Outside) (st : NodeState) (cache : ToolCache) (artifact : Fields) (db : Database)
    → SameBooks db (deliver o st cache artifact db).1
unfolding deliver
deliver-SameBooks o st cache artifact db =
    let (recovered, db1) = recover_pr o st.run_id cache artifact db in
    let (opened, db2) = open_pr o st.run_id st.requirement recovered db1 in
    SameBooks-trans db db1 (keep_pr st.run_id opened db2)
      (recover_pr-SameBooks o st.run_id cache artifact db)
      (SameBooks-trans db1 db2 (keep_pr st.run_id opened db2)
        (open_pr-SameBooks o st.run_id st.requirement recovered db1)
        (keep_pr-SameBooks st.run_id opened db2))

pub finish-SameBooks :
    (o : Outside) (stage : String) (st : NodeState) (produced : Produced) (db : Database)
    → SameBooks db (finish o stage st produced db).1
unfolding finish
finish-SameBooks o stage st produced db =
    let fields = artifact_fields o produced.result in
    elim (Bool-cases (stage == "implementation" && not (is_empty fields))) [
      | inl implemented ↦
          rw (implemented, finish) (deliver-SameBooks o st produced.tool_cache fields db)
      | inr plain ↦ rw (plain, finish) (refl, refl, refl)
    ]
