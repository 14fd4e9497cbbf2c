-- ===== src/Scenarios/Nodes/Records.antt =====
-- What a stage's node leaves in the tables.
use mathlib.Core.List.{append_assoc}
use url_copilot.Prelude.{
  Bool-cases, Dict, List, String, [], arith, false, if◌then◌else◌, inl, inr, insert, length,
  length-append, lookup, lookup-insert, nat_eq, none, ok, refl, some, string_eq, true, ℕ, ◌++◌, ◌+◌,
  ◌∙◌, ◌∷◌, ◌≡◌, ◌≢◌,
}
use url_copilot.Prelude.Json.{Fields, Value}
use url_copilot.Governance.Audit.{AuditEvent, EventType}
use url_copilot.Runs.Store.{StageResult}
use url_copilot.Metrics.{is_failed}
use url_copilot.Scenarios.Nodes.{Database, NodeState, Outside, Produced}
use url_copilot.Scenarios.Nodes.Execute.{
  error_value, failed_artifact, finish, record_hit, stage_node,
}
use url_copilot.Scenarios.Nodes.Writes.{
  IsKnown, finish-SameBooks, hit_row, log_audit-IsKnown, node_event, record_hit-IsKnown,
  save_result-IsKnown,
}

-- the two events of a node, the first at place `n` of the log
abbrev pub stage_events : Outside → String → NodeState → StageResult → ℕ → List AuditEvent
stage_events o stage st result n =
    node_event o st.run_id EventType.stage_started none (("stage", Value.text stage) ∷ []) n
    ∷ (if is_failed result.status
        then node_event o st.run_id EventType.stage_failed (some stage)
            (("error", error_value result.error_message) ∷ []) (n + 1)
        else node_event o st.run_id EventType.stage_completed (some stage) [] (n + 1))
    ∷ []

-- the tables after the first event, and after the row of the result
abbrev pub started_db : Outside → String → NodeState → Database → Database
started_db o stage st db = record db {
  audit =
      db.audit
      ++ node_event o st.run_id EventType.stage_started none (("stage", Value.text stage) ∷ [])
          (length db.audit)
        ∷ [];
}

abbrev pub saved_db : Outside → String → NodeState → Produced → Database → Database
saved_db o stage st produced db = record (started_db o stage st db) {
  store = record (db.store) {
    stage_results = record (produced.result) { run_id = st.run_id } ∷ db.store.stage_results;
  };
}

abbrev pub counted_db : Outside → String → NodeState → Produced → Database → Database
counted_db o stage st produced db =
    let saved = saved_db o stage st produced db in
    if produced.cache_hit
    then record saved { metrics = hit_row o st stage produced.result ∷ db.metrics }
    else saved

abbrev pub ended_db : Outside → String → NodeState → EventType → Fields → Database → Database
ended_db o stage st event_type details db = record db {
  audit = db.audit ++ node_event o st.run_id event_type (some stage) details (length db.audit) ∷ [];
}

abbrev pub failed_db : Outside → String → NodeState → Produced → Database → Database
failed_db o stage st produced db =
    ended_db o stage st EventType.stage_failed
      (("error", error_value produced.result.error_message) ∷ [])
      (counted_db o stage st produced db)

abbrev pub completed_db : Outside → String → NodeState → Produced → Database → Database
completed_db o stage st produced db =
    ended_db o stage st EventType.stage_completed [] (counted_db o stage st produced db)

counted_hit :
    (o : Outside) (stage : String) (st : NodeState) (produced : Produced) (db : Database)
    → IsKnown st.run_id db
    → (if produced.cache_hit
        then record_hit o st stage produced.result (saved_db o stage st produced db)
        else ok (saved_db o stage st produced db))
      ≡ ok (counted_db o stage st produced db)
counted_hit o stage st produced db known =
    ground
      (arith, record_hit-IsKnown o st stage produced.result (saved_db o stage st produced db) known)

pub counted-IsKnown :
    (o : Outside) (stage : String) (st : NodeState) (produced : Produced) (db : Database)
    → IsKnown st.run_id db
    → IsKnown st.run_id (counted_db o stage st produced db)
counted-IsKnown o stage st produced db known = ground arith

counted-frame :
    (o : Outside) (stage : String) (st : NodeState) (produced : Produced) (db : Database)
    → let counted = counted_db o stage st produced db in
      (counted.audit ≡ (started_db o stage st db).audit)
      × (counted.store.stage_results
          ≡ record (produced.result) { run_id = st.run_id } ∷ db.store.stage_results)
      × (counted.metrics ≡ (
          if produced.cache_hit
          then hit_row o st stage produced.result ∷ db.metrics
          else db.metrics))
counted-frame o stage st produced db = ground arith

-- the log after both events
ended_audit :
    (o : Outside) (stage : String) (st : NodeState) (produced : Produced) (event_type : EventType)
    (details : Fields) (db : Database)
    → (ended_db o stage st event_type details (counted_db o stage st produced db)).audit
      ≡ db.audit
        ++ node_event o st.run_id EventType.stage_started none
            (("stage", Value.text stage) ∷ [])
            (length db.audit)
          ∷ node_event o st.run_id event_type (some stage) details (length db.audit + 1)
          ∷ []
ended_audit o stage st produced event_type details db =
    let started =
      node_event o st.run_id EventType.stage_started none (("stage", Value.text stage) ∷ [])
        (length db.audit) in
    let (same, _, _) = counted-frame o stage st produced db in
    rw (same, length-append db.audit (started ∷ []))
      (append_assoc db.audit (started ∷ [])
        (node_event o st.run_id event_type (some stage) details (length db.audit + 1) ∷ []))

lookup-insert_other :
    (stage other : String) (fields : Fields) (artifacts : Dict String Fields)
    → other ≢ stage
    → lookup other (insert stage fields artifacts) ≡ lookup other artifacts
lookup-insert_other stage other fields artifacts differ =
    ground (arith, lookup-insert stage other fields artifacts, string_eq.beq_iff other stage)

module _ (o : Outside) (stage : String) (st : NodeState) (produced : Produced) (db : Database)
    (known : IsKnown st.run_id db) where
  pub stage_node_failed :
      is_failed produced.result.status ≡ true
      → stage_node o stage st produced db ≡ (
        ok (insert stage (failed_artifact produced.result) st.stage_artifacts),
        failed_db o stage st produced db,
      )
  unfolding stage_node
  stage_node_failed h = ground (
    arith,
    log_audit-IsKnown o st.run_id EventType.stage_started none (("stage", Value.text stage) ∷ []) db
        known,
    save_result-IsKnown st produced.result (started_db o stage st db) known,
    counted_hit o stage st produced db known,
    log_audit-IsKnown o st.run_id EventType.stage_failed (some stage)
        (("error", error_value produced.result.error_message) ∷ [])
        (counted_db o stage st produced db) (counted-IsKnown o stage st produced db known),
  )

  pub stage_node_completed :
      is_failed produced.result.status ≡ false
      → stage_node o stage st produced db ≡ (
        ok (
            insert stage
              (finish o stage st produced (completed_db o stage st produced db)).0
              st.stage_artifacts),
        (finish o stage st produced (completed_db o stage st produced db)).1,
      )
  unfolding stage_node
  stage_node_completed h = ground (
    arith,
    log_audit-IsKnown o st.run_id EventType.stage_started none (("stage", Value.text stage) ∷ []) db
        known,
    save_result-IsKnown st produced.result (started_db o stage st db) known,
    counted_hit o stage st produced db known,
    log_audit-IsKnown o st.run_id EventType.stage_completed (some stage) []
        (counted_db o stage st produced db) (counted-IsKnown o stage st produced db known),
  )

  pub stage_node_records :
      (artifacts : Dict String Fields) × (db' : Database) × (stage_node o stage st produced db
        ≡ (ok artifacts, db'))
      × (db'.audit ≡ db.audit ++ stage_events o stage st produced.result (length db.audit))
      × (db'.store.stage_results
          ≡ record (produced.result) { run_id = st.run_id } ∷ db.store.stage_results)
      × (db'.metrics ≡ (
          if produced.cache_hit
          then hit_row o st stage produced.result ∷ db.metrics
          else db.metrics))
      × ((other : String)
          → other ≢ stage
          → lookup other artifacts ≡ lookup other st.stage_artifacts)
  stage_node_records =
      let (_, results, metrics) = counted-frame o stage st produced db in
      let before = completed_db o stage st produced db in
      let (fields, after) = finish o stage st produced before in
      let same = finish-SameBooks o stage st produced before in
      elim (Bool-cases (is_failed produced.result.status)) [
        | inl bad ↦ (
          insert stage (failed_artifact produced.result) st.stage_artifacts,
          failed_db o stage st produced db,
          stage_node_failed bad,
          ended_audit o stage st produced EventType.stage_failed
                (("error", error_value produced.result.error_message) ∷ []) db
              ∙ rw bad refl,
          results,
          metrics,
          λ other.
              lookup-insert_other stage other (failed_artifact produced.result) st.stage_artifacts,
        )
        | inr good ↦ (
          insert stage fields st.stage_artifacts,
          after,
          stage_node_completed good,
          same.0 ∙ (ended_audit o stage st produced EventType.stage_completed [] db ∙ rw good refl),
          same.2 ∙ results,
          same.1 ∙ metrics,
          λ other. lookup-insert_other stage other fields st.stage_artifacts,
        )
      ]
