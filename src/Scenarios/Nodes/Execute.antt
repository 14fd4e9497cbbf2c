-- ===== src/Scenarios/Nodes/Execute.antt =====
-- `make_stage_node` of orchestrator/scenarios/nodes.py, and what a stage's node writes down.
use url_copilot.Prelude.{
  Bool, Dict, Option, Result, String, [], err, false, if◌then◌else◌, insert, nat_eq, none, not, ok,
  some, string_eq, true, ◌&&◌, ◌==◌, ◌∷◌,
}
use url_copilot.Prelude.Json.{Fields, Value}
use url_copilot.Gateway.Ledger.{record_row}
use url_copilot.Governance.Audit.{EventType}
use url_copilot.Runs.Store.{StageResult, save_stage_result}
use url_copilot.Metrics.{is_failed}
use url_copilot.Scenarios.Nodes.{
  Database, NodeError, NodeState, Outside, Produced, deliver, integrity_error, log_audit, or_empty,
  owners,
}

-- the row of a stage that the response cache has answered
unfoldable pub record_hit :
    Outside → NodeState → String → StageResult → Database → Result NodeError Database
record_hit o st stage result db =
    elim (record_row true o.round6 (owners db.store.runs) o.today o.trace_id
      (record {
        token = "";
        run_id = st.run_id;
        stage_name = stage;
        messages = [];
        model = elim result.model_used [
          | none ↦ "gpt-4o"
          | some m ↦ if m == "" then "gpt-4o" else m
        ];
        prompt_version = or_empty result.prompt_version;
      })
      (record { input_tokens = 0; output_tokens = 0 }) 0 db.metrics) [
        | err x ↦ err integrity_error
        | ok metrics ↦ ok (record db { metrics = metrics })
      ]

unfoldable pub save_result : NodeState → StageResult → Database → Result NodeError Database
save_result st result db =
    elim (save_stage_result db.store (record result { run_id = st.run_id })) [
      | err x ↦ err integrity_error
      | ok store ↦ ok (record db { store = store })
    ]

abbrev pub error_value : Option String → Value
error_value none = Value.null
error_value (some message) = Value.text message

abbrev pub failed_artifact : StageResult → Fields
failed_artifact result =
    ("error", error_value result.error_message) ∷ ("status", Value.text "failed") ∷ []

-- the fields of the artifact, none where there is no artifact
abbrev pub artifact_fields : Outside → StageResult → Fields
artifact_fields o result = elim result.output_artifact [
  | none ↦ []
  | some json ↦ elim (o.load_object json) [ none ↦ [] | some fields ↦ fields ]
]

abbrev pub is_empty : Fields → Bool
is_empty [] = true
is_empty (f ∷ fs) = false

-- the artifact that goes into the state
unfoldable pub finish : Outside → String → NodeState → Produced → Database → Fields × Database
unfolding deliver
finish o stage st produced db =
    let fields = artifact_fields o produced.result in
    if stage == "implementation" && not (is_empty fields)
    then deliver o st produced.tool_cache fields db
    else (fields, db)

-- the node: the stage's artifacts with the new one, and what stays written
unfoldable pub stage_node :
    Outside
    → String
    → NodeState
    → Produced
    → Database
    → Result NodeError (Dict String Fields) × Database
unfolding log_audit save_result record_hit finish
stage_node o stage st produced db =
    elim (log_audit o st.run_id EventType.stage_started none (("stage", Value.text stage) ∷ [])
      db) [
        | err x ↦ (err x, db)
        | ok db1 ↦ elim (save_result st produced.result db1) [
          | err x ↦ (err x, db1)
          | ok db2 ↦
              elim (if produced.cache_hit
                then record_hit o st stage produced.result db2
                else ok db2) [
                  | err x ↦ (err x, db2)
                  | ok db3 ↦
                      if is_failed produced.result.status
                      then elim (log_audit o st.run_id EventType.stage_failed (some stage)
                          (("error", error_value produced.result.error_message) ∷ []) db3) [
                            | err x ↦ (err x, db3)
                            | ok db4 ↦ (
                              ok (
                                  insert stage (failed_artifact produced.result)
                                    st.stage_artifacts),
                              db4,
                            )
                          ]
                      else elim (log_audit o st.run_id EventType.stage_completed (some stage) []
                          db3) [
                            | err x ↦ (err x, db3)
                            | ok db4 ↦
                                let (fields, db5) = finish o stage st produced db4 in
                                (ok (insert stage fields st.stage_artifacts), db5)
                          ]
                ]
        ]
      ]
