-- ===== src/Scenarios/Pipeline/Updates.antt =====
-- What a node adds to the artifacts of the stages.
use mathlib.Core.Path.{subst}
use url_copilot.Prelude.{
  Bool-cases, Dict, String, [], arith, contains, inl, inr, insert, lookup, lookup-insert,
  lookup-insert_self, nat_eq, ok, some, string_eq, sym, ◌==◌, ◌∙◌, ◌∷◌, ◌≡◌,
}
use url_copilot.Prelude.Json.{Fields, Value}
use url_copilot.Scenarios.Nodes.Records.{completed_db, stage_node_completed, stage_node_failed}
use url_copilot.Governance.Audit.{log}
use url_copilot.Scenarios.Nodes.{Database, NodeState, Outside, Produced, log_audit, run_ids}
use url_copilot.Scenarios.Nodes.Execute.{failed_artifact, finish, stage_node}
use url_copilot.Scenarios.Nodes.Pause.{Answer, approved_of, approver_of, gate_node, returned}
use url_copilot.Scenarios.Pipeline.{Returns, by_gate, by_stage, merge}
use url_copilot.Metrics.{is_failed}

-- an artifact of the node is there
abbrev pub Has : String → Dict String Fields → Type 0
Has node artifacts = (fields : Fields) × (lookup node artifacts ≡ some fields)

Has-insert_self :
    (node : String) (fields : Fields) (d : Dict String Fields) → Has node (insert node fields d)
Has-insert_self node fields d = (fields, lookup-insert_self node fields d)

Has-insert :
    (node key : String) (fields : Fields) (d : Dict String Fields)
    → Has node d
    → Has node (insert key fields d)
Has-insert node key fields d (old, here) = elim (Bool-cases (node == key)) [
  | inl same ↦ (fields, ground (arith, lookup-insert key node fields d, same))
  | inr different ↦ (old, ground (arith, lookup-insert key node fields d, different))
]

pub Has-merge_left : (node : String) (d e : Dict String Fields) → Has node d → Has node (merge d e)
Has-merge_left node d [] has = has
Has-merge_left node d ((k, v) ∷ e) has =
    Has-merge_left node (insert k v d) e (Has-insert node k v d has)

pub Has-merge_right : (node : String) (d e : Dict String Fields) → Has node e → Has node (merge d e)
Has-merge_right node d [] (fields, here) = absurd (ground arith)
Has-merge_right node d ((k, v) ∷ e) (fields, here) = elim (Bool-cases (node == k)) [
  | inl same ↦
      Has-merge_left node (insert k v d) e (v, ground (arith, lookup-insert k node v d, same))
  | inr different ↦ Has-merge_right node (insert k v d) e (fields, ground (arith, different))
]

stage_node-inserts :
    (o : Outside) (stage_name : String) (st : NodeState) (produced : Produced) (db db' : Database)
    (artifacts : Dict String Fields)
    → stage_node o stage_name st produced db ≡ (ok artifacts, db')
    → (fields : Fields) × (artifacts ≡ insert stage_name fields st.stage_artifacts)
unfolding stage_node log_audit log
stage_node-inserts o stage_name st produced db db' artifacts ran =
    elim (Bool-cases (contains st.run_id (run_ids db.store.runs))) [
      | inr unknown ↦ absurd (ground arith)
      | inl known ↦ elim (Bool-cases (is_failed produced.result.status)) [
        | inl bad ↦
            let same = sym ran ∙ stage_node_failed o stage_name st produced db known bad in
            (failed_artifact produced.result, ground (arith, same))
        | inr good ↦
            let same = sym ran ∙ stage_node_completed o stage_name st produced db known good in
            (
              (finish o stage_name st produced (completed_db o stage_name st produced db)).0,
              ground (arith, same),
            )
      ]
    ]

gate_node-inserts :
    (o : Outside) (gate_name permission : String) (st : NodeState) (answer : Answer)
    (db db' : Database) (artifacts : Dict String Fields)
    → gate_node o gate_name permission st (some answer) db ≡ (ok (returned artifacts), db')
    → (fields : Fields) × (artifacts ≡ insert gate_name fields st.stage_artifacts)
unfolding gate_node log_audit log
gate_node-inserts o gate_name permission st answer db db' artifacts ran =
    elim (Bool-cases (contains st.run_id (run_ids db.store.runs))) [
      | inr unknown ↦ absurd (ground arith)
      | inl known ↦ (
        ("approved", Value.boolean (approved_of answer))
            ∷ ("approver", Value.text (approver_of answer))
            ∷ [],
        ground arith,
      )
    ]

pub Returns-Has :
    (node : String) (seen update : Dict String Fields)
    → Returns node seen update
    → Has node update × ((name : String) → Has name seen → Has name update)
Returns-Has node seen _ (by_stage o st produced db db' {artifacts} kind same ran) =
    let (fields, e) = stage_node-inserts o node st produced db db' artifacts ran in
    let whole : artifacts ≡ insert node fields seen = ground (arith, e, same) in
    (
      subst (Has node) (sym whole) (Has-insert_self node fields seen),
      λ name has. subst (Has name) (sym whole) (Has-insert name node fields seen has),
    )
Returns-Has node seen _ (by_gate o permission st answer db db' {artifacts} kind same ran) =
    let (fields, e) = gate_node-inserts o node permission st answer db db' artifacts ran in
    let whole : artifacts ≡ insert node fields seen = ground (arith, e, same) in
    (
      subst (Has node) (sym whole) (Has-insert_self node fields seen),
      λ name has. subst (Has name) (sym whole) (Has-insert name node fields seen has),
    )
