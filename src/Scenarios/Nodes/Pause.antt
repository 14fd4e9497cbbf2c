-- ===== src/Scenarios/Nodes/Pause.antt =====
-- `make_gate_node` of orchestrator/scenarios/nodes.py. LangGraph runs the node a first time, where
-- `interrupt` raises, and from its start again when the run is resumed.
use url_copilot.Prelude.{
  Bool, Dict, Option, Result, String, [], arith, err, false, insert, length, length-append, nat_eq,
  none, ok, refl, some, string_eq, true, ℕ, ◌++◌, ◌+◌, ◌∷◌, ◌≡◌,
}
use url_copilot.Prelude.Json.{Fields, Value}
use url_copilot.Governance.Audit.{AuditEvent, EventType}
use url_copilot.Scenarios.Nodes.Writes.{IsKnown, log_audit-IsKnown, node_event}
use url_copilot.Scenarios.Nodes.{Database, NodeError, NodeState, Outside, log_audit}

-- what `interrupt` returns on the resumption: a dict with what it has of two keys, or another value
pub data Answer : Type 0 where
  decision : Option Bool → Option String → Answer
  other : Answer

abbrev pub approved_of : Answer → Bool
approved_of (decision none approver) = false
approved_of (decision (some approved) approver) = approved
approved_of other = false

abbrev pub approver_of : Answer → String
approver_of (decision approved none) = "unknown"
approver_of (decision approved (some approver)) = approver
approver_of other = "unknown"

pub data GateResult : Type 0 where
  interrupted : GateResult
  returned : Dict String Fields → GateResult

abbrev pub decision_event : Bool → EventType
decision_event true = EventType.checkpoint_approved
decision_event false = EventType.checkpoint_rejected

-- one execution of the node, without and with an answer
unfoldable pub gate_node :
    Outside
    → String
    → String
    → NodeState
    → Option Answer
    → Database
    → Result NodeError GateResult × Database
unfolding log_audit
gate_node o gate permission st answer db =
    elim (log_audit o st.run_id EventType.checkpoint_reached none
      (("gate", Value.text gate) ∷ ("required_permission", Value.text permission) ∷ []) db) [
        | err x ↦ (err x, db)
        | ok db1 ↦ elim answer [
          | none ↦ (ok interrupted, db1)
          | some a ↦
              elim (log_audit o st.run_id (decision_event (approved_of a)) none
                (("gate", Value.text gate)
                  ∷ ("approved", Value.boolean (approved_of a))
                  ∷ ("approver", Value.text (approver_of a))
                  ∷ [])
                db1) [
                  | err x ↦ (err x, db1)
                  | ok db2 ↦ (
                    ok (
                        returned (
                          insert gate
                            (("approved", Value.boolean (approved_of a))
                              ∷ ("approver", Value.text (approver_of a))
                              ∷ [])
                            st.stage_artifacts)),
                    db2,
                  )
                ]
        ]
      ]

abbrev pub gate_details : String → String → Fields
gate_details gate permission =
    ("gate", Value.text gate) ∷ ("required_permission", Value.text permission) ∷ []

abbrev pub decision_details : String → Answer → Fields
decision_details gate answer =
    ("gate", Value.text gate)
    ∷ ("approved", Value.boolean (approved_of answer))
    ∷ ("approver", Value.text (approver_of answer))
    ∷ []

-- the events of the gate, at place `n` of the log
abbrev pub reached : Outside → String → String → NodeState → ℕ → AuditEvent
reached o gate permission st n =
    node_event o st.run_id EventType.checkpoint_reached none (gate_details gate permission) n

abbrev pub decided : Outside → String → NodeState → Answer → ℕ → AuditEvent
decided o gate st answer n =
    node_event o st.run_id (decision_event (approved_of answer)) none (decision_details gate answer)
      n

pub gate_node_passes :
    (o : Outside) (gate permission : String) (st : NodeState) (answer : Answer) (db : Database)
    → IsKnown st.run_id db
    → (db1 : Database) × (db2 : Database) × (gate_node o gate permission st none db
        ≡ (ok interrupted, db1))
      × (gate_node o gate permission st (some answer) db1 ≡ (
        ok (
            returned (
              insert gate
                (("approved", Value.boolean (approved_of answer))
                  ∷ ("approver", Value.text (approver_of answer))
                  ∷ [])
                st.stage_artifacts)),
        db2,
      ))
      × (db2.store ≡ db.store)
      × (db2.metrics ≡ db.metrics)
      × (db2.audit
          ≡ ((db.audit ++ reached o gate permission st (length db.audit) ∷ [])
              ++ reached o gate permission st (length db1.audit) ∷ [])
            ++ decided o gate st answer (length db1.audit + 1) ∷ [])
unfolding gate_node
gate_node_passes o gate permission st answer db known =
    let one = gate_details gate permission in
    let two = decision_details gate answer in
    let db1 = record db {
      audit = db.audit ++ reached o gate permission st (length db.audit) ∷ [];
    } in
    let again = record db1 {
      audit = db1.audit ++ reached o gate permission st (length db1.audit) ∷ [];
    } in
    let db2 = record again {
      audit = again.audit ++ decided o gate st answer (length again.audit) ∷ [];
    } in
    let first_log = log_audit-IsKnown o st.run_id EventType.checkpoint_reached none one db known in
    let second_log =
      log_audit-IsKnown o st.run_id EventType.checkpoint_reached none one db1 known in
    let third_log =
      log_audit-IsKnown o st.run_id (decision_event (approved_of answer)) none two again known in
    (
      db1,
      db2,
      ground (arith, first_log),
      ground (arith, second_log, third_log),
      refl,
      refl,
      rw (length-append db1.audit (reached o gate permission st (length db1.audit) ∷ [])) refl,
    )
