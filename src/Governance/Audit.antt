-- ===== src/Governance/Audit.antt =====
-- orchestrator/governance/audit.py, on the table orch_audit_events. The ids of orch_runs that its
-- foreign key may name and the clock of the database are arguments.
use url_copilot.Prelude.{
  List, Option, Result, String, [], contains, err, if◌then◌else◌, ltb, nat_eq, ok, select,
  string_eq, ℕ, ◌++◌, ◌==◌, ◌∷◌,
}
use url_copilot.Prelude.Json.{Fields}

pub data EventType : Type 0 where
  stage_started stage_completed stage_failed stage_retrying : EventType
  checkpoint_reached checkpoint_approved checkpoint_rejected : EventType
  checkpoint_approved_override : EventType
  evaluator_started evaluator_completed : EventType
  run_started run_completed run_failed : EventType
  pr_created pr_merged memory_written : EventType
  clarification_asked clarification_answered : EventType

pub record AuditEvent : Type 0 where
  pub run_id : String
  pub event_type : EventType
  pub stage_name : Option String
  pub actor : String
  pub actor_role : Option String
  pub details : Option Fields
  pub created_at : ℕ

pub data AuditError : Type 0 where
  foreign_key_violation : AuditError

-- INSERT INTO orch_audit_events: the newest event is the last
unfoldable pub log :
    List String → AuditEvent → List AuditEvent → Result AuditError (List AuditEvent)
log runs event events =
    if contains event.run_id runs then ok (events ++ event ∷ []) else err foreign_key_violation

-- ORDER BY created_at ASC
abbrev pub insert_event : AuditEvent → List AuditEvent → List AuditEvent
insert_event e [] = e ∷ []
insert_event e (f ∷ fs) =
    if ltb f.created_at e.created_at then f ∷ insert_event e fs else e ∷ f ∷ fs

abbrev pub chronological : List AuditEvent → List AuditEvent
chronological [] = []
chronological (e ∷ es) = insert_event e (chronological es)

unfoldable pub get_events : String → List AuditEvent → List AuditEvent
get_events run_id events = chronological (select (λ e. e.run_id == run_id) events)
