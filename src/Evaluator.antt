-- ===== src/Evaluator.antt =====
-- orchestrator/evaluator: the evaluation of a stage's artifact by a language model, and the gate at
-- which a reviewer decides. The prompt files, the gateway, `str.strip` and `str.lower`, and the
-- reading of the answer's JSON without its fence are arguments; `none` stands for an exception.
pub mod Decisions
use Prim.Native.Char.{code}
use url_copilot.Prelude.{
  Bool, Dict, List, Option, Result, String, [], contains, err, false, if◌then◌else◌, length, lookup,
  nat_beq, nat_eq, none, not, ok, or_raise, raise_if, some, string_eq, true, ℕ, ◌&&◌, ◌++◌, ◌==◌,
  ◌>>=◌, ◌>>◌, ◌||◌, ◌∷◌,
}
use url_copilot.Governance.Checkpoint.{ApprovalError}

pub record EvaluationReport : Type 0 where
  pub stage_name : String
  pub overall_score : ℕ
  pub strengths : List String
  pub concerns : List String
  pub blocking_issues : List String
  pub suggestions : List String
  pub recommendation : String

pub record HybridFeedback : Type 0 where
  pub stage_name : String
  pub ai_evaluation : EvaluationReport
  pub human_comment : String
  pub approved_by : String
  pub override : Bool

-- an event's `event_type` and `details`; the actor is "system" of the first two, else the approver
pub data Event : Type 0 where
  evaluator_started : String → Event
  evaluator_completed : String → ℕ → String → ℕ → Event
  checkpoint_rejected checkpoint_approved : String → String → String → Event
  checkpoint_approved_override : String → String → List String → String → Event

pub data GateError : Type 0 where
  unknown_stage prompt_unreadable gateway_raised : GateError
  malformed_json missing_keys unknown_recommendation : GateError
  denied : ApprovalError → GateError
  end_of_input approval_rejected type_error : GateError

-- the `audit` that may be None, with the events that it has written, the last last
abbrev pub AuditLog : Type 0
AuditLog = Option (List Event)

abbrev pub audit_log : Event → AuditLog → AuditLog
audit_log event none = none
audit_log event (some events) = some (events ++ event ∷ [])

-- the object of the answer, with the keys that it has
pub record Fields : Type 0 where
  pub overall_score : Option ℕ
  pub strengths : Option (List String)
  pub concerns : Option (List String)
  pub blocking_issues : Option (List String)
  pub suggestions : Option (List String)
  pub recommendation : Option String

abbrev pub valid_recommendations : List String
valid_recommendations = "APPROVE" ∷ "APPROVE_WITH_NOTES" ∷ "REJECT" ∷ []

unfoldable pub parse_response :
    (String → Option Fields) → String → String → Result GateError EvaluationReport
parse_response load_json stage raw = do
  fields ← or_raise (load_json raw) malformed_json
  score ← or_raise fields.overall_score missing_keys
  strengths' ← or_raise fields.strengths missing_keys
  concerns' ← or_raise fields.concerns missing_keys
  blocking ← or_raise fields.blocking_issues missing_keys
  suggestions' ← or_raise fields.suggestions missing_keys
  verdict ← or_raise fields.recommendation missing_keys
  raise_if (not (contains verdict valid_recommendations)) unknown_recommendation
  ok (record {
    stage_name = stage;
    overall_score = score;
    strengths = strengths';
    concerns = concerns';
    blocking_issues = blocking;
    suggestions = suggestions';
    recommendation = verdict;
  })

pub record Validator : Type 0 where
  pub prompt_map : Dict String String
  pub read_text : String → Option String
  -- `self.gateway.call` on the critic's prompt and the artifact: the content of the response
  pub ask : String → String → Option (Option String)
  pub load_json : String → Option Fields

unfoldable pub evaluate :
    Validator → String → String → AuditLog → Result GateError EvaluationReport × AuditLog
evaluate validator stage artifact audit = elim (lookup stage validator.prompt_map) [
  | none ↦ (err unknown_stage, audit)
  | some path ↦ elim (validator.read_text path) [
    | none ↦ (err prompt_unreadable, audit)
    | some critic_prompt ↦
        let started = audit_log (evaluator_started stage) audit in
        elim (validator.ask critic_prompt artifact) [
          | none ↦ (err gateway_raised, started)
          | some content ↦
              elim (parse_response validator.load_json stage
                (elim content [ none ↦ "" | some text ↦ text ])) [
                  | err x ↦ (err x, started)
                  | ok report ↦ (
                    ok report,
                    audit_log
                        (evaluator_completed stage report.overall_score report.recommendation
                          (length report.blocking_issues))
                        started,
                  )
                ]
        ]
  ]
]

-- `token.split("_")[0] if "_" in token else token`
abbrev pub display_name : String → String
display_name String.[] = String.[]
display_name (String.◌∷◌ c s) =
    let rest = display_name s in if nat_beq (code c) 95 then String.[] else String.◌∷◌ c rest

-- `checkpoint` is the checkpoint's `request_approval` on a permission, a login and a token
unfoldable pub verify_approver :
    Option (String → String → String → Result ApprovalError String)
    → String
    → String
    → String
    → Result GateError String
verify_approver none triggered_by permission token = ok (display_name token)
verify_approver (some checkpoint) triggered_by permission token =
    elim (checkpoint permission triggered_by token) [ err x ↦ err (denied x) | ok login ↦ ok login ]

-- the `while True` on the lines typed; input ends with EOFError
unfoldable pub read_answer : (String → String) → List String → Option Bool
read_answer normal [] = none
read_answer normal (line ∷ lines) =
    let rest = read_answer normal lines in
    let answer = normal line in
    if answer == "y" || answer == "yes"
    then some true
    else if answer == "n" || answer == "no"
    then some false
    else rest

unfoldable pub prompt_human :
    (String → String) → (String → String) → List String → Option (String × Bool)
prompt_human strip lower [] = none
prompt_human strip lower (line ∷ lines) = elim (read_answer (λ s. lower (strip s)) lines) [
  | none ↦ none
  | some approved ↦ some (strip line, approved)
]

abbrev pub null : List String → Bool
null [] = true
null (x ∷ xs) = false

abbrev pub decision_event : String → String → String → Bool → EvaluationReport → Event
decision_event stage approver comment approved report =
    if not approved
    then checkpoint_rejected stage approver comment
    else if not (null report.blocking_issues)
    then checkpoint_approved_override stage approver report.blocking_issues comment
    else checkpoint_approved stage approver comment

module _ (strip lower : String → String) (validator : Validator)
    (checkpoint : Option (String → String → String → Result ApprovalError String))
    (has_memory : Bool) where
  -- after the decision: the call of `memory.save` has a keyword that it does not take
  unfoldable pub conclude :
      String → EvaluationReport → String → String → Bool → Result GateError HybridFeedback
  conclude stage report approver comment approved =
      if not approved
      then err approval_rejected
      else if not (comment == "") && has_memory
      then err type_error
      else ok (record {
        stage_name = stage;
        ai_evaluation = report;
        human_comment = comment;
        approved_by = approver;
        override = not (null report.blocking_issues);
      })

  -- `run` on the lines that the reviewer types
  unfoldable pub run :
      String
      → String
      → String
      → String
      → String
      → List String
      → AuditLog
      → Result GateError HybridFeedback × AuditLog
  run stage artifact triggered_by permission token lines audit =
      let (evaluated, audit1) = evaluate validator stage artifact audit in
      elim evaluated [
        | err x ↦ (err x, audit1)
        | ok report ↦ elim (verify_approver checkpoint triggered_by permission token) [
          | err x ↦ (err x, audit1)
          | ok approver ↦ elim (prompt_human strip lower lines) [
            | none ↦ (err end_of_input, audit1)
            | some (comment, approved) ↦ (
              conclude stage report approver comment approved,
              audit_log (decision_event stage approver comment approved report) audit1,
            )
          ]
        ]
      ]
