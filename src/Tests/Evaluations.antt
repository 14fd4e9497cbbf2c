-- ===== src/Tests/Evaluations.antt =====
-- Runs of the gate at which a reviewer sees an evaluation.
use url_copilot.Prelude.{
  List, Result, String, [], err, false, if◌then◌else◌, nat_eq, none, not, ok, pos, refl, some,
  string_eq, true, ◌++◌, ◌==◌, ◌∷◌, ◌≡◌, ◌⊎◌,
}
use url_copilot.Gateway.Auth.{AuthError, CurrentUser, authentication_error}
use url_copilot.Governance.Checkpoint.{check_permission, request_approval, verify_four_eyes}
use url_copilot.Evaluator.{
  AuditLog, EvaluationReport, Event, HybridFeedback, Validator, approval_rejected,
  checkpoint_approved_override, checkpoint_rejected, conclude, decision_event, evaluate,
  evaluator_completed, evaluator_started, null, parse_response, prompt_human, read_answer, run,
  verify_approver,
}
use url_copilot.Evaluator.Decisions.{evaluated_events, reviewed, run_returns}

abbrev bob : CurrentUser
bob = record {
  github_login = "bob";
  email = "bob@a.io";
  role = "TECH_LEAD";
  permissions = "approve_architecture" ∷ [];
  daily_token_budget = pos 1_000;
}

abbrev who : String → Result AuthError CurrentUser
who token = if token == "bob_tl_token" then ok bob else err authentication_error

abbrev same : String → String
same s = s

-- a validator that finds the issues given
abbrev finding_issues : List String → Validator
finding_issues issues = record {
  prompt_map = ("architecture", "critic.md") ∷ [];
  read_text = λ path. some "critic";
  ask = λ prompt artifact. some (some "{}");
  load_json = λ raw. some (record {
    overall_score = some 2;
    strengths = some [];
    concerns = some [];
    blocking_issues = some issues;
    suggestions = some [];
    recommendation = some "REJECT";
  });
}

abbrev report : List String → EvaluationReport
report issues = record {
  stage_name = "architecture";
  overall_score = 2;
  strengths = [];
  concerns = [];
  blocking_issues = issues;
  suggestions = [];
  recommendation = "REJECT";
}

abbrev feedback : HybridFeedback
feedback = record {
  stage_name = "architecture";
  ai_evaluation = report ("no index" ∷ []);
  human_comment = "";
  approved_by = "bob";
  override = true;
}

abbrev started_log : List Event
started_log =
    evaluator_started "architecture" ∷ evaluator_completed "architecture" 2 "REJECT" 1 ∷ []

evaluates :
    evaluate (finding_issues ("no index" ∷ [])) "architecture" "{}" (some [])
    ≡ (ok (report ("no index" ∷ [])), some started_log)
unfolding evaluate parse_response
evaluates = refl

overrides :
    reviewed same same
      (finding_issues ("no index" ∷ []))
      who
      true
      "architecture"
      "{}"
      "alice"
      "approve_architecture"
      "bob_tl_token"
      ("" ∷ "maybe" ∷ "yes" ∷ [])
      []
    ≡ (
      ok feedback,
      some (
          started_log
          ++ checkpoint_approved_override "architecture" "bob" ("no index" ∷ []) "" ∷ []),
    )
unfolding run evaluate parse_response verify_approver request_approval check_permission
    verify_four_eyes prompt_human read_answer conclude
overrides = refl

rejects :
    reviewed same same
      (finding_issues [])
      who
      true
      "architecture"
      "{}"
      "alice"
      "approve_architecture"
      "bob_tl_token"
      ("no" ∷ "n" ∷ [])
      []
    ≡ (
      err approval_rejected,
      some (
          evaluator_started "architecture"
          ∷ evaluator_completed "architecture" 2 "REJECT" 0
          ∷ checkpoint_rejected "architecture" "bob" "no"
          ∷ []),
    )
unfolding run evaluate parse_response verify_approver request_approval check_permission
    verify_four_eyes prompt_human read_answer conclude
rejects = refl

names_from_tokens : verify_approver none "alice" "approve_architecture" "bob_tl_token" ≡ ok "bob"
unfolding verify_approver
names_from_tokens = refl

allows : request_approval who "approve_architecture" "alice" "bob_tl_token" ≡ ok "bob"
unfolding request_approval check_permission verify_four_eyes
allows = refl

consents : prompt_human same same ("fine" ∷ "y" ∷ []) ≡ some ("fine", true)
unfolding prompt_human read_answer
consents = refl

run_returns_example :
    (request_approval who "approve_architecture" "alice" "bob_tl_token" ≡ ok "bob")
    × (◌≡◌ {A = AuditLog}
        (some (
          started_log
          ++ checkpoint_approved_override "architecture" "bob" ("no index" ∷ []) "" ∷ []))
        (some (
          ([] ++ evaluated_events (report ("no index" ∷ [])))
          ++ decision_event "architecture" "bob" "" true (report ("no index" ∷ [])) ∷ [])))
    × (true ≡ not (null ("no index" ∷ [])))
    × ((◌≡◌ {A = String} "" "") ⊎ (true ≡ false))
run_returns_example =
    run_returns same same (finding_issues ("no index" ∷ [])) who true "architecture" "{}" "alice"
      "approve_architecture" "bob_tl_token" ("" ∷ "maybe" ∷ "yes" ∷ []) [] feedback
      (some (
        started_log ++ checkpoint_approved_override "architecture" "bob" ("no index" ∷ []) "" ∷ []))
      overrides
