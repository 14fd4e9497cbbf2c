-- ===== src/Evaluator/Decisions.antt =====
-- What `HybridGate.run` leaves behind when it returns, and when it raises after the decision.
use mathlib.Core.List.{append_assoc}
use url_copilot.Prelude.{
  Bool, List, Option, Option-cases, Result, Result-cases, String, [], ap, arith, err, false, inl,
  inr, length, lookup, nat_eq, none, not, ok, refl, some, string_eq, sym, true, ◌++◌, ◌==◌, ◌∙◌,
  ◌∷◌, ◌≡◌, ◌≢◌, ◌⊎◌,
}
use url_copilot.Gateway.Auth.{AuthError, CurrentUser}
use url_copilot.Evaluator.{
  AuditLog, EvaluationReport, Event, Fields, GateError, HybridFeedback, Validator, conclude,
  decision_event, evaluate, evaluator_completed, evaluator_started, null, parse_response,
  prompt_human, run, type_error, verify_approver,
}
use url_copilot.Governance.Checkpoint.{request_approval}

-- the events of an evaluation that returns
abbrev pub evaluated_events : EvaluationReport → List Event
evaluated_events report =
    evaluator_started report.stage_name
    ∷ evaluator_completed report.stage_name report.overall_score report.recommendation
        (length report.blocking_issues)
    ∷ []

parse_response-stage :
    (load_json : String → Option Fields) (stage raw : String) (report : EvaluationReport)
    → parse_response load_json stage raw ≡ ok report
    → report.stage_name ≡ stage
unfolding parse_response
parse_response-stage load_json stage raw report h = ground arith

evaluate_ok :
    (validator : Validator) (stage artifact : String) (events : List Event)
    (report : EvaluationReport) (log : AuditLog)
    → evaluate validator stage artifact (some events) ≡ (ok report, log)
    → (log ≡ some (events ++ evaluated_events report)) × (report.stage_name ≡ stage)
unfolding evaluate
evaluate_ok validator stage artifact events report log h =
    elim (Option-cases (lookup stage validator.prompt_map)) [
      | inl e ↦ absurd (ground arith)
      | inr (path, e) ↦ elim (Option-cases (validator.read_text path)) [
        | inl e' ↦ absurd (ground arith)
        | inr (prompt, e') ↦ elim (Option-cases (validator.ask prompt artifact)) [
          | inl e'' ↦ absurd (ground arith)
          | inr (content, e'') ↦
              elim (Result-cases (
                parse_response validator.load_json stage
                  (elim content [ none ↦ "" | some text ↦ text ]))) [
                    | inl (x, failed) ↦ absurd (ground arith)
                    | inr (r, parsed) ↦
                        let named =
                          parse_response-stage validator.load_json stage
                            (elim content [ none ↦ "" | some text ↦ text ]) r parsed in
                        ground (
                          arith,
                          named,
                          append_assoc events (evaluator_started stage ∷ []) (
                              evaluator_completed stage r.overall_score r.recommendation
                                (length r.blocking_issues)
                              ∷ []),
                        )
                  ]
        ]
      ]
    ]

module _ (strip lower : String → String) (validator : Validator)
    (who : String → Result AuthError CurrentUser) (has_memory : Bool) where
  abbrev pub reviewed :
      String
      → String
      → String
      → String
      → String
      → List String
      → List Event
      → Result GateError HybridFeedback × AuditLog
  reviewed stage artifact triggered_by permission token lines events =
      run strip lower validator
        (some (λ needed trigger given. request_approval who needed trigger given)) has_memory stage
        artifact triggered_by permission token lines (some events)

  abbrev concluded :
      String → EvaluationReport → String → String → Bool → Result GateError HybridFeedback
  concluded stage report login comment approved =
      conclude strip lower validator
        (some (λ needed trigger given. request_approval who needed trigger given)) has_memory stage
        report login comment approved

  reviewed_decided :
      (stage artifact triggered_by permission token : String) (lines : List String)
      (events : List Event) (report : EvaluationReport) (login comment : String) (approved : Bool)
      (log : AuditLog)
      → evaluate validator stage artifact (some events) ≡ (ok report, log)
      → request_approval who permission triggered_by token ≡ ok login
      → prompt_human strip lower lines ≡ some (comment, approved)
      → reviewed stage artifact triggered_by permission token lines events ≡ (
        concluded stage report login comment approved,
        some (
            (events ++ evaluated_events report)
            ++ decision_event stage login comment approved report ∷ []),
      )
  unfolding run verify_approver
  reviewed_decided stage artifact triggered_by permission token lines events report login comment
        approved log evaluated allowed typed =
      let outcome = evaluate validator stage artifact (some events) in
      let returned : outcome.0 ≡ ok report = ap (λ r. r.0) evaluated in
      let written : outcome.1 ≡ some (events ++ evaluated_events report) =
        ap (λ r. r.1) evaluated
        ∙ (evaluate_ok validator stage artifact events report log evaluated).0 in
      ground (arith, returned, allowed, typed, written)

  -- When the gate of a run returns its feedback, request_approval has let the reviewer's token
  -- through with the login that the feedback names; three events have been written, the last of
  -- them the reviewer's approval with the comment, which is the override exactly if the evaluation
  -- has blocking issues; and there is no comment or no memory store.
  pub run_returns :
      (stage artifact triggered_by permission token : String) (lines : List String)
      (events : List Event) (feedback : HybridFeedback) (log : AuditLog)
      → reviewed stage artifact triggered_by permission token lines events ≡ (ok feedback, log)
      → (request_approval who permission triggered_by token ≡ ok feedback.approved_by)
        × (log
            ≡ some (
                (events ++ evaluated_events feedback.ai_evaluation)
                ++ decision_event stage feedback.approved_by feedback.human_comment true
                    feedback.ai_evaluation
                  ∷ []))
        × (feedback.override ≡ not (null feedback.ai_evaluation.blocking_issues))
        × ((feedback.human_comment ≡ "") ⊎ (has_memory ≡ false))
  unfolding run verify_approver conclude
  run_returns stage artifact triggered_by permission token lines events feedback log h =
      let outcome = evaluate validator stage artifact (some events) in
      elim (Result-cases outcome.0) [
        | inl (x, failed) ↦ absurd (ground arith)
        | inr (report, evaluated) ↦
            elim (Result-cases (request_approval who permission triggered_by token)) [
              | inl (x, failed) ↦ absurd (ground arith)
              | inr (login, allowed) ↦ elim (Option-cases (prompt_human strip lower lines)) [
                | inl ended ↦ absurd (ground arith)
                | inr ((comment, true), typed) ↦
                    let decided =
                      reviewed_decided stage artifact triggered_by permission token lines events
                        report login comment true outcome.1 (ap (λ r. (r, outcome.1)) evaluated)
                        allowed typed in
                    ground (arith, decided, sym decided ∙ h, string_eq.beq_iff comment "")
                | inr ((comment, false), typed) ↦ absurd (ground arith)
              ]
            ]
      ]

  -- Where the gate has a memory store, an approval with a comment raises: when the evaluation
  -- returns a report, the reviewer's token goes through and the lines typed are a comment and a
  -- consent, the run ends with a TypeError after the approval has been written.
  pub commented_approval_raises :
      (stage artifact triggered_by permission token : String) (lines : List String)
      (events : List Event) (report : EvaluationReport) (login comment : String) (log : AuditLog)
      → has_memory ≡ true
      → evaluate validator stage artifact (some events) ≡ (ok report, log)
      → request_approval who permission triggered_by token ≡ ok login
      → prompt_human strip lower lines ≡ some (comment, true)
      → comment ≢ ""
      → reviewed stage artifact triggered_by permission token lines events ≡ (
        err type_error,
        some (
            (events ++ evaluated_events report)
            ++ decision_event stage login comment true report ∷ []),
      )
  unfolding run verify_approver conclude
  commented_approval_raises stage artifact triggered_by permission token lines events report login
        comment log memory evaluated allowed typed commented =
      let test : (comment == "") ≡ false = ground (arith, string_eq.beq_iff comment "") in
      reviewed_decided stage artifact triggered_by permission token lines events report login
        comment true log evaluated allowed typed
      ∙ rw (test, memory) refl
