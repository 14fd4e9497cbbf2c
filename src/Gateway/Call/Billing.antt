-- ===== src/Gateway/Call/Billing.antt =====
-- What a call costs.
use url_copilot.Gateway.Scans.Exact.{IsClean, check_output_exact}
use mathlib.Core.Path.{subst}
use url_copilot.Prelude.{
  Bool-cases, List, Result, Result-cases, any_of, ap, arith, codes, err, false, inl, inr, nat_eq,
  none, ok, some, string_eq, ℕ, ◌==◌, ◌∷◌, ◌≡◌,
}
use url_copilot.Gateway.Models.{GatewayError, Metric, Request, Response}
use url_copilot.Gateway.Scans.{check_output, dangerous_code_patterns}
use url_copilot.Gateway.Ledger.{calculate_cost, record_cost, start_span}
use url_copilot.Gateway.Call.{
  Completion, Moment, Reply, Setup, World, admit, call, complete, max_retries, opened, perform,
  settle,
}
use url_copilot.Gateway.Call.Attempts.{complete-SameBooks}
use url_copilot.Gateway.Call.Admission.{admit-frame}

-- the row of orch_metrics that belongs to a response
abbrev pub metric_of : Setup → Moment → Request → Response → Metric
metric_of s t request r = record {
  run_id = request.run_id;
  stage_name = request.stage_name;
  trace_id = r.trace_id;
  tokens_in = r.usage.input_tokens;
  tokens_out = r.usage.output_tokens;
  cost_usd = calculate_cost s.round6 request.model r.usage;
  latency_ms = t.latency;
  cache_hit = false;
  model_used = request.model;
  prompt_version = request.prompt_version;
  day = t.today;
}

settle_ok :
    (s : Setup) (t : Moment) (request : Request) (c : Completion) (metrics metrics' : List Metric)
    → settle s t request c metrics ≡ ok metrics'
    → (check_output (elim c.content [ none ↦ "" | some text ↦ text ]) ≡ ok tt)
      × (record_cost s.round6 s.runs t.today t.trace_id request c.usage t.latency metrics
          ≡ ok metrics')
unfolding settle
settle_ok s t request c metrics metrics' h =
    elim (Result-cases (check_output (elim c.content [ none ↦ "" | some text ↦ text ]))) [
      | inl (x, refused) ↦ absurd (ground arith)
      | inr (done, clean) ↦ (ground arith, ground arith)
    ]

-- the metrics after a call with this result
abbrev pub billed :
    Setup → Moment → Request → List Metric → Result GatewayError Response → List Metric
billed s t request before (err x) = before
billed s t request before (ok r) = metric_of s t request r ∷ before

record_cost_ok :
    (s : Setup) (t : Moment) (request : Request) (c : Completion) (metrics metrics' : List Metric)
    → record_cost s.round6 s.runs t.today t.trace_id request c.usage t.latency metrics ≡ ok metrics'
    → metrics'
      ≡ metric_of s t request (record {
        content = c.content;
        tool_calls = c.tool_calls;
        usage = c.usage;
        trace_id = t.trace_id;
      })
        ∷ metrics
unfolding record_cost
record_cost_ok s t request c metrics metrics' h =
    elim (Bool-cases (any_of (λ r. r.id == request.run_id) s.runs)) [
      | inl found ↦ ground arith
      | inr missing ↦ absurd (ground arith)
    ]

perform-billed :
    (s : Setup) (llm : ℕ → Reply) (t : Moment) (request : Request) (w : World)
    → (perform s llm t request w).1.metrics
      ≡ billed s t request w.metrics (perform s llm t request w).0
unfolding perform
perform-billed s llm t request w =
    let traced = record w { spans = start_span t.trace_id t.started w.spans } in
    let w' = (complete llm 0 max_retries traced).1 in
    let (_, _, kept, _) = complete-SameBooks llm 0 max_retries traced in
    elim (Result-cases (complete llm 0 max_retries traced).0) [
      | inl (x, refused) ↦ ground arith
      | inr (c, e) ↦ elim (Result-cases (settle s t request c w'.metrics)) [
        | inl (x, refused) ↦ ground arith
        | inr (metrics, settled) ↦
            let row =
              record_cost_ok s t request c w'.metrics metrics
                (settle_ok s t request c w'.metrics metrics settled).1 in
            ground arith
      ]
    ]

pub call-billed :
    (s : Setup) (llm : ℕ → Reply) (t : Moment) (request : Request) (w : World)
    → (call s llm t request w).1.metrics ≡ billed s t request w.metrics (call s llm t request w).0
unfolding call
call-billed s llm t request w =
    let w1 = (admit s t request (opened w)).1 in
    let kept = ap (λ v. v.metrics) (admit-frame s t request (opened w)) in
    elim (Result-cases (admit s t request (opened w)).0) [
      | inl (x, refused) ↦ ground arith
      | inr (user, passed) ↦ ground (arith, perform-billed s llm t request w1)
    ]

perform_output_clean :
    (s : Setup) (llm : ℕ → Reply) (t : Moment) (request : Request) (w : World) (r : Response)
    → (perform s llm t request w).0 ≡ ok r
    → check_output (elim r.content [ none ↦ "" | some text ↦ text ]) ≡ ok tt
unfolding perform
perform_output_clean s llm t request w r h =
    let traced = record w { spans = start_span t.trace_id t.started w.spans } in
    let w' = (complete llm 0 max_retries traced).1 in
    elim (Result-cases (complete llm 0 max_retries traced).0) [
      | inl (x, refused) ↦ absurd (ground arith)
      | inr (c, e) ↦ elim (Result-cases (settle s t request c w'.metrics)) [
        | inl (x, refused) ↦ absurd (ground arith)
        | inr (metrics, settled) ↦
            let same : c.content ≡ r.content = ground arith in
            subst (λ x. check_output (elim x [ none ↦ "" | some text ↦ text ]) ≡ ok tt) same
              (settle_ok s t request c w'.metrics metrics settled).0
      ]
    ]

-- The text of a response that a call returns contains none of the dangerous patterns.
pub call_output-IsClean :
    (s : Setup) (llm : ℕ → Reply) (t : Moment) (request : Request) (w : World) (r : Response)
    → (call s llm t request w).0 ≡ ok r
    → IsClean dangerous_code_patterns (codes (elim r.content [ none ↦ "" | some text ↦ text ]))
unfolding call
call_output-IsClean s llm t request w r h =
    let w1 = (admit s t request (opened w)).1 in
    elim (Result-cases (admit s t request (opened w)).0) [
      | inl (x, refused) ↦ absurd (ground arith)
      | inr (user, passed) ↦
          (check_output_exact _).0 (perform_output_clean s llm t request w1 r (ground arith))
    ]
