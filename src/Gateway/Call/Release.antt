-- ===== src/Gateway/Call/Release.antt =====
-- What a call gives back, however it ends.
use url_copilot.Prelude.{
  Result-cases, ap, arith, inl, inr, lookup, nat_eq, none, string_eq, ℕ, ◌∙◌, ◌≡◌,
}
use url_copilot.Gateway.Models.{Request}
use url_copilot.Gateway.Ledger.{end_span, start_span}
use url_copilot.Gateway.Ledger.Usages.{start_span-end_span}
use url_copilot.Gateway.Call.{
  Moment, Reply, Setup, World, admit, call, complete, max_retries, opened, perform, settle,
}
use url_copilot.Gateway.Call.Attempts.{complete-SameBooks}
use url_copilot.Gateway.Call.Admission.{admit-frame}

perform_releases :
    (s : Setup) (llm : ℕ → Reply) (t : Moment) (request : Request) (w : World)
    → lookup t.trace_id w.spans ≡ none
    → ((perform s llm t request w).1.spans ≡ w.spans)
      × ((perform s llm t request w).1.open_sessions ≡ w.open_sessions)
unfolding perform
perform_releases s llm t request w fresh =
    let traced = record w { spans = start_span t.trace_id t.started w.spans } in
    let w' = (complete llm 0 max_retries traced).1 in
    let (_, spans_kept, _, sessions_kept) = complete-SameBooks llm 0 max_retries traced in
    let ended =
      ap (λ d. (end_span t.trace_id t.ended d).1) spans_kept
      ∙ start_span-end_span t.trace_id t.started t.ended w.spans fresh in
    elim (Result-cases (complete llm 0 max_retries traced).0) [
      | inl (x, refused) ↦ ground arith
      | inr (c, e) ↦ elim (Result-cases (settle s t request c w'.metrics)) [
        | inl (x, refused) ↦ ground arith
        | inr (metrics, settled) ↦ ground arith
      ]
    ]

-- Whatever a call returns or raises, it leaves no session open and no span behind, if the trace id
-- that it draws is not one of a span that runs.
pub call_releases :
    (s : Setup) (llm : ℕ → Reply) (t : Moment) (request : Request) (w : World)
    → lookup t.trace_id w.spans ≡ none
    → ((call s llm t request w).1.spans ≡ w.spans)
      × ((call s llm t request w).1.open_sessions ≡ w.open_sessions)
unfolding call
call_releases s llm t request w fresh =
    let w1 = (admit s t request (opened w)).1 in
    let spans_kept = ap (λ v. v.spans) (admit-frame s t request (opened w)) in
    let sessions_kept = ap (λ v. v.open_sessions) (admit-frame s t request (opened w)) in
    elim (Result-cases (admit s t request (opened w)).0) [
      | inl (x, refused) ↦ ground arith
      | inr (user, passed) ↦
          ground
            (arith, perform_releases s llm t request w1 (ap (lookup t.trace_id) spans_kept ∙ fresh))
    ]
