-- ===== src/Gateway/Ledger/Usages.antt =====
-- What the budget check and the cost row do to each other.
use url_copilot.Prelude.{
  Bool-cases, List, String, any_of, arith, if◌then◌else◌, inl, inr, lookup, nat_eq, negsuc, none,
  ok, pos, remove-insert, string_eq, within_limit_iff, ℕ, ◌&&◌, ◌+◌, ◌==◌, ◌↔◌, ◌≡◌, ◌≤◌, ◌⊎◌,
}
use url_copilot.Gateway.Auth.{CurrentUser}
use url_copilot.Gateway.Models.{Metric, Request, RunOwner, Usage}
use url_copilot.Gateway.Ledger.{Spans, check_budget, end_span, record_cost, start_span, used_tokens}

pub start_span-end_span :
    (trace_id : String) (now later : ℕ) (spans : Spans)
    → lookup trace_id spans ≡ none
    → (end_span trace_id later (start_span trace_id now spans)).1 ≡ spans
unfolding start_span end_span
start_span-end_span trace_id now later spans fresh = remove-insert trace_id now spans fresh

-- A recorded call adds its tokens to what the owner of its run has used today, and to nobody else's
-- use and no other day's.
pub record_cost-used_tokens :
    (round6 : ℕ → ℕ) (runs : List RunOwner) (today : ℕ) (trace_id : String) (request : Request)
    (usage : Usage) (latency : ℕ) (metrics metrics' : List Metric)
    → record_cost round6 runs today trace_id request usage latency metrics ≡ ok metrics'
    → (login : String) (day : ℕ)
    → used_tokens runs login day metrics' ≡ (
        if any_of (λ r. r.id == request.run_id && r.triggered_by == login) runs && today == day
        then usage.input_tokens + usage.output_tokens + used_tokens runs login day metrics
        else used_tokens runs login day metrics)
unfolding record_cost used_tokens
record_cost-used_tokens round6 runs today trace_id request usage latency metrics metrics' h login
      day =
    elim (Bool-cases (any_of (λ r. r.id == request.run_id) runs)) [
      | inl found ↦ ground arith
      | inr missing ↦ absurd (ground arith)
    ]

-- The check lets a call through exactly if the user's budget is -1, the mark for unlimited, or what
-- the user has used today and the estimate of this call are together at most the budget.
pub check_budget_exact :
    (runs : List RunOwner) (metrics : List Metric) (today : ℕ) (user : CurrentUser) (estimated : ℕ)
    → (check_budget runs metrics today user estimated ≡ ok tt) ↔ (
        (user.daily_token_budget ≡ negsuc 0)
        ⊎ ((budget : ℕ) × (user.daily_token_budget ≡ pos budget)
            × (used_tokens runs user.github_login today metrics + estimated ≤ budget)))
unfolding check_budget
check_budget_exact runs metrics today user estimated =
    let limit =
      within_limit_iff (used_tokens runs user.github_login today metrics + estimated)
        user.daily_token_budget in
    (λ h. limit.0 (ground arith), λ w. let passes = limit.1 w in ground arith)
