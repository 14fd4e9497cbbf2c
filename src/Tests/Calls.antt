-- ===== src/Tests/Calls.antt =====
-- Runs of `AIGateway.call`.
use url_copilot.Prelude.{
  [], contains, false, if◌then◌else◌, insert_sorted, ltb, nat_eq, ok, refl, some, sorted_union,
  string_eq, ℕ, ◌+◌, ◌<◌, ◌↔◌, ◌∷◌, ◌≡◌, ◌≤◌,
}
use url_copilot.Gateway.Models.{Response}
use url_copilot.Gateway.Auth.{CurrentUser, expand_permissions, resolve}
use url_copilot.Gateway.RateLimiter.{check}
use url_copilot.Gateway.Scans.{
  check_injection, check_input, check_message, check_output, check_schema, mentions_any, validate,
}
use url_copilot.Gateway.Ledger.{
  calculate_cost, check_budget, end_span, record_cost, start_span, used_tokens,
}
use url_copilot.Gateway.Call.{
  Completion, Moment, Reply, Setup, World, admit, authorize, call, complete, completed, max_retries,
  perform, rate_limited, scan, settle,
}
use url_copilot.Gateway.Call.Attempts.{SucceedsWithin, complete_exact}
use url_copilot.Gateway.Call.Admission.{IsAdmissible, call_reaches_llm}
use url_copilot.Gateway.Call.Release.{call_releases}
use url_copilot.Gateway.Call.Billing.{billed, call-billed}
use url_copilot.Governance.Checkpoint.{check_permission}
use url_copilot.Tests.Access.{lower, rbac, request, round6, runs, usage, users}

abbrev pub setup : Setup
setup = record {
  depth = 5;
  users = users;
  rbac = rbac;
  runs = runs;
  lower = lower;
  pii = record { ssn = λ t. false; credit_card = λ t. false; email = contains 64 };
  round6 = round6;
  ticks = 1;
}

abbrev pub moment : Moment
moment = record {
  now = 100;
  today = 3;
  started = 100;
  ended = 160;
  latency = 900;
  trace_id = "t-1";
}

abbrev pub world : World
world = record {
  windows = [];
  spans = [];
  metrics = [];
  open_sessions = 0;
  llm_calls = 0;
  waits = [];
}

abbrev completion : Completion
completion = record { content = some "1. test the route"; tool_calls = []; usage = usage }

-- refused twice and then answered
abbrev pub llm : ℕ → Reply
llm n = if ltb n 2 then rate_limited else completed completion

abbrev response : Response
response = record {
  content = some "1. test the route";
  tool_calls = [];
  usage = usage;
  trace_id = "t-1";
}

answers : (call setup llm moment request world).0 ≡ ok response
unfolding call admit authorize scan perform complete settle resolve expand_permissions sorted_union
    insert_sorted check_permission check_budget used_tokens check validate check_message
    check_schema check_injection mentions_any check_input check_output record_cost calculate_cost
    start_span end_span
answers = refl

waits_twice : (call setup llm moment request world).1.waits ≡ 30 ∷ 15 ∷ []
unfolding call admit authorize scan perform complete settle resolve expand_permissions sorted_union
    insert_sorted check_permission check_budget used_tokens check validate check_message
    check_schema check_injection mentions_any check_input check_output record_cost calculate_cost
    start_span end_span
waits_twice = refl

call_reaches_llm_example :
    ((0 < (call setup llm moment request world).1.llm_calls)
      ↔ ((user : CurrentUser) × IsAdmissible setup moment request world user))
    × ((call setup llm moment request world).1.llm_calls ≤ 0 + 4)
call_reaches_llm_example = call_reaches_llm setup llm moment request world

call-billed_example :
    (call setup llm moment request world).1.metrics
    ≡ billed setup moment request [] (call setup llm moment request world).0
call-billed_example = call-billed setup llm moment request world

call_releases_example :
    ((call setup llm moment request world).1.spans ≡ [])
    × ((call setup llm moment request world).1.open_sessions ≡ 0)
call_releases_example = call_releases setup llm moment request world refl

complete_exact_example :
    ((complete llm 0 max_retries world).0 ≡ ok completion)
    ↔ SucceedsWithin llm 0 max_retries completion
complete_exact_example = (complete_exact llm world).0 completion
