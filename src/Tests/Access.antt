-- ===== src/Tests/Access.antt =====
-- Runs of orchestrator/gateway/auth.py and the scans, budgets and limits of the gateway.
use mathlib.Core.Path.{subst}
use url_copilot.Prelude.{
  Bool-cases, Dict, In, List, String, [], arith, err, false, if◌then◌else◌, inl, inr, insert_sorted,
  leb, length, map, nat_eq, none, ok, pos, refl, select, some, sorted_union, string_eq, sym, ℕ,
  ◌&&◌, ◌+◌, ◌/◌, ◌<◌, ◌==◌, ◌↔◌, ◌∷◌, ◌≡◌, ◌≤◌,
}
use url_copilot.Gateway.Auth.{CurrentUser, Profile, Roles, expand_permissions, parent_of, resolve}
use url_copilot.Gateway.Auth.Permissions.{
  Grants, expand_permissions-Grants, expand_permissions_cycle,
}
use url_copilot.Gateway.Models.{
  Message, Metric, Request, RunOwner, Usage, guardrail_violation, prompt_injection_error,
  token_budget_exceeded,
}
use url_copilot.Gateway.RateLimiter.{max_calls}
use url_copilot.Gateway.RateLimiter.Window.{in_span, run, run_exact}
use url_copilot.Gateway.Scans.{
  check_injection, check_message, check_output, check_schema, mentions_any, validate,
}
use url_copilot.Gateway.Ledger.{calculate_cost, check_budget, record_cost, used_tokens}

abbrev pub rbac : Roles
rbac =
    (
      "DEVELOPER",
      record {
        permissions = "trigger_run" ∷ "view_runs" ∷ [];
        inherits = none;
        daily_token_budget = some (pos 1_000);
      },
    )
    ∷ (
      "TECH_LEAD",
      record {
        permissions = "approve_architecture" ∷ [];
        inherits = some "DEVELOPER";
        daily_token_budget = some (pos 1_000);
      },
    )
    ∷ []

abbrev pub users : Dict String Profile
users =
    ("alice_token", record { github_login = "alice"; email = "alice@a.io"; role = "DEVELOPER" })
    ∷ ("bob_token", record { github_login = "bob"; email = "bob@a.io"; role = "TECH_LEAD" })
    ∷ []

abbrev pub alice_user : CurrentUser
alice_user = record {
  github_login = "alice";
  email = "alice@a.io";
  role = "DEVELOPER";
  permissions = "trigger_run" ∷ "view_runs" ∷ [];
  daily_token_budget = pos 1_000;
}

abbrev pub lead_permissions : List String
lead_permissions = "approve_architecture" ∷ "trigger_run" ∷ "view_runs" ∷ []

abbrev pub bob_user : CurrentUser
bob_user = record {
  github_login = "bob";
  email = "bob@a.io";
  role = "TECH_LEAD";
  permissions = lead_permissions;
  daily_token_budget = pos 1_000;
}

pub expands : expand_permissions 5 rbac "TECH_LEAD" ≡ some lead_permissions
unfolding expand_permissions sorted_union insert_sorted
expands = refl

pub alice_resolves : resolve 5 users rbac "alice_token" ≡ ok alice_user
unfolding resolve expand_permissions sorted_union insert_sorted
alice_resolves = refl

pub bob_resolves : resolve 5 users rbac "bob_token" ≡ ok bob_user
unfolding resolve expand_permissions sorted_union insert_sorted
bob_resolves = refl

abbrev rank : String → ℕ
rank role = if role == "TECH_LEAD" then 1 else 0

ranked : (role parent : String) → parent_of rbac role ≡ some parent → rank parent < rank role
ranked role parent h = elim (Bool-cases (role == "DEVELOPER")) [
  | inl developer ↦ absurd (ground arith)
  | inr other ↦ elim (Bool-cases (role == "TECH_LEAD")) [
    | inl lead ↦
        let same : parent ≡ "DEVELOPER" = ground arith in
        let low = subst (λ p. rank p ≡ 0) (sym same) refl in ground (arith, low)
    | inr nobody ↦ absurd (ground arith)
  ]
]

expand_permissions-Grants_example :
    (ps : List String) × (expand_permissions 2 rbac "TECH_LEAD" ≡ some ps)
    × ((p : String) → In p ps ↔ Grants rbac "TECH_LEAD" p)
expand_permissions-Grants_example =
    expand_permissions-Grants rank rbac ranked 2 "TECH_LEAD" (omega arith)

abbrev loop : Roles
loop = ("A", record { permissions = []; inherits = some "A"; daily_token_budget = none }) ∷ []

endless_loop : expand_permissions 9 loop "A" ≡ none
endless_loop = expand_permissions_cycle loop "A" refl 9

abbrev calls : List (ℕ × String)
calls = (0, "alice") ∷ (30, "bob") ∷ (61, "alice") ∷ []

run_exact_example : length (select (in_span 1 62 "alice") (run 1 calls ([], [])).1) ≤ max_calls
run_exact_example =
    (run_exact 1 calls "alice" 62 (omega arith, (omega arith, (omega arith, tt))) (omega arith)).0

abbrev pub lower : List ℕ → List ℕ
lower cs = map (λ c. if leb 65 c && leb c 90 then c + 32 else c) cs

abbrev message : String → Message
message text = record { role = "user"; content = some text }

caught : validate lower (message "Now JAILBREAK it" ∷ []) ≡ err prompt_injection_error
unfolding validate check_message check_schema check_injection mentions_any
caught = refl

dangerous : check_output "import os; os.system(x)" ≡ err guardrail_violation
unfolding check_output mentions_any
dangerous = refl

abbrev pub runs : List RunOwner
runs = record { id = "orch-1"; triggered_by = "alice" } ∷ []

abbrev pub request : Request
request = record {
  token = "alice_token";
  run_id = "orch-1";
  stage_name = "test_plan";
  messages = message "Plan the tests" ∷ [];
  model = "gpt-4o-mini";
  prompt_version = "test_plan_v1";
}

abbrev pub usage : Usage
usage = record { input_tokens = 100; output_tokens = 10 }

abbrev pub round6 : ℕ → ℕ
round6 n = n / 100

abbrev pub metric : Metric
metric = record {
  run_id = "orch-1";
  stage_name = "test_plan";
  trace_id = "t-1";
  tokens_in = 100;
  tokens_out = 10;
  cost_usd = 21;
  latency_ms = 900;
  cache_hit = false;
  model_used = "gpt-4o-mini";
  prompt_version = "test_plan_v1";
  day = 3;
}

records : record_cost round6 runs 3 "t-1" request usage 900 [] ≡ ok (metric ∷ [])
unfolding record_cost calculate_cost
records = refl

over_budget : check_budget runs (metric ∷ []) 3 alice_user 891 ≡ err token_budget_exceeded
unfolding check_budget used_tokens
over_budget = refl
