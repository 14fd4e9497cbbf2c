-- ===== src/Gateway/Call.antt =====
-- orchestrator/gateway/gateway.py: `AIGateway.call`. What the call reads of its surroundings (the two
-- YAML files, orch_runs, Python's `str.lower` and the PII searches, the clock, the OpenAI API) is an
-- argument; what it changes is a `World`.
pub mod Attempts
pub mod Admission
pub mod Release
pub mod Billing
use url_copilot.Prelude.{
  Dict, List, Option, Result, String, [], codes, err, get_last?, if◌then◌else◌, length, nat_eq,
  none, ok, select, some, string_eq, suc, zero, ℕ, ◌*◌, ◌+◌, ◌-◌, ◌/◌, ◌==◌, ◌>>=◌, ◌>>◌, ◌^◌, ◌∷◌,
}
use url_copilot.Gateway.Auth.{AuthError, CurrentUser, Profile, Roles, resolve}
use url_copilot.Gateway.Models.{
  GatewayError, Message, Metric, Request, Response, RunOwner, ToolCall, Usage, content_of,
  not_resolved, openai_error, openai_rate_limited, permission_denied, rate_limit_exceeded,
}
use url_copilot.Gateway.RateLimiter.{Windows, check}
use url_copilot.Gateway.Scans.{PiiPatterns, check_input, check_output, validate}
use url_copilot.Gateway.Ledger.{Spans, check_budget, end_span, record_cost, start_span}
use url_copilot.Governance.Checkpoint.{ApprovalError, check_permission}

pub record Setup : Type 0 where
  pub depth : ℕ
  pub users : Dict String Profile
  pub rbac : Roles
  pub runs : List RunOwner
  pub lower : List ℕ → List ℕ
  pub pii : PiiPatterns
  pub round6 : ℕ → ℕ
  pub ticks : ℕ

-- The readings of the clocks in one call, and the UUID that it draws.
pub record Moment : Type 0 where
  pub now : ℕ
  pub today : ℕ
  pub started : ℕ
  pub ended : ℕ
  pub latency : ℕ
  pub trace_id : String

pub record Completion : Type 0 where
  pub content : Option String
  pub tool_calls : List ToolCall
  pub usage : Usage

-- `chat.completions.create`: an answer, `openai.RateLimitError` or another `openai.OpenAIError`
pub data Reply : Type 0 where
  completed : Completion → Reply
  rate_limited broken : Reply

pub record World : Type 0 where
  pub windows : Windows
  pub spans : Spans
  pub metrics : List Metric
  pub open_sessions : ℕ
  pub llm_calls : ℕ
  -- the seconds slept, the last first
  pub waits : List ℕ

-- `self._auth.resolve` and `self._rbac.check_permission`, with their errors among the gateway's
abbrev pub resolved : Result AuthError CurrentUser → Result GatewayError CurrentUser
resolved (ok user) = ok user
resolved (err x) = err (not_resolved x)

abbrev pub permitted : Result ApprovalError (Unit {0}) → Result GatewayError (Unit {0})
permitted (ok done) = ok tt
permitted (err x) = err permission_denied

abbrev pub prompt_chars : List Message → ℕ
prompt_chars [] = 0
prompt_chars (m ∷ ms) = length (codes (content_of m)) + prompt_chars ms

-- `user_messages[-1].get("content") or "" if user_messages else ""`
abbrev pub last_user_text : List Message → String
last_user_text ms = elim (get_last? (select (λ m. m.role == "user") ms)) [
  | none ↦ ""
  | some m ↦ content_of m
]

-- steps 1 to 3
unfoldable pub authorize : Setup → ℕ → List Metric → Request → Result GatewayError CurrentUser
authorize s today metrics request = do
  user ← resolved (resolve s.depth s.users s.rbac request.token)
  permitted (check_permission user "trigger_run")
  check_budget s.runs metrics today user (prompt_chars request.messages / 4)
  ok user

-- steps 5 and 6
unfoldable pub scan : Setup → Request → Result GatewayError (Unit {0})
scan s request = do
  validate s.lower request.messages
  check_input s.pii (last_user_text request.messages)

-- steps 1 to 6; step 4 notes the call in the user's window
unfoldable pub admit : Setup → Moment → Request → World → Result GatewayError CurrentUser × World
admit s t request w = elim (authorize s t.today w.metrics request) [
  | err x ↦ (err x, w)
  | ok user ↦
      let (passes, windows) = check s.ticks t.now user.github_login w.windows in
      let noted = record w { windows = windows } in
      if passes
      then elim (scan s request) [ err x ↦ (err x, noted) | ok done ↦ (ok user, noted) ]
      else (err rate_limit_exceeded, noted)
]

abbrev pub max_retries : ℕ
max_retries = 3

abbrev pub backoff : ℕ
backoff = 15

abbrev pub called : World → World
called w = record w { llm_calls = w.llm_calls + 1 }

-- step 8, with so many retries left after this attempt
unfoldable pub complete : (ℕ → Reply) → ℕ → ℕ → World → Result GatewayError Completion × World
complete llm attempt zero w = elim (llm attempt) [
  | completed c ↦ (ok c, called w)
  | rate_limited ↦ (err openai_rate_limited, called w)
  | broken ↦ (err openai_error, called w)
]
complete llm attempt (suc left) w = elim (llm attempt) [
  | completed c ↦ (ok c, called w)
  | rate_limited ↦
      let slept = record w {
        llm_calls = w.llm_calls + 1;
        waits = backoff * 2 ^ attempt ∷ w.waits;
      } in
      complete llm (attempt + 1) left slept
  | broken ↦ (err openai_error, called w)
]

-- steps 9 and 10: the metrics as they are afterwards
unfoldable pub settle :
    Setup → Moment → Request → Completion → List Metric → Result GatewayError (List Metric)
settle s t request c metrics = do
  check_output (elim c.content [ none ↦ "" | some text ↦ text ])
  record_cost s.round6 s.runs t.today t.trace_id request c.usage t.latency metrics

abbrev pub end_trace : Moment → World → World
end_trace t w = record w { spans = (end_span t.trace_id t.ended w.spans).1 }

-- steps 7 to 11, and the `except` branch for what is raised after step 7
unfoldable pub perform :
    Setup → (ℕ → Reply) → Moment → Request → World → Result GatewayError Response × World
perform s llm t request w =
    let traced = record w { spans = start_span t.trace_id t.started w.spans } in
    let (outcome, w') = complete llm 0 max_retries traced in
    elim outcome [
      | err x ↦ (err x, end_trace t w')
      | ok c ↦ elim (settle s t request c w'.metrics) [
        | err x ↦ (err x, end_trace t w')
        | ok metrics ↦ (
          ok (record {
            content = c.content;
            tool_calls = c.tool_calls;
            usage = c.usage;
            trace_id = t.trace_id;
          }),
          end_trace t (record w' { metrics = metrics }),
        )
      ]
    ]

abbrev pub opened : World → World
opened w = record w { open_sessions = w.open_sessions + 1 }

abbrev pub closed : World → World
closed w = record w { open_sessions = w.open_sessions - 1 }

-- `AIGateway.call`: the session is opened before the `try` and closed by its `finally`
unfoldable pub call :
    Setup → (ℕ → Reply) → Moment → Request → World → Result GatewayError Response × World
call s llm t request w =
    let (admission, w1) = admit s t request (opened w) in
    let (result, w2) = elim admission as (λ _. Result GatewayError Response × World) [
      | err x ↦ (err x, w1)
      | ok user ↦ perform s llm t request w1
    ] in
    (result, closed w2)
