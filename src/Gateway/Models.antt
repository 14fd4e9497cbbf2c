-- ===== src/Gateway/Models.antt =====
-- orchestrator/gateway/models.py: requests, responses and exceptions, and the rows of orch_runs and
-- orch_metrics that the gateway reads and writes.
use url_copilot.Prelude.{Bool, List, Option, String, none, some, ℕ}
use url_copilot.Gateway.Auth.{AuthError}

pub record Message : Type 0 where
  pub role : String
  pub content : Option String

-- `message.get("content") or ""`
abbrev pub content_of : Message → String
content_of m = elim m.content [ none ↦ "" | some s ↦ s ]

pub record Request : Type 0 where
  pub token : String
  pub run_id : String
  pub stage_name : String
  pub messages : List Message
  pub model : String
  pub prompt_version : String

pub record Usage : Type 0 where
  pub input_tokens : ℕ
  pub output_tokens : ℕ

-- A tool call as the response hands it on: its id, the function's name and its arguments.
pub record ToolCall : Type 0 where
  pub id : String
  pub name : String
  pub arguments : String

pub record Response : Type 0 where
  pub content : Option String
  pub tool_calls : List ToolCall
  pub usage : Usage
  pub trace_id : String

pub data GatewayError : Type 0 where
  not_resolved : AuthError → GatewayError
  permission_denied : GatewayError
  token_budget_exceeded rate_limit_exceeded : GatewayError
  input_validation_error prompt_injection_error : GatewayError
  guardrail_violation : GatewayError
  openai_rate_limited openai_error : GatewayError
  foreign_key_violation : GatewayError

pub record Metric : Type 0 where
  pub run_id : String
  pub stage_name : String
  pub trace_id : String
  pub tokens_in : ℕ
  pub tokens_out : ℕ
  pub cost_usd : ℕ
  pub latency_ms : ℕ
  pub cache_hit : Bool
  pub model_used : String
  pub prompt_version : String
  pub day : ℕ

-- the columns of orch_runs that the budget query joins
pub record RunOwner : Type 0 where
  pub id : String
  pub triggered_by : String
