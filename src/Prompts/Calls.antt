-- ===== src/Prompts/Calls.antt =====
-- The gateway as a stage calls it: `AIGateway.call` with the messages of the prompt builder. The n-th
-- call of the stage has its own moment and answers of the OpenAI API; the tools act on a world `T`.
use url_copilot.Prelude.{List, Option, String, err, map, none, ok, some, ℕ, ◌+◌}
use url_copilot.Prelude.Json.{Fields}
use url_copilot.Agents.Stage.{Turn}
use url_copilot.Agents.Stage
use url_copilot.Gateway.Call
use url_copilot.Gateway.Call.{Moment, Setup, World, call}
use url_copilot.Gateway.Models
use url_copilot.Gateway.Models.{Request}
use url_copilot.Prompts.Builder.{Message, system, turn, user}
use url_copilot.Prompts.Agent.{Platform, StageRequest}

pub record StageWorld (T : Type 0) : Type 0 where
  pub gateway : World
  pub calls : ℕ
  pub tools : T

-- the role and the content of a message
abbrev pub sent : Message → Models.Message
sent (system part) = record { role = "system"; content = some part }
sent (user part) = record { role = "user"; content = some part }
sent (turn (Turn.assistant part calls)) = record { role = "assistant"; content = part }
sent (turn (Turn.tool id part)) = record { role = "tool"; content = some part }

abbrev pub request_to : StageRequest → Request
request_to request = record {
  token = request.token;
  run_id = request.run_id;
  stage_name = request.stage_name;
  messages = map sent request.messages;
  model = request.model;
  prompt_version = request.prompt_version;
}

-- what a stage has from outside: the surroundings of the gateway, the answers of the model to the
-- attempts of each call, the tools, and what the platform computes
pub record Outlet (T : Type 0) : Type 0 where
  pub setup : Setup
  pub llm : ℕ → ℕ → Call.Reply
  pub moment : ℕ → Moment
  pub tool : String → String → T → String × T
  pub parse_artifact : String → Option String
  pub sha256 : String → String
  pub dumps : Fields → String
  pub key_of : List Message → String
  pub model : String

module _ {T : Type 0} (o : Outlet T) where
  unfoldable pub call_gateway : StageRequest → StageWorld T → Option Stage.Reply × StageWorld T
  call_gateway request w =
      let (result, gateway') =
        call o.setup (o.llm w.calls) (o.moment w.calls) (request_to request) w.gateway in
      (
        elim result [
          | err x ↦ none
          | ok response ↦
              some (record { content = response.content; tool_calls = response.tool_calls })
        ],
        record w { gateway = gateway'; calls = w.calls + 1 },
      )

  abbrev pub platform_of : Platform (StageWorld T)
  platform_of = record {
    call_gateway = call_gateway;
    execute_tool = λ name args w.
        let (reply, tools') = o.tool name args w.tools in (reply, record w { tools = tools' });
    parse_artifact = o.parse_artifact;
    sha256 = o.sha256;
    dumps = o.dumps;
    key_of = o.key_of;
    model = o.model;
  }
