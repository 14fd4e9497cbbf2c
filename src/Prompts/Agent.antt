-- ===== src/Prompts/Agent.antt =====
-- `StageAgent.run` of orchestrator/agents/stage_agent.py with the prompt builder. The gateway and the
-- tools act on a world `W`; `key_of` is `json.dumps(messages, sort_keys=True)`.
use url_copilot.Prelude.{List, Option, Result, String, [], err, none, ok, ℕ}
use url_copilot.Prelude.Json.{Fields}
use url_copilot.Agents.Cache.{Entries}
use url_copilot.Agents.Stage.{Reply, Services, StageOutcome, run_stage}
use url_copilot.Prompts.Builder.{Message, PromptState, Sources, build}
use url_copilot.Prompts.Loader.{LoadError}

-- the GatewayRequest of a stage, less the schemas of the tools
pub record StageRequest : Type 0 where
  pub token : String
  pub run_id : String
  pub stage_name : String
  pub messages : List Message
  pub model : String
  pub prompt_version : String

pub record Platform (W : Type 0) : Type 0 where
  pub call_gateway : StageRequest → W → Option Reply × W
  pub execute_tool : String → String → W → String × W
  pub parse_artifact : String → Option String
  pub sha256 : String → String
  pub dumps : Fields → String
  pub key_of : List Message → String
  pub model : String

module _ {W : Type 0} (p : Platform W) where
  abbrev pub services_of : Sources → String → PromptState → String → Services W
  services_of src stage st version = record {
    ask = λ history w. elim (build p.dumps src stage st history []) [
      | err x ↦ (none, w)
      | ok (messages, _) ↦
          p.call_gateway
            (record {
              token = st.token;
              run_id = st.run_id;
              stage_name = stage;
              messages = messages;
              model = p.model;
              prompt_version = version;
            })
            w
    ];
    execute_tool = p.execute_tool;
    parse_artifact = p.parse_artifact;
  }

  -- `run`: without a prompt file it raises
  unfoldable pub run_agent :
      ℕ → Sources → String → PromptState → Entries → W → Result LoadError StageOutcome × Entries × W
  run_agent now src stage st c w = elim (build p.dumps src stage st [] []) [
    | err x ↦ (err x, c, w)
    | ok (messages, version) ↦
        let (outcome, c', w') =
          run_stage (services_of src stage st version) p.sha256 now (p.key_of messages) p.model c
            w in
        (ok outcome, c', w')
  ]
