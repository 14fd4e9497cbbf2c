-- ===== src/Agents/Stage.antt =====
-- orchestrator/agents/stage_agent.py. The gateway and the tool registry act on a world `W` and enter as
-- functions, as do the prompt builder and the JSON parser; `none` stands for an exception.
pub mod Repeat
use url_copilot.Prelude.{
  Bool, List, Option, Result, String, [], err, false, none, ok, or_raise, some, suc, true, zero, ℕ,
  ◌++◌, ◌∷◌,
}
use url_copilot.Gateway.Models.{ToolCall}
use url_copilot.Agents.Cache.{Entries, default_ttl_hours, get, set}

-- the messages of `conversation_history`
pub data Turn : Type 0 where
  assistant : Option String → List ToolCall → Turn
  tool : String → String → Turn

pub record Reply : Type 0 where
  pub content : Option String
  pub tool_calls : List ToolCall

pub data StageError : Type 0 where
  gateway_raised malformed_artifact iteration_limit : StageError

pub record Services (W : Type 0) : Type 0 where
  -- `self._gateway.call` with the messages that `self._builder.build` makes of the history
  pub ask : List Turn → W → Option Reply × W
  -- `json.loads` of the arguments, `self._registry.execute` and the text that goes into the history;
  -- the arguments are the JSON of an object or no JSON, since others raise before the registry is asked
  pub execute_tool : String → String → W → String × W
  -- `_parse_artifact`
  pub parse_artifact : String → Option String

abbrev pub max_tool_iterations : ℕ
max_tool_iterations = 20

pub data StageOutcome : Type 0 where
  completed : String → Bool → StageOutcome
  failed : StageError → StageOutcome

module _ {W : Type 0} (services : Services W) where
  -- the calls of one response, in their order
  unfoldable pub run_calls : List ToolCall → List Turn → W → List Turn × W
  run_calls [] history w = (history, w)
  run_calls (c ∷ calls) history w =
      let (text, w') = services.execute_tool c.name c.arguments w in
      run_calls calls (history ++ tool c.id text ∷ []) w'

  -- the `for` of `run` with its `else`, for so many iterations left
  unfoldable pub converse : ℕ → List Turn → W → Result StageError String × List Turn × W
  converse zero history w = (err iteration_limit, history, w)
  converse (suc left) history w =
      let (reply, w1) = services.ask history w in
      elim reply [
        | none ↦ (err gateway_raised, history, w1)
        | some r ↦ elim r.tool_calls [
          | [] ↦ (
            or_raise (services.parse_artifact (elim r.content [ none ↦ "" | some text ↦ text ]))
                malformed_artifact,
            history,
            w1,
          )
          | c ∷ calls ↦
              let asked = history ++ assistant r.content (c ∷ calls) ∷ [] in
              let (history', w2) = run_calls (c ∷ calls) asked w1 in converse left history' w2
        ]
      ]

  -- `run`: `prompt` is the cache key of the first messages; the Boolean of `completed` is `cache_hit`
  unfoldable pub run_stage :
      (String → String) → ℕ → String → String → Entries → W → StageOutcome × Entries × W
  run_stage sha256 now prompt model c w =
      let (cached, c1) = get sha256 now prompt model c in
      elim cached [
        | some artifact ↦ (completed artifact true, c1, w)
        | none ↦
            let (outcome, history, w') = converse max_tool_iterations [] w in
            elim outcome [
              | err x ↦ (failed x, c1, w')
              | ok artifact ↦ (
                completed artifact false,
                set sha256 now prompt model artifact default_ttl_hours c1,
                w',
              )
            ]
      ]
