-- ===== src/Tests/Spending.antt =====
-- A stage that calls the gateway.
use url_copilot.Prelude.{◌∷◌, [], false, insert_sorted, sorted_union, ok, refl, some, ℕ, ◌≡◌}
use url_copilot.Agents.Stage.{completed, converse, run_stage}
use url_copilot.Agents.Cache.{Entries, get}
use url_copilot.Runs.Store.{new_run}
use url_copilot.Scenarios.Nodes.{Database, NodeState}
use url_copilot.Scenarios.Nodes.Booked.{Booked, stage_node-Booked}
use url_copilot.Scenarios.Nodes.Execute.{stage_node}
use url_copilot.Scenarios.Nodes.Outcome.{produced_of}
use url_copilot.Tests.Nodes.{outside, state}
use url_copilot.Gateway.Auth.{expand_permissions, resolve}
use url_copilot.Gateway.Call.{admit, authorize, call, complete, perform, scan, settle}
use url_copilot.Gateway.Ledger.{
  calculate_cost, check_budget, end_span, record_cost, start_span, used_tokens,
}
use url_copilot.Gateway.RateLimiter.{check}
use url_copilot.Gateway.Scans.{
  check_injection, check_input, check_message, check_output, check_schema, mentions_any, validate,
}
use url_copilot.Governance.Checkpoint.{check_permission}
use url_copilot.Prompts.Agent.{run_agent}
use url_copilot.Memory.{format_for_prompt, load_all_active}
use url_copilot.Agents.Tools.{read_file}
use url_copilot.Prompts.Builder.{
  PromptState, build, build_instruction, format_prior_artifacts, read_context_files, relevant,
}
use url_copilot.Prompts.Calls.{Outlet, StageWorld, call_gateway, platform_of}
use url_copilot.Prompts.Loader.{candidates, greatest, load, version_of}
use url_copilot.Prompts.Rows.{Spent}
use url_copilot.Prompts.Spend.{least_of, stage_spends}
use url_copilot.Service.Alias.{at_end}
use url_copilot.Tests.Access.{request}
use url_copilot.Tests.Calls.{llm, moment, setup, world}
use url_copilot.Tests.Prompts.{key, one_run, sources}

-- the API refuses the first call twice; there are no tools
abbrev outlet : Outlet ℕ
outlet = record {
  setup = setup;
  llm = λ call_number. llm;
  moment = λ call_number. moment;
  tool = λ name args n. ("", n);
  parse_artifact = λ reply. some reply;
  sha256 = λ s. s;
  dumps = λ fields. "{}";
  key_of = key;
  model = "gpt-4o";
}

abbrev known_run : PromptState
known_run = record one_run { run_id = request.run_id; token = request.token }

abbrev idle : StageWorld ℕ
idle = record { gateway = world; calls = 0; tools = 0 }

answers_once :
    (run_agent (platform_of outlet) 0 sources "documentation" known_run [] idle).0
    ≡ ok (completed "1. test the route" false)
unfolding run_agent build load candidates greatest version_of at_end run_stage converse get
    call_gateway call admit authorize scan perform complete settle resolve expand_permissions
    sorted_union insert_sorted check_permission check_budget used_tokens check validate
    check_message check_schema check_injection mentions_any check_input check_output record_cost
    calculate_cost start_span end_span format_for_prompt load_all_active format_prior_artifacts
    relevant read_context_files read_file build_instruction
answers_once = refl

stage_spends_example :
    Spent outlet sources "documentation" known_run
      (least_of outlet sources "documentation" known_run
        (run_agent (platform_of outlet) 0 sources "documentation" known_run [] idle).0)
      20
      idle
      (run_agent (platform_of outlet) 0 sources "documentation" known_run [] idle).2
stage_spends_example = stage_spends outlet sources "documentation" known_run 0 [] idle

abbrev ended : StageWorld ℕ
ended = (run_agent (platform_of outlet) 0 sources "documentation" known_run [] idle).2

abbrev kept : Entries
kept = (run_agent (platform_of outlet) 0 sources "documentation" known_run [] idle).1

documents :
    run_agent (platform_of outlet) 0 sources "documentation" known_run [] idle
    ≡ (ok (completed "1. test the route" false), kept, ended)
unfolding run_agent build load candidates greatest version_of at_end run_stage converse get
    call_gateway call admit authorize scan perform complete settle resolve expand_permissions
    sorted_union insert_sorted check_permission check_budget used_tokens check validate
    check_message check_schema check_injection mentions_any check_input check_output record_cost
    calculate_cost start_span end_span format_for_prompt load_all_active format_prior_artifacts
    relevant read_context_files read_file build_instruction
documents = refl

abbrev known_state : NodeState
known_state = record state { run_id = known_run.run_id }

abbrev run_db : Database
run_db = record {
  store = record {
    runs = new_run 5 known_run.run_id "add a page" "greenfield" "alice" ∷ [];
    stage_results = [];
  };
  audit = [];
  metrics = ended.gateway.metrics;
}

stage_node-Booked_example :
    Booked outlet sources "documentation" known_run
      (completed "1. test the route" false)
      idle
      (stage_node outside "documentation" known_state
        (produced_of
          (λ x. "failed")
          "documentation"
          "documentation_v10"
          "gpt-4o"
          1
          2
          []
          []
          (completed "1. test the route" false))
        run_db).1.metrics
stage_node-Booked_example =
    stage_node-Booked outlet sources "documentation" known_run outside (λ x. "failed")
      "documentation_v10" 0 1 2 [] [] known_state [] kept idle ended
      (completed "1. test the route" false) run_db refl refl documents refl
