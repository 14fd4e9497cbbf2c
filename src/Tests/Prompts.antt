-- ===== src/Tests/Prompts.antt =====
-- Runs of the prompt builder and of a stage with its prompt.
use url_copilot.Prelude.{
  In, List, String, [], arith, concat, err, false, inl, inr, none, ok, refl, some, string_eq, true,
  ℕ, ◌+◌, ◌↔◌, ◌∷◌, ◌≡◌, ◌≤◌,
}
use url_copilot.Agents.Cache.{Entries, get}
use url_copilot.Agents.Stage.{completed, converse, run_stage}
use url_copilot.Service.Alias.{at_end}
use url_copilot.Prompts.Loader.{
  Directory, candidates, greatest, load, no_prompt_file, stem, version_of,
}
use url_copilot.Prompts.Builder.{
  Message, PromptState, Sources, build, build_instruction, system, user,
}
use url_copilot.Prompts.Agent.{Platform, run_agent}
use url_copilot.Prompts.Latest.{load_latest}
use url_copilot.Prompts.Reuse.{later_run_reuses}

abbrev directory : Directory
directory =
    ("documentation_v9.txt", "old")
    ∷ ("documentation_v10.txt", "new")
    ∷ ("documentation_v11.md", "no")
    ∷ []

loads_tenth : load "documentation" directory ≡ ok ("new", "documentation_v10")
unfolding load candidates greatest version_of at_end
loads_tenth = refl

load_latest_example :
    ((content version : String)
      → load "documentation" directory ≡ ok (content, version)
      → (name : String) × (n : ℕ) × In (name, content) directory
        × (version_of "documentation" name ≡ some n)
        × (version ≡ stem name)
        × ((other other_content : String) (m : ℕ)
            → In (other, other_content) directory
            → version_of "documentation" other ≡ some m
            → m ≤ n))
    × ((load "documentation" directory ≡ err no_prompt_file) ↔ (
        (name content : String)
        → In (name, content) directory
        → version_of "documentation" name ≡ none))
load_latest_example = load_latest "documentation" directory

abbrev pub sources : Sources
sources = record {
  directory = directory;
  memories = [];
  layout = record {
    project_root = "/app";
    service_dir = "/app/service";
    allowed_root_files = [];
    readonly_paths = [];
  };
  resolve_path = concat "/app/";
  files = [];
}

abbrev pub one_run : PromptState
one_run = record {
  run_id = "orch-1";
  requirement = "add a page";
  resolved_requirement = "";
  scenario_type = "greenfield";
  token = "alice";
  assumptions = [];
  stage_artifacts = [];
}

abbrev other_run : PromptState
other_run = record one_run {
  run_id = "orch-2";
  token = "bob";
  stage_artifacts = ("test_plan", []) ∷ [];
}

asks_for_page :
    build_instruction "documentation" one_run
    ≡ "## Your Task\n\n**Scenario**: greenfield\n\n**Requirement**:\nadd a page\n\nProduce the documentation output now. Respond with a valid JSON object only."
unfolding build_instruction
asks_for_page = refl

abbrev pub key : List Message → String
key [] = ""
key (system s ∷ ms) = concat s (key ms)
key (user s ∷ ms) = concat s (key ms)
key (_ ∷ ms) = key ms

-- the world counts the calls of the gateway
abbrev platform : Platform ℕ
platform = record {
  call_gateway = λ request n. (some (record { content = some "{}"; tool_calls = [] }), n + 1);
  execute_tool = λ name args n. ("", n);
  parse_artifact = λ reply. some reply;
  sha256 = λ s. s;
  dumps = λ fields. "{}";
  key_of = key;
  model = "gpt-4o";
}

abbrev filled : Entries
filled = (run_agent platform 0 sources "documentation" one_run [] 0).1

asks_once :
    run_agent platform 0 sources "documentation" one_run [] 0
    ≡ (ok (completed "{}" false), filled, 1)
unfolding run_agent build load candidates greatest version_of at_end run_stage converse get
asks_once = refl

later_run_reuses_example :
    ((run_agent platform 60 sources "documentation" other_run filled 1).0
      ≡ ok (completed "{}" true))
    × ((run_agent platform 60 sources "documentation" other_run filled 1).2 ≡ 1)
later_run_reuses_example =
    later_run_reuses platform 0 60 sources "documentation" one_run other_run [] filled 0 1 1 "{}"
      (λ same.
        let equal = (string_eq.beq_iff "documentation" "implementation").1 same in
        absurd (ground (arith, equal)))
      (refl, refl, refl, λ name i. elim i [ inl e ↦ rw e refl | inr none_left ↦ absurd none_left ])
      asks_once (omega arith)
