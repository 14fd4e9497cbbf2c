-- ===== src/Prompts/Builder.antt =====
-- orchestrator/prompt_builder/builder.py. `json.dumps(artifact, indent=2)` is an argument.
use Prim.Native.Char.{code}
use url_copilot.Prelude.{
  Dict, List, Result, String, [], codes, concat, err, if◌then◌else◌, join, lookup, map, nat_beq,
  nat_eq, none, ok, or_else, prefix_of, some, starts_with, string_eq, suc, zero, ℕ, ◌++◌, ◌==◌,
  ◌>>=◌, ◌∷◌,
}
use url_copilot.Prelude.Json.{Fields}
use url_copilot.Memory.{Memory, format_for_prompt}
use url_copilot.Agents.Stage.{Turn}
use url_copilot.Agents.Tools.{Files, Layout, read_file}
use url_copilot.Prompts.Loader.{Directory, LoadError, load}

-- what the prompt takes of OrchestratorState, and what the stage's agent sends with it
pub record PromptState : Type 0 where
  pub run_id : String
  pub requirement : String
  pub resolved_requirement : String
  pub scenario_type : String
  pub token : String
  pub assumptions : List String
  pub stage_artifacts : Dict String Fields

-- what the builder reads besides: the prompts, the memories, the files of the service
pub record Sources : Type 0 where
  pub directory : Directory
  pub memories : List Memory
  pub layout : Layout
  pub resolve_path : String → String
  pub files : Files

pub data Message : Type 0 where
  system user : String → Message
  turn : Turn → Message

-- STAGE_CONTEXT_FILES
abbrev pub context_files : Dict String (List String)
context_files =
    ("classifier", [])
    ∷ (
      "requirements_analysis",
      "service/main.py" ∷ "service/api/v1/router.py" ∷ "service/models/__init__.py"
          ∷ "service/schemas/__init__.py" ∷ [],
    )
    ∷ (
      "architecture_design",
      "service/main.py" ∷ "service/api/v1/router.py" ∷ "service/models/__init__.py"
          ∷ "service/schemas/__init__.py" ∷ "service/config.py" ∷ [],
    )
    ∷ (
      "implementation_plan",
      "service/api/v1/router.py" ∷ "service/models/__init__.py" ∷ "service/schemas/__init__.py"
          ∷ "service/services/__init__.py" ∷ [],
    )
    ∷ ("test_plan", "service/tests/conftest.py" ∷ [])
    ∷ (
      "implementation",
      "service/main.py" ∷ "service/api/v1/router.py" ∷ "service/models/__init__.py"
          ∷ "service/schemas/__init__.py" ∷ "service/schemas/url.py"
          ∷ "service/services/__init__.py" ∷ "service/services/url_service.py" ∷ "requirements.txt"
          ∷ [],
    )
    ∷ (
      "unit_tests",
      "service/tests/conftest.py" ∷ "service/api/v1/router.py" ∷ "service/tests/unit/test_urls.py"
          ∷ [],
    )
    ∷ (
      "integration_tests",
      "service/tests/conftest.py" ∷ "service/api/v1/router.py"
          ∷ "service/tests/integration/test_urls.py" ∷ [],
    )
    ∷ ("documentation", "service/api/v1/router.py" ∷ [])
    ∷ ("release_readiness", "requirements.txt" ∷ [])
    ∷ []

-- PRIOR_STAGE_DEPENDENCIES
abbrev pub prior_stages : Dict String (List String)
prior_stages =
    ("classifier", [])
    ∷ ("requirements_analysis", [])
    ∷ ("architecture_design", "requirements_analysis" ∷ [])
    ∷ ("implementation_plan", "architecture_design" ∷ [])
    ∷ ("test_plan", "architecture_design" ∷ [])
    ∷ ("implementation", "architecture_design" ∷ "implementation_plan" ∷ [])
    ∷ ("unit_tests", "architecture_design" ∷ "implementation" ∷ [])
    ∷ ("integration_tests", "architecture_design" ∷ "implementation" ∷ [])
    ∷ ("documentation", "implementation" ∷ [])
    ∷ ("release_readiness", "architecture_design" ∷ "implementation" ∷ "unit_tests" ∷ [])
    ∷ []

-- `table.get(stage_name, [])`
abbrev pub listed : Dict String (List String) → String → List String
listed table stage = elim (lookup stage table) [ none ↦ [] | some names ↦ names ]

-- `stage.replace("_", " ").title()` for the stages that others depend on
abbrev pub labels : Dict String String
labels =
    ("requirements_analysis", "Requirements Analysis")
    ∷ ("architecture_design", "Architecture Design")
    ∷ ("implementation_plan", "Implementation Plan")
    ∷ ("implementation", "Implementation")
    ∷ ("unit_tests", "Unit Tests")
    ∷ []

abbrev pub label_of : String → String
label_of stage = elim (lookup stage labels) [ none ↦ stage | some label ↦ label ]

-- `s.replace("_", " ")`
abbrev pub spaced : String → String
spaced String.[] = ""
spaced (String.◌∷◌ c s) = String.◌∷◌ (if nat_beq (code c) b'_' then " " else c) (spaced s)

-- `s.replace("orch-", "")`, with so many characters of an occurrence still to pass
abbrev pub without_orch : ℕ → String → String
without_orch n String.[] = ""
without_orch (suc n) (String.◌∷◌ c s) = without_orch n s
without_orch zero (String.◌∷◌ c s) =
    let passed = without_orch 4 s in
    let kept = String.◌∷◌ c (without_orch 0 s) in
    if starts_with (codes "orch-") (codes (String.◌∷◌ c s)) then passed else kept

abbrev pub short_id : String → String
short_id run_id = if run_id == "" then "local" else prefix_of 8 (without_orch 0 run_id)

abbrev pub separator : String
separator = "\n\n────────────────────────────────────────────────────────────\n\n"

-- a block that is there only if it has text
abbrev pub block : String → List String
block part = if part == "" then [] else part ∷ []

-- {k: artifacts[k] for k in deps if k in artifacts}
unfoldable pub relevant : List String → Dict String Fields → Dict String Fields
relevant [] artifacts = []
relevant (stage ∷ stages) artifacts =
    let rest = relevant stages artifacts in
    elim (lookup stage artifacts) [ none ↦ rest | some fields ↦ (stage, fields) ∷ rest ]

abbrev pub file_block : Sources → String → String
file_block src path = elim (read_file src.layout src.resolve_path path src.files) [
  | err x ↦ concat "### " (concat path "\n(file not found — may not exist yet)")
  | ok content ↦ concat "### " (concat path (concat "\n```python\n" (concat content "\n```")))
]

unfoldable pub read_context_files : Sources → String → String
read_context_files src stage = elim (listed context_files stage) [
  | [] ↦ ""
  | path ∷ paths ↦
      join "\n\n" ("## Existing Codebase Context" ∷ map (file_block src) (path ∷ paths))
]

-- the lines of `_build_instruction` for the assumptions, and for the name of the branch
abbrev pub assumption_lines : List String → List String
assumption_lines [] = []
assumption_lines (a ∷ more) = "\n**Clarified assumptions**:" ∷ map (concat "- ") (a ∷ more)

abbrev pub branch_lines : String → String → List String
branch_lines stage run_id =
    if stage == "implementation"
    then concat "\n**Run ID suffix for branch naming**: `" (
        concat (short_id run_id) (
          concat "`\nName your branch: `feature/<slug>-" (
            concat (short_id run_id)
              (concat "` (e.g. `feature/add-qr-endpoint-" (concat (short_id run_id) "`).")))))
      ∷ []
    else []

abbrev pub instruction_lines : String → String → String → List String → List String → List String
instruction_lines stage scenario requirement assumptions branch =
    "## Your Task"
    ∷ ""
    ∷ concat "**Scenario**: " scenario
    ∷ ""
    ∷ "**Requirement**:"
    ∷ requirement
    ∷ (assumption_lines assumptions
        ++ (branch
            ++ concat "\nProduce the "
                (concat (spaced stage) " output now. Respond with a valid JSON object only.")
              ∷ []))

unfoldable pub build_instruction : String → PromptState → String
build_instruction stage st = join "\n" (
    instruction_lines stage st.scenario_type (or_else st.resolved_requirement st.requirement)
      st.assumptions (branch_lines stage st.run_id))

module _ (dumps : Fields → String) where
  abbrev pub artifact_block : String × Fields → String
  artifact_block (stage, fields) =
      concat "### " (concat (label_of stage) (concat "\n```json\n" (concat (dumps fields) "\n```")))

  unfoldable pub format_prior_artifacts : String → PromptState → String
  format_prior_artifacts stage st = elim (relevant (listed prior_stages stage) st.stage_artifacts) [
    | [] ↦ ""
    | a ∷ more ↦ join "\n\n" ("## Prior Stage Outputs" ∷ map artifact_block (a ∷ more))
  ]

  -- the layers 1, 3 and 4
  abbrev pub system_content : Sources → String → PromptState → String → String
  system_content src stage st task_prompt = join separator (
      task_prompt
      ∷ (block (format_for_prompt 20 src.memories) ++ block (format_prior_artifacts stage st)))

  -- `build`, with the version of the prompt
  unfoldable pub build :
      Sources
      → String
      → PromptState
      → List Turn
      → List Turn
      → Result LoadError (List Message × String)
  build src stage st history tool_results = do
    (task_prompt, version) ← load stage src.directory
    ok (
      system (system_content src stage st task_prompt)
          ∷ (map user (block (read_context_files src stage))
              ++ (map turn history
                  ++ (map turn tool_results ++ user (build_instruction stage st) ∷ []))),
      version,
    )
