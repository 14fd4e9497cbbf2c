-- ===== src/Tests/Stages.antt =====
-- Runs of the tools, the response cache and the stage agent.
use url_copilot.Prelude.{
  List, Option, String, [], concat, err, false, if◌then◌else◌, insert_sorted, lookup, nat_eq, none,
  ok, refl, some, string_eq, true, ℕ, ◌+◌, ◌==◌, ◌↔◌, ◌∷◌, ◌≡◌,
}
use url_copilot.Agents.Cache.{get, set}
use url_copilot.Agents.Tools.{
  Files, Layout, ToolCache, ToolOutcome, cache_get, cache_set, execute, returned, run_tool,
  write_file, write_guardrail_error,
}
use url_copilot.Agents.Search.{list_directory, search_codebase}
use url_copilot.Agents.Tools.Guard.{MayWrite, write_file_guard}
use url_copilot.Agents.Tools.Stale.{execute_never_refreshes, further, here}
use url_copilot.Agents.Stage.{
  Services, completed, converse, max_tool_iterations, run_calls, run_stage,
}
use url_copilot.Agents.Stage.Repeat.{IsPaired, conversation-IsPaired}

abbrev digest : String → String
digest s = s

abbrev layout : Layout
layout = record {
  project_root = "/app";
  service_dir = "/app/service";
  allowed_root_files = "/app/requirements.txt" ∷ [];
  readonly_paths = "/app/service/tests/unit/test_urls.py" ∷ [];
}

abbrev absolute : String → String
absolute path = concat "/app/" path

writes_inside :
    write_file layout absolute "service/main.py" "x" [] ≡ ok (("/app/service/main.py", "x") ∷ [])
unfolding write_file
writes_inside = refl

protects_tests :
    write_file layout absolute "service/tests/unit/test_urls.py" "x" [] ≡ err write_guardrail_error
unfolding write_file
protects_tests = refl

-- the guard compares texts, so that a neighbour of the directory passes
writes_beside :
    write_file layout absolute "service_backup/a.py" "x" []
    ≡ ok (("/app/service_backup/a.py", "x") ∷ [])
unfolding write_file
writes_beside = refl

write_file_guard_example :
    ((files : Files) × (write_file layout absolute "service_backup/a.py" "x" [] ≡ ok files)
      × ((q : String)
          → lookup q files ≡ (if q == "/app/service_backup/a.py" then some "x" else lookup q [])))
    ↔ MayWrite layout "/app/service_backup/a.py"
write_file_guard_example = write_file_guard layout absolute "service_backup/a.py" "x" []

abbrev one_line : String → List String
one_line output = output ∷ []

abbrev seven : String → Option ℕ
seven digits = if digits == "7" then some 7 else none

finds_line :
    search_codebase one_line seven "service/main.py:7:x = {a: 1}"
    ≡ record { file = "service/main.py"; line = 7; content = "x = {a: 1}" } ∷ []
unfolding search_codebase
finds_line = refl

lists_sorted :
    list_directory layout absolute "service" (("/app/service", "main.py" ∷ "api" ∷ []) ∷ [])
    ≡ ok ("api" ∷ "main.py" ∷ [])
unfolding list_directory insert_sorted
lists_sorted = refl

-- a test runner whose report is the state, and a write that sets it
abbrev tools : String → String → String → ToolOutcome × String
tools name args s =
    if name == "write_file" then (returned (some "true"), args) else (returned (some s), s)

abbrev reported : ToolCache
reported = ("run_tests{}", "1 failed") ∷ []

tests_fail :
    execute digest tools "run_tests" "{}" [] "1 failed"
    ≡ some
        (record { result = some "1 failed"; cache_hit = false; error = none }, reported, "1 failed")
unfolding execute run_tool cache_get cache_set
tests_fail = refl

code_mended :
    execute digest tools "write_file" "all passed" reported "1 failed"
    ≡ some
        (record { result = some "true"; cache_hit = false; error = none }, reported, "all passed")
unfolding execute run_tool cache_get cache_set
code_mended = refl

execute_never_refreshes_example :
    execute digest tools "run_tests" "{}" reported "all passed"
    ≡ some (
      record { result = some "1 failed"; cache_hit = true; error = none },
      reported,
      "all passed",
    )
execute_never_refreshes_example =
    execute_never_refreshes digest tools "run_tests" "{}" "1 failed" [] reported reported "1 failed"
      "1 failed" "all passed" refl tests_fail
      (further "write_file" "all passed" "1 failed"
        (record { result = some "true"; cache_hit = false; error = none }) reported "all passed"
        here code_mended)

-- the world counts the calls of the gateway; the first response asks for a tool
abbrev services : Services ℕ
services = record {
  ask = λ history n. (
    some (
        if n == 0
        then record {
          content = none;
          tool_calls = record { id = "c1"; name = "read_file"; arguments = "{}" } ∷ [];
        }
        else record { content = some "{}"; tool_calls = [] }),
    n + 1,
  );
  execute_tool = λ name args n. ("text", n);
  parse_artifact = λ text. some text;
}

completes :
    run_stage services digest 0 "plan" "gpt-4o" [] 0
    ≡ (completed "{}" false, set digest 0 "plan" "gpt-4o" "{}" 24 [], 2)
unfolding run_stage converse run_calls get
completes = refl

conversation-IsPaired_example : IsPaired (converse services max_tool_iterations [] 0).1 []
conversation-IsPaired_example = conversation-IsPaired services 0
