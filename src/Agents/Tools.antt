-- ===== src/Agents/Tools.antt =====
-- orchestrator/tools/registry.py, orchestrator/cache/tool_cache.py and the guard of `write_file` in
-- orchestrator/tools/filesystem.py. A tool's arguments are their JSON text with sorted keys, its result
-- a JSON text, and `none` stands for Python's None; what the tools read and change is a type `S`.
pub mod Stale
pub mod Guard
use url_copilot.Prelude.{
  Bool, Dict, List, Option, Result, String, [], codes, concat, contains, err, false, if◌then◌else◌,
  insert, lookup, nat_eq, none, not, ok, or_raise, raise_if, remove, some, starts_with, string_eq,
  true, ◌&&◌, ◌>>=◌, ◌>>◌, ◌∷◌,
}

-- `_NO_CACHE_TOOLS`
abbrev pub no_cache_tools : List String
no_cache_tools = "write_file" ∷ "create_branch" ∷ "commit_and_push" ∷ "create_pr" ∷ []

-- the keys of `TOOLS`
abbrev pub tool_names : List String
tool_names =
    "read_file" ∷ "write_file" ∷ "list_directory" ∷ "search_codebase" ∷ "run_tests" ∷ "run_linter"
    ∷ "create_branch" ∷ "commit_and_push" ∷ "create_pr" ∷ "poll_pr_status" ∷ []

abbrev pub ToolCache : Type 0
ToolCache = Dict String String

module _ (sha256 : String → String) where
  -- `_key`
  abbrev pub tool_key : String → String → String
  tool_key tool_name args = sha256 (concat tool_name args)

  unfoldable pub cache_get : ToolCache → String → String → Option String
  cache_get cache tool_name args = lookup (tool_key tool_name args) cache

  unfoldable pub cache_set : ToolCache → String → String → String → ToolCache
  cache_set cache tool_name args result = insert (tool_key tool_name args) result cache

  unfoldable pub cache_invalidate : ToolCache → String → String → ToolCache
  cache_invalidate cache tool_name args = remove (tool_key tool_name args) cache

-- What a tool function does: it returns a result or raises with a message.
pub data ToolOutcome : Type 0 where
  returned : Option String → ToolOutcome
  raised : String → ToolOutcome

pub record ToolResult : Type 0 where
  pub result : Option String
  pub cache_hit : Bool
  pub error : Option String

-- a result of None goes into the cache too, where `get` takes it for a miss
abbrev pub store_result :
    (String → String) → ToolCache → String → String → Option String → ToolCache
store_result sha256 cache tool_name args none = cache
store_result sha256 cache tool_name args (some r) = cache_set sha256 cache tool_name args r

module _ {S : Type 0} (sha256 : String → String)
    (tool : String → String → S → ToolOutcome × S) where
  -- the tool itself, with its result put into the cache if it is cacheable
  unfoldable pub run_tool : Bool → String → String → ToolCache → S → ToolResult × ToolCache × S
  run_tool cacheable tool_name args cache s =
      let (outcome, s') = tool tool_name args s in
      elim outcome [
        | raised message ↦
            (record { result = none; cache_hit = false; error = some message }, cache, s')
        | returned r ↦ (
          record { result = r; cache_hit = false; error = none },
          if cacheable then store_result sha256 cache tool_name args r else cache,
          s',
        )
      ]

  -- `execute` with a cache; `none` stands for KeyError
  unfoldable pub execute : String → String → ToolCache → S → Option (ToolResult × ToolCache × S)
  execute tool_name args cache s =
      if not (contains tool_name tool_names)
      then none
      else if contains tool_name no_cache_tools
      then some (run_tool false tool_name args cache s)
      else elim (cache_get sha256 cache tool_name args) [
        | some cached ↦
            some (record { result = some cached; cache_hit = true; error = none }, cache, s)
        | none ↦ some (run_tool true tool_name args cache s)
      ]

-- The roots and lists of filesystem.py, as the absolute paths that `str` gives.
pub record Layout : Type 0 where
  pub project_root : String
  pub service_dir : String
  pub allowed_root_files : List String
  pub readonly_paths : List String

pub data FileError : Type 0 where
  write_guardrail_error escapes_root file_not_found not_a_directory : FileError

abbrev pub Files : Type 0
Files = Dict String String

-- `resolve` is `str((PROJECT_ROOT / path).resolve())`
module _ (l : Layout) (resolve_path : String → String) where
  unfoldable pub read_file : String → Files → Result FileError String
  read_file path files = do
    raise_if (not (starts_with (codes l.project_root) (codes (resolve_path path)))) escapes_root
    or_raise (lookup (resolve_path path) files) file_not_found

  unfoldable pub write_file : String → String → Files → Result FileError Files
  write_file path content files =
      let resolved = resolve_path path in
      let in_service = starts_with (codes l.service_dir) (codes resolved) in
      let in_allowlist = contains resolved l.allowed_root_files in
      if not in_service && not in_allowlist
      then err write_guardrail_error
      else if contains resolved l.readonly_paths
      then err write_guardrail_error
      else ok (insert resolved content files)
