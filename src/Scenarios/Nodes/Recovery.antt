-- ===== src/Scenarios/Nodes/Recovery.antt =====
-- The search of the node for a pull request among the cached results of the tools.
use mathlib.Core.Path.{subst}
use url_copilot.Prelude.{
  Bool, Bool-cases, Option, Option-cases, String, [], arith, contains, false, inl, inr, insert,
  is_some, lookup, nat_eq, none, refl, some, string_eq, sym, true, ◌==◌, ◌∙◌, ◌∷◌, ◌≡◌,
}
use url_copilot.Prelude.Json.{Fields}
use url_copilot.Agents.Tools.{
  ToolCache, ToolOutcome, ToolResult, cache_get, cache_set, execute, no_cache_tools, returned,
  run_tool, tool_key, tool_names,
}
use url_copilot.Agents.Tools.Stale.{Reached, ToolOutcome-cases, run_tool_uncached}
use url_copilot.Scenarios.Nodes.{Database, Outside, filled_text, find_pr, recover_pr}

-- a result that the search takes for a pull request, on GitHub or elsewhere
abbrev pub shows_pr : (String → Option Fields) → String → Bool
shows_pr load_object r = elim (load_object r) [
  | none ↦ false
  | some fields ↦ is_some (filled_text "pr_url" fields)
]

module _ (load_object : String → Option Fields) where
  abbrev pub AllQuiet : ToolCache → Type 0
  AllQuiet [] = Unit
  AllQuiet ((key, r) ∷ cache) = (shows_pr load_object r ≡ false) × AllQuiet cache

  AllQuiet-insert :
      (key r : String) (cache : ToolCache)
      → shows_pr load_object r ≡ false
      → AllQuiet cache
      → AllQuiet (insert key r cache)
  AllQuiet-insert key r [] quiet all = (quiet, tt)
  AllQuiet-insert key r ((j, s) ∷ cache) quiet all = elim (Bool-cases (key == j)) [
    | inl same ↦ rw same (quiet, all.1)
    | inr other ↦ rw other (all.0, AllQuiet-insert key r cache quiet all.1)
  ]

  AllQuiet-find_pr : (cache : ToolCache) → AllQuiet cache → find_pr load_object cache ≡ none
  unfolding find_pr
  AllQuiet-find_pr [] all = refl
  AllQuiet-find_pr ((key, r) ∷ cache) all = elim (Option-cases (load_object r)) [
    | inl other ↦ ground (arith, AllQuiet-find_pr cache all.1)
    | inr (fields, loaded) ↦ elim (Option-cases (filled_text "pr_url" fields)) [
      | inl unnamed ↦ ground (arith, AllQuiet-find_pr cache all.1)
      | inr (url, named) ↦ absurd (ground arith)
    ]
  ]

module _ {S : Type 0} (sha256 : String → String) (tool : String → String → S → ToolOutcome × S)
    (load_object : String → Option Fields)
    (quiet : (name args : String) (s : S) (r : String)
      → contains name no_cache_tools ≡ false
      → (tool name args s).0 ≡ returned (some r)
      → shows_pr load_object r ≡ false) where
  run_tool-AllQuiet :
      (name args : String) (cache : ToolCache) (s : S)
      → contains name no_cache_tools ≡ false
      → AllQuiet load_object cache
      → AllQuiet load_object (run_tool sha256 tool true name args cache s).1
  unfolding run_tool cache_set
  run_tool-AllQuiet name args cache s cacheable all =
      elim (ToolOutcome-cases (tool name args s).0) [
        | inl (message, e) ↦ ground arith
        | inr (none, e) ↦ ground arith
        | inr (some r, e) ↦ ground (
          arith,
          AllQuiet-insert load_object (tool_key sha256 name args) r cache
              (quiet name args s r cacheable e) all,
        )
      ]

  execute-AllQuiet :
      (name args : String) (cache : ToolCache) (s : S) (r : ToolResult) (cache' : ToolCache)
      (s' : S)
      → execute sha256 tool name args cache s ≡ some (r, cache', s')
      → AllQuiet load_object cache
      → AllQuiet load_object cache'
  unfolding execute cache_get
  execute-AllQuiet name args cache s r cache' s' h all =
      elim (Bool-cases (contains name tool_names)) [
        | inr unknown ↦ absurd (ground arith)
        | inl known ↦ elim (Bool-cases (contains name no_cache_tools)) [
          | inl writes ↦
              let same : (run_tool sha256 tool false name args cache s).1 ≡ cache' = ground arith in
              subst (AllQuiet load_object)
                (sym (run_tool_uncached sha256 tool name args cache s) ∙ same) all
          | inr cacheable ↦ elim (Option-cases (lookup (tool_key sha256 name args) cache)) [
            | inl miss ↦
                let same : (run_tool sha256 tool true name args cache s).1 ≡ cache' =
                  ground arith in
                subst (AllQuiet load_object) same
                  (run_tool-AllQuiet name args cache s cacheable all)
            | inr (v, hit) ↦
                let same : cache ≡ cache' = ground arith in subst (AllQuiet load_object) same all
          ]
        ]
      ]

  Reached-AllQuiet : (cache : ToolCache) → Reached sha256 tool [] cache → AllQuiet load_object cache
  Reached-AllQuiet _ Reached.here = tt
  Reached-AllQuiet _ (Reached.further {cache} name args s r cache' s' run h) =
      execute-AllQuiet name args cache s r cache' s' h (Reached-AllQuiet cache run)

-- The search for a pull request in the tool cache finds nothing: create_pr is not cached, so that if
-- no cacheable tool returns an object with a `pr_url`, then after any calls of the tools from an empty
-- cache the recovery changes neither the artifact nor the tables.
pub recovery_never_finds :
    {S : Type 0} (sha256 : String → String) (tool : String → String → S → ToolOutcome × S)
    (o : Outside) (run_id : String) (cache : ToolCache) (artifact : Fields) (db : Database)
    → ((name args : String) (s : S) (r : String)
        → contains name no_cache_tools ≡ false
        → (tool name args s).0 ≡ returned (some r)
        → shows_pr o.load_object r ≡ false)
    → Reached sha256 tool [] cache
    → recover_pr o run_id cache artifact db ≡ (artifact, db)
unfolding recover_pr
recovery_never_finds sha256 tool o run_id cache artifact db quiet run =
    let nothing =
      AllQuiet-find_pr o.load_object cache
        (Reached-AllQuiet sha256 tool o.load_object quiet cache run) in
    ground arith
