-- ===== src/Agents/Tools/Stale.antt =====
-- What a cached tool answers.
use url_copilot.Prelude.{
  Bool-cases, Option, Option-cases, String, ap, arith, contains, eq_iff, false, inl, inr, insert,
  lookup, lookup-insert, lookup-insert_self, nat_eq, none, refl, some, string_eq, sym, true, ◌==◌,
  ◌∙◌, ◌≡◌, ◌⊎◌,
}
use url_copilot.Agents.Tools.{
  ToolCache, ToolOutcome, ToolResult, cache_get, cache_set, execute, no_cache_tools, raised,
  returned, run_tool, tool_key, tool_names,
}

pub ToolOutcome-cases :
    (o : ToolOutcome) → ((m : String) × (o ≡ raised m)) ⊎ ((r : Option String) × (o ≡ returned r))
ToolOutcome-cases (raised m) = inl (m, refl)
ToolOutcome-cases (returned r) = inr (r, refl)

insert-keeps :
    (j k r v : String) (cache : ToolCache)
    → lookup j cache ≡ none
    → lookup k cache ≡ some v
    → lookup k (insert j r cache) ≡ some v
insert-keeps j k r v cache miss entry = elim (Bool-cases (k == j)) [
  | inl same ↦ absurd (ground (arith, ap (λ i. lookup i cache) ((eq_iff k j).0 same)))
  | inr other ↦ ground (arith, lookup-insert j k r cache)
]

module _ {S : Type 0} (sha256 : String → String)
    (tool : String → String → S → ToolOutcome × S) where
  -- The caches that calls of the tools lead to, whatever the tools do to what they read.
  pub data Reached (start : ToolCache) : ToolCache → Type 0 where
    here : Reached start start
    further :
        {cache : ToolCache} (tool_name args : String) (s : S) (r : ToolResult) (cache' : ToolCache)
        (s' : S)
        → Reached start cache
        → execute sha256 tool tool_name args cache s ≡ some (r, cache', s')
        → Reached start cache'

  -- an entry is never replaced: a hit stores nothing, and only a miss of its key stores
  run_tool_keeps :
      (name args : String) (cache : ToolCache) (s : S) (k v : String)
      → lookup (tool_key sha256 name args) cache ≡ none
      → lookup k cache ≡ some v
      → lookup k (run_tool sha256 tool true name args cache s).1 ≡ some v
  unfolding run_tool cache_set
  run_tool_keeps name args cache s k v miss entry = elim (ToolOutcome-cases (tool name args s).0) [
    | inl (message, e) ↦ ground arith
    | inr (none, e) ↦ ground arith
    | inr (some r, e) ↦
        let kept = insert-keeps (tool_key sha256 name args) k r v cache miss entry in ground arith
  ]

  pub run_tool_uncached :
      (name args : String) (cache : ToolCache) (s : S)
      → (run_tool sha256 tool false name args cache s).1 ≡ cache
  unfolding run_tool
  run_tool_uncached name args cache s = elim (ToolOutcome-cases (tool name args s).0) [
    | inl (message, e) ↦ ground arith
    | inr (r, e) ↦ ground arith
  ]

  execute_keeps :
      (name args : String) (cache : ToolCache) (s : S) (r : ToolResult) (cache' : ToolCache)
      (s' : S) (k v : String)
      → execute sha256 tool name args cache s ≡ some (r, cache', s')
      → lookup k cache ≡ some v
      → lookup k cache' ≡ some v
  unfolding execute cache_get
  execute_keeps name args cache s r cache' s' k v h entry =
      elim (Bool-cases (contains name tool_names)) [
        | inr unknown ↦ absurd (ground arith)
        | inl known ↦ elim (Bool-cases (contains name no_cache_tools)) [
          | inl writes ↦
              let same : (run_tool sha256 tool false name args cache s).1 ≡ cache' = ground arith in
              ap (lookup k) (sym same ∙ run_tool_uncached name args cache s) ∙ entry
          | inr reads ↦ elim (Option-cases (lookup (tool_key sha256 name args) cache)) [
            | inl miss ↦
                let same : (run_tool sha256 tool true name args cache s).1 ≡ cache' =
                  ground arith in
                ap (lookup k) (sym same) ∙ run_tool_keeps name args cache s k v miss entry
            | inr (cached, hit) ↦
                let same : cache ≡ cache' = ground arith in ap (lookup k) (sym same) ∙ entry
          ]
        ]
      ]

  Reached-keeps :
      (start : ToolCache) (cache : ToolCache) (k v : String)
      → Reached start cache
      → lookup k start ≡ some v
      → lookup k cache ≡ some v
  Reached-keeps start _ k v here entry = entry
  Reached-keeps start _ k v (further {cache} name args s r cache' s' before called) entry =
      execute_keeps name args cache s r cache' s' k v called
        (Reached-keeps start cache k v before entry)

  run_tool_result :
      (name args v : String) (cache start : ToolCache) (s s' : S)
      → run_tool sha256 tool true name args cache s
        ≡ (record { result = some v; cache_hit = false; error = none }, start, s')
      → lookup (tool_key sha256 name args) start ≡ some v
  unfolding run_tool cache_set
  run_tool_result name args v cache start s s' ran = elim (ToolOutcome-cases (tool name args s).0) [
    | inl (message, e) ↦ absurd (ground arith)
    | inr (none, e) ↦ absurd (ground arith)
    | inr (some r, e) ↦
        let entry = lookup-insert_self (tool_key sha256 name args) r cache in ground arith
  ]

  first_result :
      (name args v : String) (cache start : ToolCache) (s s' : S)
      → contains name no_cache_tools ≡ false
      → execute sha256 tool name args cache s
        ≡ some (record { result = some v; cache_hit = false; error = none }, start, s')
      → (contains name tool_names ≡ true) × (lookup (tool_key sha256 name args) start ≡ some v)
  unfolding execute cache_get
  first_result name args v cache start s s' cacheable first_call =
      elim (Bool-cases (contains name tool_names)) [
        | inr unknown ↦ absurd (ground arith)
        | inl known ↦ elim (Option-cases (lookup (tool_key sha256 name args) cache)) [
          | inl miss ↦ (known, run_tool_result name args v cache start s s' (ground arith))
          | inr (cached, hit) ↦ absurd (ground arith)
        ]
      ]

  -- A cacheable tool that has once returned a value for some arguments returns this value for them at
  -- every later call with the same cache, whatever tools have run in between and whatever they have
  -- written, and does not run again.
  pub execute_never_refreshes :
      (name args v : String) (cache start later : ToolCache) (s s' s'' : S)
      → contains name no_cache_tools ≡ false
      → execute sha256 tool name args cache s
        ≡ some (record { result = some v; cache_hit = false; error = none }, start, s')
      → Reached start later
      → execute sha256 tool name args later s''
        ≡ some (record { result = some v; cache_hit = true; error = none }, later, s'')
  unfolding execute cache_get
  execute_never_refreshes name args v cache start later s s' s'' cacheable first_call reached =
      let key = tool_key sha256 name args in
      let (known, entry) = first_result name args v cache start s s' cacheable first_call in
      let kept = Reached-keeps start later key v reached entry in ground arith
