-- ===== src/Agents/Stage/Repeat.antt =====
-- A stage that is run again, and the shape of its conversation.
use mathlib.Core.Path.{subst}
use url_copilot.Prelude.{
  List, List-cases, Option, Option-cases, Result-cases, String, [], arith, false, inl, inr, leb,
  some, suc, true, zero, ℕ, ◌*◌, ◌++◌, ◌+◌, ◌<◌, ◌∷◌, ◌≡◌,
}
use url_copilot.Gateway.Models.{ToolCall}
use url_copilot.Agents.Stage.{
  Services, Turn, assistant, completed, converse, max_tool_iterations, run_calls, run_stage, tool,
}
use url_copilot.Agents.Cache.{Entries, default_ttl_hours, get, set}
use url_copilot.Agents.Cache.Reads.{set-get}

-- Each response with tool calls is followed by one answer to each of its calls, in their order.
pub data IsPaired : List Turn → List ToolCall → Type 0 where
  empty : IsPaired [] []
  asked :
      {history : List Turn} (content : Option String) (calls : List ToolCall)
      → IsPaired history []
      → IsPaired (history ++ assistant content calls ∷ []) calls
  answered :
      {history : List Turn} (c : ToolCall) {calls : List ToolCall} (text : String)
      → IsPaired history (c ∷ calls)
      → IsPaired (history ++ tool c.id text ∷ []) calls

module _ {W : Type 0} (services : Services W) where
  run_calls-IsPaired :
      (calls : List ToolCall) (history : List Turn) (w : W)
      → IsPaired history calls
      → IsPaired (run_calls services calls history w).0 []
  unfolding run_calls
  run_calls-IsPaired [] history w paired = paired
  run_calls-IsPaired (c ∷ calls) history w paired =
      run_calls-IsPaired calls _ _
        (answered c (services.execute_tool c.name c.arguments w).0 paired)

  converse-IsPaired :
      (left : ℕ) (history : List Turn) (w : W)
      → IsPaired history []
      → IsPaired (converse services left history w).1 []
  unfolding converse
  converse-IsPaired zero history w paired = paired
  converse-IsPaired (suc left) history w paired =
      let end = (converse services (suc left) history w).1 in
      elim (Option-cases (services.ask history w).0) [
        | inl unanswered ↦
            let same : history ≡ end = ground arith in subst (λ h. IsPaired h []) same paired
        | inr (r, reply) ↦ elim (List-cases r.tool_calls) [
          | inl final ↦
              let same : history ≡ end = ground arith in subst (λ h. IsPaired h []) same paired
          | inr (c, calls, some_calls) ↦
              let turns = history ++ assistant r.content (c ∷ calls) ∷ [] in
              let next = run_calls services (c ∷ calls) turns (services.ask history w).1 in
              let rest =
                converse-IsPaired left next.0 next.1
                  (run_calls-IsPaired (c ∷ calls) turns _ (asked r.content (c ∷ calls) paired)) in
              let same : (converse services left next.0 next.1).1 ≡ end = ground arith in
              subst (λ h. IsPaired h []) same rest
        ]
      ]

  pub conversation-IsPaired : (w : W) → IsPaired (converse services max_tool_iterations [] w).1 []
  conversation-IsPaired w = converse-IsPaired max_tool_iterations [] w empty

  run_stage_miss :
      (sha256 : String → String) (now : ℕ) (prompt model artifact : String) (c c' : Entries)
      (w w' : W)
      → run_stage services sha256 now prompt model c w ≡ (completed artifact false, c', w')
      → c'
        ≡ set sha256 now prompt model artifact default_ttl_hours (get sha256 now prompt model c).1
  unfolding run_stage
  run_stage_miss sha256 now prompt model artifact c c' w w' h =
      elim (Option-cases (get sha256 now prompt model c).0) [
        | inr (cached, hit) ↦ absurd (ground arith)
        | inl miss ↦ elim (Result-cases (converse services max_tool_iterations [] w).0) [
          | inl (x, raised) ↦ absurd (ground arith)
          | inr (found, e) ↦ ground arith
        ]
      ]

  pub run_stage-stored :
      (sha256 : String → String) (now later : ℕ) (prompt model artifact : String) (c c' : Entries)
      (w w' : W)
      → run_stage services sha256 now prompt model c w ≡ (completed artifact false, c', w')
      → later < now + 24 * 3_600
      → (get sha256 later prompt model c').0 ≡ some artifact
  run_stage-stored sha256 now later prompt model artifact c c' w w' h soon =
      let stored = run_stage_miss sha256 now prompt model artifact c c' w w' h in
      let (answer, _) =
        set-get sha256 0 now later prompt model artifact default_ttl_hours
          (get sha256 now prompt model c).1 in
      let live : leb (now + 24 * 3_600) later ≡ false = ground arith in ground arith

  -- A stage that the model has completed and that is run again with the same prompt and model within 24
  -- hours completes with the same artifact, from the cache, and leaves the world as it is: it calls
  -- neither the gateway nor a tool.
  pub run_stage_repeats :
      (sha256 : String → String) (now later : ℕ) (prompt model artifact : String) (c c' : Entries)
      (w w' w'' : W)
      → run_stage services sha256 now prompt model c w ≡ (completed artifact false, c', w')
      → later < now + 24 * 3_600
      → ((run_stage services sha256 later prompt model c' w'').0 ≡ completed artifact true)
        × ((run_stage services sha256 later prompt model c' w'').2 ≡ w'')
  unfolding run_stage
  run_stage_repeats sha256 now later prompt model artifact c c' w w' w'' h soon =
      let hit = run_stage-stored sha256 now later prompt model artifact c c' w w' h soon in
      (ground arith, ground arith)
