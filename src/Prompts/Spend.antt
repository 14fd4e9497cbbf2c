-- ===== src/Prompts/Spend.antt =====
-- What a stage spends, through the gateway of orchestrator/gateway/gateway.py.
use mathlib.Core.Path.{subst}
use url_copilot.Prelude.{
  List, List-cases, Option-cases, Result, Result-cases, String, [], ap, arith, err, false, inl, inr,
  none, ok, or_raise, refl, some, suc, sym, true, zero, ℕ, ◌++◌, ◌∷◌, ◌≡◌, ◌≤◌,
}
use url_copilot.Agents.Stage.{
  StageError, StageOutcome, Turn, completed, converse, failed, gateway_raised, malformed_artifact,
  run_calls, run_stage,
}
use url_copilot.Gateway.Models.{ToolCall}
use url_copilot.Prompts.Builder.{PromptState, Sources, build}
use url_copilot.Agents.Cache.{Entries, default_ttl_hours, get, set}
use url_copilot.Prompts.Loader.{LoadError}
use url_copilot.Prompts.Agent.{run_agent, services_of}
use url_copilot.Prompts.Rows.{Spent, Spent-same, Spent-trans, Spent-weaken, answered, ask-Spent}
use url_copilot.Prompts.Calls.{Outlet, StageWorld, platform_of}

module _ {T : Type 0} (o : Outlet T) (src : Sources) (stage : String) (st : PromptState) where
  run_calls-gateway :
      (version : String) (calls : List ToolCall) (history : List Turn) (w : StageWorld T)
      → (run_calls (services_of (platform_of o) src stage st version) calls history w).1.gateway
        ≡ w.gateway
  unfolding run_calls
  run_calls-gateway version [] history w = refl
  run_calls-gateway version (c ∷ calls) history w =
      let (reply, tools') = o.tool c.name c.arguments w.tools in
      run_calls-gateway version calls (history ++ Turn.tool c.id reply ∷ [])
        (record w { tools = tools' })

  abbrev succeeded : {A : Type 0} → Result StageError A → ℕ
  succeeded (err x) = 0
  succeeded (ok a) = 1

  succeeded-le : {A : Type 0} (r : Result StageError A) → succeeded r ≤ 1
  succeeded-le (err x) = omega arith
  succeeded-le (ok a) = omega arith

  converse-Spent :
      (version : String) (left : ℕ) (history : List Turn) (w : StageWorld T)
      → let (outcome, history', w') =
          converse (services_of (platform_of o) src stage st version) left history w in
        Spent o src stage st (succeeded outcome) left w w'
  unfolding converse
  converse-Spent version zero history w = Spent-same o src stage st w w refl
  converse-Spent version (suc left) history w =
      let services = services_of (platform_of o) src stage st version in
      let all = converse services (suc left) history w in
      let w1 = (services.ask history w).1 in
      let asked = ask-Spent o src stage st version history w in
      elim (Option-cases (services.ask history w).0) [
        | inl unanswered ↦
            let e : all ≡ (err gateway_raised, history, w1) = ground (arith, unanswered) in
            subst (λ p. Spent o src stage st (succeeded p.0) (suc left) w p.2) (sym e)
              (Spent-weaken o src stage st _ 0 1 (suc left) w w1 (omega arith) (omega arith) asked)
        | inr (r, replied) ↦
            let one : answered o src stage st (services.ask history w).0 ≡ 1 =
              ground (arith, replied) in
            elim (List-cases r.tool_calls) [
              | inl final ↦
                  let last =
                    or_raise (o.parse_artifact (elim r.content [ none ↦ "" | some part ↦ part ]))
                      malformed_artifact in
                  let e : all ≡ (last, history, w1) = ground (arith, replied, final) in
                  subst (λ p. Spent o src stage st (succeeded p.0) (suc left) w p.2) (sym e)
                    (Spent-weaken o src stage st _ (succeeded last) 1 (suc left) w w1
                      (omega (arith, one, succeeded-le last)) (omega arith) asked)
              | inr (c, calls, some_calls) ↦
                  let turns = history ++ Turn.assistant r.content (c ∷ calls) ∷ [] in
                  let (history', w2) = run_calls services (c ∷ calls) turns w1 in
                  let rest = converse services left history' w2 in
                  let e : all ≡ rest = ground (arith, replied, some_calls) in
                  let ran =
                    Spent-same o src stage st w1 w2
                      (run_calls-gateway version (c ∷ calls) turns w1) in
                  subst (λ p. Spent o src stage st (succeeded p.0) (suc left) w p.2) (sym e)
                    (Spent-weaken o src stage st _ (succeeded rest.0) _ (suc left) w rest.2
                      (omega arith) (omega arith)
                      (Spent-trans o src stage st _ _ 1 left w w2 rest.2
                        (Spent-trans o src stage st _ 0 1 0 w w1 w2 asked ran)
                        (converse-Spent version left history' w2)))
            ]
      ]

  -- one if the model has completed the stage
  abbrev pub least_of : Result LoadError StageOutcome → ℕ
  least_of (ok (completed artifact false)) = 1
  least_of _ = 0

  -- Whatever the model, the tools and the cache answer, a stage adds at most twenty rows to orch_metrics,
  -- all with its run, its name and its model, and at least one if the model has completed it; it leaves
  -- the rows that were there; and it asks the OpenAI API at most eighty times.
  pub stage_spends :
      (now : ℕ) (c : Entries) (w : StageWorld T)
      → let (result, c', w') = run_agent (platform_of o) now src stage st c w in
        Spent o src stage st (least_of result) 20 w w'
  unfolding run_agent run_stage
  stage_spends now c w =
      let all = run_agent (platform_of o) now src stage st c w in
      let p = platform_of o in
      elim (Result-cases (build o.dumps src stage st [] [])) [
        | inl (x, missing) ↦
            let e : all ≡ (err x, c, w) = ground (arith, missing) in
            subst (λ q. Spent o src stage st (least_of q.0) 20 w q.2) (sym e)
              (Spent-weaken o src stage st 0 0 0 20 w w (omega arith) (omega arith)
                (Spent-same o src stage st w w refl))
        | inr ((messages, version), built) ↦
            let read = get o.sha256 now (o.key_of messages) o.model c in
            let (outcome, history, w') = converse (services_of p src stage st version) 20 [] w in
            let spent = converse-Spent version 20 [] w in
            elim (Option-cases read.0) [
              | inr (artifact, hit) ↦
                  let e : all ≡ (ok (completed artifact true), read.1, w) =
                    ground (arith, built, hit) in
                  subst (λ q. Spent o src stage st (least_of q.0) 20 w q.2) (sym e)
                    (Spent-weaken o src stage st 0 0 0 20 w w (omega arith) (omega arith)
                      (Spent-same o src stage st w w refl))
              | inl miss ↦ elim (Result-cases outcome) [
                | inl (x, raised) ↦
                    let e : all ≡ (ok (failed x), read.1, w') =
                      ground (arith, built, miss, raised) in
                    subst (λ q. Spent o src stage st (least_of q.0) 20 w q.2) (sym e)
                      (Spent-weaken o src stage st _ 0 20 20 w w' (omega arith) (omega arith) spent)
                | inr (artifact, done) ↦
                    let stored =
                      set o.sha256 now (o.key_of messages) o.model artifact default_ttl_hours
                        read.1 in
                    let e : all ≡ (ok (completed artifact false), stored, w') =
                      ground (arith, built, miss, done) in
                    subst (λ q. Spent o src stage st (least_of q.0) 20 w q.2) (sym e)
                      (subst (λ l. Spent o src stage st l 20 w w') (ap succeeded done) spent)
              ]
            ]
      ]
