-- ===== src/Prompts/Reuse.antt =====
-- A stage's answer that another run gets from the cache.
use url_copilot.Prelude.{
  Dict, In, List, Result-cases, String, [], ap, arith, false, inl, inr, join, lookup, nat_eq, ok,
  or_else, refl, string_eq, sym, true, ℕ, ◌*◌, ◌+◌, ◌<◌, ◌==◌, ◌∙◌, ◌∷◌, ◌≡◌, ◌≢◌,
}
use url_copilot.Prelude.Json.{Fields}
use url_copilot.Prompts.Builder.{
  Message, PromptState, Sources, branch_lines, build, build_instruction, format_prior_artifacts,
  instruction_lines, listed, prior_stages, relevant,
}
use url_copilot.Agents.Cache.{Entries}
use url_copilot.Agents.Stage.{completed, run_stage}
use url_copilot.Agents.Stage.Repeat.{run_stage-stored}
use url_copilot.Prompts.Agent.{Platform, run_agent, services_of}

-- The states agree on what the prompt of the stage takes: the requirement in force, the scenario, the
-- assumptions, and the artifacts of the stages that it depends on.
abbrev pub AgreeOn : String → PromptState → PromptState → Type 0
AgreeOn stage s t =
    (or_else s.resolved_requirement s.requirement ≡ or_else t.resolved_requirement t.requirement)
    × (s.scenario_type ≡ t.scenario_type)
    × (s.assumptions ≡ t.assumptions)
    × ((name : String)
        → In name (listed prior_stages stage)
        → lookup name s.stage_artifacts ≡ lookup name t.stage_artifacts)

relevant-agree :
    (stages : List String) (a b : Dict String Fields)
    → ((name : String) → In name stages → lookup name a ≡ lookup name b)
    → relevant stages a ≡ relevant stages b
unfolding relevant
relevant-agree [] a b same = refl
relevant-agree (stage ∷ stages) a b same =
    let here = same stage (inl refl) in
    let rest = relevant-agree stages a b (λ name i. same name (inr i)) in ground (arith, here, rest)

prior-agree :
    (dumps : Fields → String) (stage : String) (s t : PromptState)
    → relevant (listed prior_stages stage) s.stage_artifacts
      ≡ relevant (listed prior_stages stage) t.stage_artifacts
    → format_prior_artifacts dumps stage s ≡ format_prior_artifacts dumps stage t
unfolding format_prior_artifacts
prior-agree dumps stage s t same = ground (arith, same)

instruction-agree :
    (stage : String) (s t : PromptState)
    → (stage == "implementation") ≡ false
    → or_else s.resolved_requirement s.requirement ≡ or_else t.resolved_requirement t.requirement
    → s.scenario_type ≡ t.scenario_type
    → s.assumptions ≡ t.assumptions
    → build_instruction stage s ≡ build_instruction stage t
unfolding build_instruction
instruction-agree stage s t other requirement scenario assumptions =
    let branch : branch_lines stage s.run_id ≡ branch_lines stage t.run_id =
      ground (arith, other) in
    ap
      (λ r.
        join "\n"
          (instruction_lines stage s.scenario_type r s.assumptions (branch_lines stage s.run_id)))
      requirement
    ∙ (ap
          (λ k. join "\n" (
            instruction_lines stage k (or_else t.resolved_requirement t.requirement) s.assumptions
              (branch_lines stage s.run_id)))
          scenario
        ∙ (ap
              (λ a. join "\n" (
                instruction_lines stage t.scenario_type
                  (or_else t.resolved_requirement t.requirement) a (branch_lines stage s.run_id)))
              assumptions
            ∙ ap
                (λ b. join "\n" (
                  instruction_lines stage t.scenario_type
                    (or_else t.resolved_requirement t.requirement) t.assumptions b))
                branch))

build-agree :
    (dumps : Fields → String) (src : Sources) (stage : String) (s t : PromptState)
    → stage ≢ "implementation"
    → AgreeOn stage s t
    → build dumps src stage s [] [] ≡ build dumps src stage t [] []
unfolding build
build-agree dumps src stage s t other (requirement, scenario, assumptions, artifacts) =
    let blocks =
      prior-agree dumps stage s t (
        relevant-agree (listed prior_stages stage) s.stage_artifacts t.stage_artifacts artifacts) in
    let unnamed : (stage == "implementation") ≡ false =
      ground (arith, string_eq.beq_iff stage "implementation") in
    let asks = instruction-agree stage s t unnamed requirement scenario assumptions in
    rw (blocks, asks) refl

run_agent-built :
    {W : Type 0} (p : Platform W) (now : ℕ) (src : Sources) (stage : String) (s : PromptState)
    (c : Entries) (w : W) (messages : List Message) (version : String)
    → build p.dumps src stage s [] [] ≡ ok (messages, version)
    → let ran =
        run_stage
          (services_of p src stage s version)
          p.sha256
          now
          (p.key_of messages)
          p.model
          c
          w in
      run_agent p now src stage s c w ≡ (ok ran.0, ran.1, ran.2)
unfolding run_agent
run_agent-built p now src stage s c w messages version built = ground (arith, built)

run_agent-outcome :
    {W : Type 0} (p : Platform W) (now : ℕ) (src : Sources) (stage : String) (s : PromptState)
    (c c' : Entries) (w w' : W) (artifact : String)
    → run_agent p now src stage s c w ≡ (ok (completed artifact false), c', w')
    → (messages : List Message) × (version : String) × (build p.dumps src stage s [] []
        ≡ ok (messages, version))
      × (run_stage (services_of p src stage s version) p.sha256 now (p.key_of messages) p.model c w
          ≡ (completed artifact false, c', w'))
unfolding run_agent
run_agent-outcome p now src stage s c c' w w' artifact ran =
    elim (Result-cases (build p.dumps src stage s [] [])) [
      | inl (x, missing) ↦ absurd (ground arith)
      | inr ((messages, version), built) ↦
          let same = sym (run_agent-built p now src stage s c w messages version built) ∙ ran in
          (messages, version, built, ground (arith, same))
    ]

-- When a stage other than the implementation has been completed by the model, a stage of the same name
-- of another run, within 24 hours, with the same prompt files, memories and source files and a state
-- that agrees on what the prompt takes, completes with the first run's artifact, whatever its run id,
-- token and other artifacts are, and leaves the world as it is: neither the gateway nor a tool is
-- called, so that the tests, say, are not run again.
pub later_run_reuses :
    {W : Type 0} (p : Platform W) (now later : ℕ) (src : Sources) (stage : String)
    (s t : PromptState) (c c' : Entries) (w w' other_world : W) (artifact : String)
    → stage ≢ "implementation"
    → AgreeOn stage s t
    → run_agent p now src stage s c w ≡ (ok (completed artifact false), c', w')
    → later < now + 24 * 3_600
    → ((run_agent p later src stage t c' other_world).0 ≡ ok (completed artifact true))
      × ((run_agent p later src stage t c' other_world).2 ≡ other_world)
unfolding run_agent run_stage
later_run_reuses p now later src stage s t c c' w w' other_world artifact other agree ran soon =
    let (messages, version, built, first_run) =
      run_agent-outcome p now src stage s c c' w w' artifact ran in
    let rebuilt = sym (build-agree p.dumps src stage s t other agree) ∙ built in
    let hit =
      run_stage-stored (services_of p src stage s version) p.sha256 now later (p.key_of messages)
        p.model artifact c c' w w' first_run soon in
    (ground arith, ground arith)
