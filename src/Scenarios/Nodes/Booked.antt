-- ===== src/Scenarios/Nodes/Booked.antt =====
-- A stage's node with the agent that it runs: what stays in orch_metrics of one execution.
use mathlib.Core.Path.{subst}
use url_copilot.Prelude.{
  All, List, Option-cases, Result-cases, String, [], arith, false, if◌then◌else◌, inl, inr, length,
  ok, refl, true, ℕ, ◌++◌, ◌∷◌, ◌≡◌, ◌≤◌, ap, sym, ◌∙◌,
}
use url_copilot.Agents.Cache.{Entries, get}
use url_copilot.Agents.Stage.{StageError, StageOutcome, converse, run_stage}
use url_copilot.Agents.Stage
use url_copilot.Agents.Tools.{ToolCache}
use url_copilot.Gateway.Models.{Metric}
use url_copilot.Prompts.Agent.{run_agent, services_of}
use url_copilot.Prompts.Builder.{PromptState, Sources, build}
use url_copilot.Prompts.Calls.{Outlet, StageWorld, platform_of}
use url_copilot.Prompts.Rows.{IsOwn, Spent}
use url_copilot.Prompts.Spend.{least_of, stage_spends}
use url_copilot.Runs.Store.{StageResult}
use url_copilot.Scenarios.Nodes.{Database, NodeState, Outside}
use url_copilot.Scenarios.Nodes.Execute.{stage_node}
use url_copilot.Scenarios.Nodes.Outcome.{is_hit, produced_of}
use url_copilot.Scenarios.Nodes.Records.{stage_node_records}
use url_copilot.Scenarios.Nodes.Writes.{IsKnown, hit_row}

abbrev pub is_done : StageOutcome → ℕ
is_done (Stage.completed artifact hit) = 1
is_done (Stage.failed x) = 0

-- a row of this run and stage
abbrev pub IsOf : String → String → Metric → Type 0
IsOf run_id stage m = (m.run_id ≡ run_id) × (m.stage_name ≡ stage)

All-weaken :
    (P Q : Metric → Type 0) (ms : List Metric) → ((m : Metric) → P m → Q m) → All P ms → All Q ms
All-weaken P Q [] f h = tt
All-weaken P Q (m ∷ ms) f h = (f m h.0, All-weaken P Q ms f h.1)

module _ {T : Type 0} (out : Outlet T) (src : Sources) (stage : String) (pst : PromptState) where
  hit_same :
      (now : ℕ) (c c' : Entries) (w w' : StageWorld T) (artifact : String)
      → run_agent (platform_of out) now src stage pst c w
        ≡ (ok (Stage.completed artifact true), c', w')
      → w' ≡ w
  unfolding run_agent run_stage
  hit_same now c c' w w' artifact ran = elim (Result-cases (build out.dumps src stage pst [] [])) [
    | inl (x, missing) ↦ absurd (ground arith)
    | inr ((messages, version), built) ↦
        elim (Option-cases (get out.sha256 now (out.key_of messages) out.model c).0) [
          | inr (cached, hit) ↦ ground arith
          | inl miss ↦
              elim (Result-cases
                (converse (services_of (platform_of out) src stage pst version) 20 [] w).0) [
                  | inl (x, raised) ↦ absurd (ground arith)
                  | inr (fresh, done) ↦ absurd (ground arith)
                ]
        ]
  ]

  -- the rows that the agent leaves
  agent_rows :
      (now : ℕ) (c c' : Entries) (w w' : StageWorld T) (outcome : StageOutcome)
      → run_agent (platform_of out) now src stage pst c w ≡ (ok outcome, c', w')
      → Spent out src stage pst (least_of out src stage pst (ok outcome)) 20 w w'
  agent_rows now c c' w w' outcome ran =
      subst (λ p. Spent out src stage pst (least_of out src stage pst p.0) 20 w p.2) ran
        (stage_spends out src stage pst now c w)

  abbrev pub Booked : StageOutcome → StageWorld T → List Metric → Type 0
  Booked outcome w metrics =
      (rows : List Metric) × (metrics ≡ rows ++ w.gateway.metrics)
      × (is_done outcome ≤ length rows)
      × (length rows ≤ 20)
      × All (IsOf pst.run_id stage) rows

  outcome_rows :
      (o : Outside) (st : NodeState) (result : StageResult) (now : ℕ) (c c' : Entries)
      (w w' : StageWorld T) (outcome : StageOutcome)
      → st.run_id ≡ pst.run_id
      → run_agent (platform_of out) now src stage pst c w ≡ (ok outcome, c', w')
      → Booked outcome w (
          if is_hit outcome
          then hit_row o st stage result ∷ w'.gateway.metrics
          else w'.gateway.metrics)
  outcome_rows o st result now c c' w w' (Stage.completed artifact true) same ran =
      let unchanged = ap (λ v. v.gateway.metrics) (hit_same now c c' w w' artifact ran) in
      (
        hit_row o st stage result ∷ [],
        ap (◌∷◌ (hit_row o st stage result)) unchanged,
        omega arith,
        omega arith,
        ((same, refl), tt),
      )
  outcome_rows o st result now c c' w w' (Stage.completed artifact false) same ran =
      let (rows, grown, low, high, own, _) =
        agent_rows now c c' w w' (Stage.completed artifact false) ran in
      (
        rows,
        grown,
        low,
        high,
        All-weaken (IsOwn out src stage pst) (IsOf pst.run_id stage) rows (λ m h. (h.0, h.1)) own,
      )
  outcome_rows o st result now c c' w w' (Stage.failed x) same ran =
      let (rows, grown, low, high, own, _) = agent_rows now c c' w w' (Stage.failed x) ran in
      (
        rows,
        grown,
        low,
        high,
        All-weaken (IsOwn out src stage pst) (IsOf pst.run_id stage) rows (λ m h. (h.0, h.1)) own,
      )

  -- The execution of a stage, from the agent's first call to the end of its node, for a run of
  -- orch_runs: orch_metrics has at most twenty new rows, all of this run and stage, and at least one if
  -- the stage completes, be it by the model or by the response cache; the other rows stay.
  pub stage_node-Booked :
      (o : Outside) (describe : StageError → String) (version : String) (now started finished : ℕ)
      (before after : ToolCache) (st : NodeState) (c c' : Entries) (w w' : StageWorld T)
      (outcome : StageOutcome) (db : Database)
      → st.run_id ≡ pst.run_id
      → IsKnown st.run_id db
      → run_agent (platform_of out) now src stage pst c w ≡ (ok outcome, c', w')
      → db.metrics ≡ w'.gateway.metrics
      → let produced =
          produced_of describe stage version out.model started finished before after outcome in
        Booked outcome w (stage_node o stage st produced db).1.metrics
  stage_node-Booked o describe version now started finished before after st c c' w w' outcome db
        same known ran books =
      let produced =
        produced_of describe stage version out.model started finished before after outcome in
      let (artifacts, db', node_ran, _, _, added, _) =
        stage_node_records o stage st produced db known in
      let whole : (stage_node o stage st produced db).1.metrics ≡ (
          if is_hit outcome
          then hit_row o st stage produced.result ∷ w'.gateway.metrics
          else w'.gateway.metrics) =
        ap (λ p. p.1.metrics) node_ran
        ∙ (added
            ∙ ap (λ ms. if is_hit outcome then hit_row o st stage produced.result ∷ ms else ms)
                books) in
      subst (Booked outcome w) (sym whole)
        (outcome_rows o st produced.result now c c' w w' outcome same ran)
