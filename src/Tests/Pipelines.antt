-- ===== src/Tests/Pipelines.antt =====
-- A run of the pipeline through its first stage.
use url_copilot.Prelude.{Dict, String, [], false, inl, inr, map, ok, refl, ◌∷◌, ◌≡◌}
use url_copilot.Prelude.Json.{Fields, Value}
use url_copilot.Runs.Store.{save_stage_result}
use url_copilot.Scenarios.Graph.{graph_start}
use url_copilot.Scenarios.Nodes.{Database}
use url_copilot.Scenarios.Nodes.Execute.{stage_node}
use url_copilot.Scenarios.Pipeline.{Pipeline, by_stage, node_done, planned, superstep}
use url_copilot.Scenarios.Pipeline.Artifacts.{prompts_see_prior}
use url_copilot.Prompts.Builder.{listed, prior_stages, relevant}
use url_copilot.Tests.Nodes.{empty_db, outside, produced, state}

abbrev analysed : Dict String Fields
analysed =
    (
      "requirements_analysis",
      ("branch_name", Value.text "feature/qr") ∷ ("pr_url", Value.null) ∷ [],
    )
    ∷ []

abbrev analysed_db : Database
analysed_db = (stage_node outside "requirements_analysis" state produced empty_db).1

analyses :
    stage_node outside "requirements_analysis" state produced empty_db ≡ (ok analysed, analysed_db)
unfolding stage_node save_stage_result
analyses = refl

after_analysis :
    Pipeline false
      ("requirements_analysis" ∷ graph_start ∷ [])
      ("requirements_analysis" ∷ graph_start ∷ [])
      analysed
      analysed
after_analysis = superstep (
    node_done planned refl (_, inl refl, refl, (inl refl, tt))
      (by_stage outside state produced empty_db analysed_db refl refl analyses))

prompts_see_prior_example :
    map (λ a. a.0) (relevant (listed prior_stages "architecture_design") analysed)
    ≡ listed prior_stages "architecture_design"
prompts_see_prior_example =
    prompts_see_prior false ("requirements_analysis" ∷ graph_start ∷ [])
      ("requirements_analysis" ∷ graph_start ∷ []) analysed analysed after_analysis
      "architecture_design" (_, inr (inl refl), refl, (inl refl, tt))
