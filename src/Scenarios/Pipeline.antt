-- ===== src/Scenarios/Pipeline.antt =====
-- The state of a pipeline, as the nodes of the graph change it: `_build_nodes` of orchestrator/run.py
-- gives the graph its nodes, and LangGraph merges what they return into stage_artifacts by the reducer
-- `operator.or_` of orchestrator/core/state.py. The nodes of one superstep read the same state.
pub mod Updates
pub mod Artifacts
use url_copilot.Prelude.{
  Bool, Dict, List, Option, String, [], codes, contains, if◌then◌else◌, insert, lookup, nat_eq,
  none, ok, some, starts_with, string_eq, true, ℕ, ◌&&◌, ◌||◌, ◌∷◌, ◌≡◌,
}
use url_copilot.Prelude.Json.{Fields}
use url_copilot.Runs.Gates.{gate_permissions}
use url_copilot.Scenarios.Graph.{Ready, graph_start, node_names}
use url_copilot.Scenarios.Nodes.{Database, NodeState, Outside, Produced}
use url_copilot.Scenarios.Nodes.Execute.{stage_node}
use url_copilot.Scenarios.Nodes.Pause.{Answer, gate_node, returned}

-- `t.endswith(s)`
abbrev pub ends_with : List ℕ → List ℕ → Bool
ends_with s [] = starts_with s []
ends_with s (c ∷ t) = starts_with s (c ∷ t) && starts_with (c ∷ t) s || ends_with s t

pub data NodeKind : Type 0 where
  stage : NodeKind
  gate : String → NodeKind

-- `_build_nodes`: a gate without a permission raises KeyError
abbrev pub kind_of : String → Option NodeKind
kind_of name =
    if ends_with (codes "_gate") (codes name)
    then elim (lookup name gate_permissions) [
      | none ↦ none
      | some permission ↦ some (gate permission)
    ]
    else some stage

-- `operator.or_` on dictionaries
abbrev pub merge : Dict String Fields → Dict String Fields → Dict String Fields
merge d [] = d
merge d ((k, v) ∷ e) = merge (insert k v d) e

-- What a node of the graph returns for the state that it reads: a stage's node, or that of a gate after
-- its resumption.
pub data Returns (node : String) (seen : Dict String Fields) : Dict String Fields → Type 0 where
  by_stage :
      (o : Outside) (st : NodeState) (produced : Produced) (db db' : Database)
      {artifacts : Dict String Fields}
      → kind_of node ≡ some stage
      → st.stage_artifacts ≡ seen
      → stage_node o node st produced db ≡ (ok artifacts, db')
      → Returns node seen artifacts
  by_gate :
      (o : Outside) (permission : String) (st : NodeState) (answer : Answer) (db db' : Database)
      {artifacts : Dict String Fields}
      → kind_of node ≡ some (gate permission)
      → st.stage_artifacts ≡ seen
      → gate_node o node permission st (some answer) db ≡ (ok (returned artifacts), db')
      → Returns node seen artifacts

-- The nodes done before the superstep and so far, and stage_artifacts before it and now.
pub data Pipeline (schema_change : Bool)
    : List String → List String → Dict String Fields → Dict String Fields → Type 0 where
  planned : Pipeline schema_change (graph_start ∷ []) (graph_start ∷ []) [] []
  superstep :
      {before done : List String} {seen artifacts : Dict String Fields}
      → Pipeline schema_change before done seen artifacts
      → Pipeline schema_change done done artifacts artifacts
  node_done :
      {before done : List String} {seen artifacts update : Dict String Fields} {node : String}
      → Pipeline schema_change before done seen artifacts
      → contains node node_names ≡ true
      → Ready schema_change before node
      → Returns node seen update
      → Pipeline schema_change before (node ∷ done) seen (merge artifacts update)
