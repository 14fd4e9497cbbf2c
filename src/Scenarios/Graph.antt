-- ===== src/Scenarios/Graph.antt =====
-- orchestrator/scenarios/greenfield.py, whose graph brownfield.py and ambiguous.py inherit. A node is
-- its name; how LangGraph runs the graph is `Ready`: a node becomes ready through an edge all of whose
-- sources are done.
pub mod Gates
pub mod Progress
use url_copilot.Prelude.{All, Bool, In, List, String, [], false, true, ◌∷◌, ◌≡◌}

-- START and END of langgraph.graph
abbrev pub graph_start : String
graph_start = "__start__"

abbrev pub graph_end : String
graph_end = "__end__"

pub record Edge : Type 0 where
  pub sources : List String
  pub target : String

abbrev pub edge : String → String → Edge
edge s t = record { sources = s ∷ []; target = t }

-- `node_names`
abbrev pub node_names : List String
node_names =
    "requirements_analysis" ∷ "architecture_design" ∷ "architecture_gate" ∷ "implementation_plan"
    ∷ "test_plan" ∷ "implementation" ∷ "schema_gate" ∷ "unit_tests" ∷ "integration_tests"
    ∷ "tests_gate" ∷ "documentation" ∷ "pr_gate" ∷ "release_readiness" ∷ "release_gate" ∷ []

-- the conditional edges after the implementation, for `schema_change_detected`
abbrev pub after_implementation : Bool → List Edge
after_implementation true = edge "implementation" "schema_gate" ∷ []
after_implementation false =
    edge "implementation" "unit_tests" ∷ edge "implementation" "integration_tests" ∷ []

-- `build_graph`
abbrev pub edges : Bool → List Edge
edges schema_change =
    edge graph_start "requirements_analysis"
    ∷ edge "requirements_analysis" "architecture_design"
    ∷ edge "architecture_design" "architecture_gate"
    ∷ edge "architecture_gate" "implementation_plan"
    ∷ edge "architecture_gate" "test_plan"
    ∷ record { sources = "implementation_plan" ∷ "test_plan" ∷ []; target = "implementation" }
    ∷ edge "schema_gate" "unit_tests"
    ∷ edge "schema_gate" "integration_tests"
    ∷ record { sources = "unit_tests" ∷ "integration_tests" ∷ []; target = "tests_gate" }
    ∷ edge "tests_gate" "documentation"
    ∷ edge "documentation" "pr_gate"
    ∷ edge "pr_gate" "release_readiness"
    ∷ edge "release_readiness" "release_gate"
    ∷ edge "release_gate" graph_end
    ∷ after_implementation schema_change

abbrev pub Ready : Bool → List String → String → Type 0
Ready schema_change done node =
    (e : Edge) × In e (edges schema_change) × (e.target ≡ node) × All (λ s. In s done) e.sources

-- The nodes done so far, the last first, in an execution of the graph.
pub data Execution (schema_change : Bool) : List String → Type 0 where
  begun : Execution schema_change (graph_start ∷ [])
  next :
      {done : List String} {node : String}
      → Execution schema_change done
      → Ready schema_change done node
      → Execution schema_change (node ∷ done)
