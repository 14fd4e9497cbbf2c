-- ===== src/Scenarios.antt =====
-- The pipelines that the orchestrator runs.
pub mod Graph
pub mod Nodes
pub mod Pipeline
