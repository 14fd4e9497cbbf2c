-- ===== src/Runs.antt =====
-- The business record of the orchestrator's runs and the commands of its CLI.
pub mod Store
pub mod Gates
