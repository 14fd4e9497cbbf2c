-- ===== src/Prompts.antt =====
-- The prompts of the stages, orchestrator/prompt_builder: the choice of a prompt file, and the messages
-- that a stage sends.
pub mod Loader
pub mod Builder
pub mod Agent
pub mod Calls
pub mod Rows
pub mod Spend
pub mod Latest
pub mod Reuse
