-- ===== src/Governance.antt =====
-- Permissions, the four-eyes rule and the audit log (orchestrator/governance/).
pub mod Checkpoint
pub mod Audit
