-- ===== src/Tests.antt =====
-- The definitions run on small inputs, and each theorem of the header's list applied to some.
pub mod Links
pub mod Visits
pub mod Keys
pub mod Calls
pub mod Access
pub mod Approvals
pub mod Reports
pub mod Spending
pub mod Stages
pub mod Memories
pub mod Evaluations
pub mod Totals
pub mod Nodes
pub mod Plans
pub mod Pipelines
pub mod Prompts
pub mod Pushes
