-- ===== src/Gateway.antt =====
-- The AI gateway (orchestrator/gateway/): every LLM call passes through `AIGateway.call`.
pub mod Models
pub mod Auth
pub mod RateLimiter
pub mod Scans
pub mod Ledger
pub mod Call
