-- ===== src/Agents.antt =====
-- What the stages of a run use: the tools with their cache, the cache of responses, and the loop that
-- calls the language model.
pub mod Tools
pub mod Search
pub mod Github
pub mod Testing
pub mod Cache
pub mod Stage
