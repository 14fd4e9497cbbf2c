-- ===== src/Lib.antt =====
-- url-copilot: a URL shortener (service/) and an orchestrator that develops it with language models
-- behind human approvals (orchestrator/).
--
-- The service keeps four tables. A client registers and gets an API key, which later requests carry;
-- the handlers authenticate it, limit its rate and create, list, change and delete the client's links.
-- A visitor of a short code is redirected, and the click is recorded. The orchestrator's CLI starts a
-- run: a planner classifies the requirement and asks the user where it is ambiguous, and the stages of a
-- graph call a language model through the gateway. The graph pauses at gates, which another user reviews
-- and approves or rejects. The nodes of the graph write the results of the stages, audit events and
-- metrics, which are summed up per stage and per run.
--
-- Files, with the code that each models:
--   Service/Db, Service/Urls     service/models/, service/services/url_service.py
--   Service/Alias                is_valid_custom_alias of service/core/url_generator.py
--   Service/Accounts             service/services/auth_service.py, service/core/security.py
--   Service/Analytics            service/services/analytics_service.py
--   Service/Redirect             service/api/v1/endpoints/redirect.py
--   Service/Limiter              service/core/rate_limiter.py
--   Service/Handlers             service/api/deps.py, service/api/v1/endpoints/urls.py
--   Gateway/Auth                 orchestrator/gateway/auth.py
--   Gateway/RateLimiter          orchestrator/gateway/rate_limiter.py
--   Gateway/Scans                orchestrator/gateway/input_validator.py, guardrails.py
--   Gateway/Ledger               orchestrator/gateway/token_budget.py, cost_tracker.py, tracer.py
--   Gateway/Call                 AIGateway.call of orchestrator/gateway/gateway.py
--   Governance/Checkpoint        orchestrator/governance/checkpoint.py
--   Governance/Audit             orchestrator/governance/audit.py
--   Metrics                      orchestrator/metrics/tracker.py
--   Runs/Store                   orchestrator/state/store.py, orchestrator/core/stage.py
--   Runs/Gates                   orchestrator/run.py
--   Planner                      orchestrator/planner/, the start of handle_run of orchestrator/run.py
--   Scenarios/Graph              orchestrator/scenarios/greenfield.py, brownfield.py, ambiguous.py
--   Scenarios/Nodes              orchestrator/scenarios/nodes.py, orchestrator/core/state.py
--   Scenarios/Pipeline           _build_nodes of orchestrator/run.py, and the state that the nodes share
--   Agents/Stage                 StageAgent.run of orchestrator/agents/stage_agent.py
--   Agents/Tools, Agents/Search  orchestrator/tools/registry.py, filesystem.py,
--                                orchestrator/cache/tool_cache.py
--   Agents/Cache                 orchestrator/cache/response_cache.py
--   Agents/Github                orchestrator/tools/github_client.py
--   Agents/Testing               orchestrator/tools/test_runner.py
--   Prompts                      orchestrator/prompt_builder/
--   Memory                       orchestrator/memory/store.py
--   Evaluator                    orchestrator/evaluator/
--   Tests                        runs on small inputs
-- The children of a module hold its lemmas; Prelude holds what all share.
--
-- Functions carry the names of the code. A handler takes the tables or the store and returns them
-- beside its result, since what is written before an exception stays written. Ids, instants and
-- amounts are natural numbers; statuses and names are strings, as in the database. Random draws,
-- clocks, SHA-256, urlparse, the user-agent parser, Redis, the OpenAI API and what LangGraph decides
-- are arguments; where a theorem needs a law of one of them, the law is a hypothesis.
--
-- Bounds: the expansion of permissions runs on fuel, the depth of calls that Python allows, which is
-- enough where it is above the length of the chain of parents. The retry loop of the gateway recurses on
-- the retries left, three at first, and the stage agent's on the iterations left, twenty at first. All
-- other loops recurse on lists.
--
-- Not modelled: logging, the schemas of the tools, QR codes, response schemas and migrations, which are
-- input and output, and the thin wrapper of LangGraph. What the nodes write to the run store is an
-- argument of the commands, and what StageAgent.run produces one of the nodes, which
-- Scenarios/Nodes/Outcome and Booked fill in.
-- A failure of a database statement is modelled where a constraint of a table decides it, and in the
-- redirect, which has to survive it.
pub mod Prelude
pub mod Service
pub mod Gateway
pub mod Governance
pub mod Runs
pub mod Scenarios
pub mod Tests
pub mod Agents
pub mod Memory
pub mod Evaluator
pub mod Metrics
pub mod Planner
pub mod Prompts
