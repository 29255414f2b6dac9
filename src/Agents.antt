-- ===== src/Agents.antt =====
-- Hosted agents: the rule on autonomous spending (packages/shared/src/index.ts) and the runner of one
-- wallet's agent (services/gateway/src/agents/runner.ts).
pub mod Spend
pub mod Runner
pub mod Gating
mod Tests
