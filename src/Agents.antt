-- ===== src/Agents.antt =====
-- packages/agents: what the agents share.
pub mod Extract
pub mod Structured
