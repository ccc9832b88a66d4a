-- ===== src/Agent.antt =====
-- cmd/agent/main.go: the executor of a decision and the poll loop.
pub mod Memory
pub mod Escalation
pub mod Execute
pub mod Signals
pub mod Poll
