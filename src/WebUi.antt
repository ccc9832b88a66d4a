-- ===== src/WebUi.antt =====
-- internal/webui: the administrators' dashboard.
pub mod Throttle
pub mod Session
pub mod Login
pub mod Decisions
pub mod ConfigOps
