-- ===== src/Handoff.antt =====
-- The package handoff: one-time hand-off links, the registry of resume continuations and the resume
-- tool.
pub mod Endpoint
pub mod Registry
mod Tests
