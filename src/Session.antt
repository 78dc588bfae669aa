-- ===== src/Session.antt =====
-- The package session: wizard sessions, async operation handles and the signed request state.
pub mod Async
pub mod Store
pub mod Advance
pub mod RequestState
mod Tests
