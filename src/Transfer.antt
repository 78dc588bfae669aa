-- ===== src/Transfer.antt =====
-- The package transfer: async uploads, their one-time endpoints, and downloads.
pub mod Tasks
pub mod Endpoint
pub mod Sources
pub mod Names
pub mod Writers
pub mod Download
mod Tests
