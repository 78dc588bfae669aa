-- ===== src/Sdk.antt =====
-- The package sdk: what of a request reaches profiles and development tools, and the app resources.
pub mod Redaction
pub mod Claims
pub mod AppRegistry
pub mod AppTools
mod Tests
