-- ===== src/Ieo.antt =====
-- The package ieo: files that come from a URL, a data: URI or a directory.
pub mod Trees
pub mod Addresses
pub mod Hosts
pub mod Readers
pub mod DataUri
pub mod Relay
mod Tests
