-- ===== src/Session/Tests.antt =====
-- The theorems on the package session at concrete inputs.
mod Handles
mod Wizards
mod Sealed
