-- ===== src/Sdk/Tests.antt =====
-- The theorems on the package sdk at concrete inputs.
mod Requests
