-- ===== src/Ieo/Tests.antt =====
-- The theorems on the package ieo at concrete inputs.
mod Files
mod Fetches
