-- ===== src/Transfer/Tests.antt =====
-- The theorems on the package transfer at concrete inputs.
mod Uploads
mod Sources
mod Endpoints
mod Downloads
