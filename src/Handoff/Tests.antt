-- ===== src/Handoff/Tests.antt =====
-- The theorems on the package handoff at concrete inputs.
mod Links
mod Resumes
