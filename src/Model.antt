-- ===== src/Model.antt =====
-- The package model: the results of tools.
pub mod Results
