-- ===== src/History.antt =====
-- The history of ingestion runs: persistence/ingestion_run_history.py, its mapping from runs, its
-- PostgreSQL repository and its reader.
pub mod Metadata
pub mod Records
pub mod Validate
pub mod Sanitize
pub mod Parameters
pub mod Repository
