-- ===== src/Year.antt =====
-- pipeline/production_e2e_year_orchestrator.py: one run over the enabled source families, each for
-- the year after its latest ingested one.
pub mod Types
pub mod Select
pub mod Batch
pub mod Boundary
pub mod Family
pub mod Run
pub mod Ledger
mod Advance
pub mod Progress
pub mod Outcome
mod Named
mod Stages
pub mod Counts
pub mod Summary
pub mod Insertion
