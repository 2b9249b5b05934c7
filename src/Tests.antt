-- ===== src/Tests.antt =====
-- Runs of the model on concrete data.
mod Sample
mod Years
mod Persist
mod Ingest
mod History
mod Cycles
mod Configs
