-- ===== src/Cycle.antt =====
-- The configured cycle runner: pipeline/configured_cycle_runner.py and the modules it is put together
-- from, over the year orchestrator and the history of runs.
pub mod Events
pub mod Command
pub mod History
pub mod Runner
pub mod Summary
pub mod Config
