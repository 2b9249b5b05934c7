-- ===== src/Cycle/Config.antt =====
-- pipeline/configured_cycle_config.py: the values that a configuration's payload gives.
pub mod Json
pub mod Families
pub mod LiveSettings
pub mod LiveAccess
pub mod SourceYears
pub mod Artifacts
pub mod Runtime
pub mod Ready
pub mod Settings
pub mod Archive
pub mod Directory
pub mod Load
