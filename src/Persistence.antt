-- ===== src/Persistence.antt =====
-- persistence/source_family_repository.py, persistence/parsed_factor_persistence_writer.py and
-- persistence/postgresql_source_family_repository.py: master and detail records, made from a
-- parsed batch and written in one transaction.
pub mod Records
pub mod Validate
pub mod Encode
pub mod Map
pub mod MapRow
pub mod Build
pub mod Writer
pub mod Statements
pub mod Repository
pub mod Ingest
