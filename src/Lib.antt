-- ===== src/Lib.antt =====
-- CarbonOps-Parser ingests published emission factors, year by year, for three source families, and
-- stores them in PostgreSQL. Paths below are from the repository's root; the Python package is
-- src/carbonfactor_parser.
--
-- The parts and how they interact. pipeline/production_e2e_year_orchestrator.py runs the enabled
-- families: for each it reads the latest ingested year, selects the next one, discovers, downloads,
-- parses, validates and inserts that year's factors, and records the year when the insert succeeded.
-- persistence/postgresql_year_state_repository.py keeps the ingested years. The insert is
-- persistence/postgresql_source_family_repository.py, which has
-- persistence/parsed_factor_persistence_writer.py map the batch's rows to master and detail records,
-- validates those by persistence/source_family_repository.py and writes them in
-- one transaction. The rows are those of parsers/normalized_output_row_contract.py.
-- pipeline/configured_cycle_runner.py runs the orchestrator in cycles, up to a limit if there is one:
-- pipeline/configured_cycle_config.py gives it its values, persistence/ingestion_run_history_mapping.py
-- makes a history command of each cycle's result, pipeline/configured_cycle_history.py has
-- persistence/postgresql_ingestion_run_history_repository.py persist it after the validation and the
-- redaction of persistence/ingestion_run_history.py, and pipeline/configured_cycle_summary.py emits
-- lines about the cycle. diagnostics/ingestion_runtime_events.py lists a run's issues for both.
--
-- Files and what they model:
--   Year          production_e2e_year_orchestrator.py: Year/Types its classes, Year/Select
--                 `_normalize_source_families` and `_select_year_state`, Year/Batch
--                 `_batch_with_run_id`, Year/Boundary the injected dependencies, Year/Family
--                 `_run_source_family` (a function for each stage), Year/Run
--                 `run_production_e2e_year_orchestrator` and `_summarize`. Year/Ledger is the
--                 interface of a ledger of years; Year/Advance, Progress, Outcome, Stages,
--                 Named, Counts, Summary and Insertion are about what a run does and returns.
--   YearState     postgresql_year_state_repository.py; YearState/Database has the laws of its
--                 connection, YearState/Latest, Targets and Fills are about its reads and writes,
--                 YearState/Durable about what it commits.
--   Persistence   Records and Validate: source_family_repository.py; Encode, Map, MapRow, Build and
--                 Writer: parsed_factor_persistence_writer.py; Statements:
--                 postgresql_source_family_ids.py, _parameters.py and _upserts.py; Repository:
--                 postgresql_source_family_repository.py (Database has the laws of its
--                 session, Inserts, Transaction and Summary what it writes); Ingest: it as the
--                 orchestrator's insert boundary.
--   Catalog       the families of persistence/postgresql_schema_catalog.py.
--   History       Metadata, Records, Validate and Sanitize: ingestion_run_history.py; Parameters and
--                 Repository: postgresql_ingestion_run_history_repository.py
--                 (Repository/Database has the laws of its connection, Written what its statements
--                 do, Persisted and Retry what a call does). Metadata/Redacted is about the redaction,
--                 Validate/Checks and Accepted about the validation.
--   Cycle         Command: ingestion_run_history_mapping.py (Command/Reportable its results);
--                 Events: ingestion_runtime_events.py; History: configured_cycle_history.py;
--                 Summary: configured_cycle_summary.py; Runner: configured_cycle_runner.py and
--                 configured_cycle_models.py (Runner/Loop is about its rounds, Ended, Keeps and Years
--                 about a run). Config: configured_cycle_config.py (Json the payload and
--                 its readers, Families the enabled families, LiveSettings and LiveAccess the
--                 access to the sources, SourceYears and Artifacts the years' artifacts, Runtime and
--                 Ready persistence/postgresql_runtime_config.py, Settings how it is used, Archive
--                 and Directory the archive root, Load the configuration).
--   Row, Issue    parsers/normalized_output_row_contract.py and its validation.
--   Text, Value   the texts, the numbers in them (Text/Number, Text/Numeral)
--                 and the objects of the fields. Exec, Prelude: exceptions, lists, dictionaries.
--
-- State and errors. An effect is a function from a world to a result and a world; an exception is a
-- result, and the world it comes with holds what was done before it. The orchestrator's boundaries
-- and the database connections are parameters, with their documented behaviour as records of laws
-- (IsLedger, IsDatabase, IsDurable, IsTransactional, and those of
-- History/Repository/Database).
--
-- Bounds. Years, counts and row numbers that the callers give are natural numbers; a year that is
-- parsed from a field is an integer. Texts are unbounded. Printing a number takes fuel, one more than
-- the number, which is more than it has digits. The runner's loop takes a number of rounds: with a
-- limit of m cycles m rounds are enough, since each round is a cycle or raises, and without a limit no
-- number is. Every other recursion is structural.
--
-- Not modelled: the redaction of exception texts, SHA-256, JSON texts, floats and UUIDs (parameters of
-- the definitions that use them), SQL texts, raw record payloads as a second input of the writer,
-- characters outside ASCII in names and parsed numbers, exceptions outside `Exception`, the reader of
-- the history, the JSON payloads of summaries, reading a configuration's file, the start of the runtime
-- and its dependencies, and the other packages (source acquisition, parsers, normalization).
pub mod Prelude
pub mod Exec
pub mod Text
pub mod Value
pub mod Issue
pub mod Row
pub mod Catalog
pub mod YearState
pub mod Persistence
pub mod Year
pub mod History
pub mod Cycle
mod Tests
