-- ===== src/Persistence/Repository.antt =====
-- `PostgreSQLSourceFamilyRuntimeRepository`, over a database session that is given.
pub mod Database
pub mod Inserts
pub mod Transaction
pub mod Summary
use carbon_ops_parser.Prelude.{
  ℕ, ◌+◌, ◌-◌, String, Bool, true, false, Option, none, some, List, [], ◌∷◌, length, any_of, ◌==◌,
  if◌then◌else◌,
}
use carbon_ops_parser.Exec.{Exec, PyException, pure, lift, ◌>>=◌, ◌>>◌, try_except}
use carbon_ops_parser.Issue.{Issue, error_issue}
use carbon_ops_parser.Row.{OutputBatch}
use carbon_ops_parser.YearState.{commit_if}
use carbon_ops_parser.Year.Types.{RepositoryInsertResult}
use carbon_ops_parser.Persistence.Records.{
  PersistStatus, SourceFamilyMasterRecord, SourceFamilyDetailRecord, PersistResult,
  SourceFamilyRepository,
}
use carbon_ops_parser.Persistence.Validate.{validate_source_family_repository_inputs}
use carbon_ops_parser.Persistence.Encode.{Encoding}
use carbon_ops_parser.Persistence.MapRow.{Options}
use carbon_ops_parser.Persistence.Writer.{WriterStatus, WriterResult, persist_parsed_factor_records}
use carbon_ops_parser.Persistence.Statements.{
  ParameterEncoding, Statement, insert_master, insert_detail, master_parameters, detail_parameters,
  ensure_ingestion_run, ensure_source_document,
}

-- A connection: a statement alone, a statement with a fetch of one row (whether there is one), and
-- the two ends of a transaction, which a connection may lack.
pub record Session (C : Type 0) : Type 0 where
  pub execute : Statement → Exec C (Unit {0})
  pub execute_fetchone : Statement → Exec C Bool
  pub commit : Option (Exec C (Unit {0}))
  pub rollback : Option (Exec C (Unit {0}))

-- `PostgreSQLSourceSpecificFactorInsertStatus`
pub data InsertStatus : Type 0 where
  inserted failed_validation failed_database no_records : InsertStatus

-- `PostgreSQLSourceSpecificFactorInsertSummary`
pub record FactorInsertSummary : Type 0 where
  pub status : InsertStatus
  pub attempted : ℕ
  pub inserted : ℕ
  pub skipped_duplicate : ℕ
  pub failed : ℕ
  pub validation_error_count : ℕ
  pub master_inserted : ℕ
  pub master_skipped : ℕ
  pub detail_inserted : ℕ
  pub detail_skipped : ℕ
  pub issues : List Issue

abbrev pub provider_name : String
provider_name = "postgresql"

abbrev count_row : ℕ → Bool → ℕ
count_row n row = if row then n + 1 else n

abbrev pub database_error : String → Issue
database_error message = error_issue "POSTGRESQL_SOURCE_FAMILY_DATABASE_ERROR" message "database"

abbrev pub refused_result : PersistStatus → ℕ → List Issue → PersistResult
refused_result status failures issues = record {
  provider_name = provider_name;
  status = status;
  persisted_master_count = 0;
  persisted_detail_count = 0;
  skipped_master_count = 0;
  skipped_detail_count = 0;
  validation_failure_count = failures;
  issues = issues;
}

abbrev pub declared_result : ℕ → ℕ → ℕ → ℕ → PersistResult
declared_result masters details inserted_masters inserted_details = record {
  provider_name = provider_name;
  status = PersistStatus.declared;
  persisted_master_count = inserted_masters;
  persisted_detail_count = inserted_details;
  skipped_master_count = masters - inserted_masters;
  skipped_detail_count = details - inserted_details;
  validation_failure_count = 0;
  issues = [];
}

module _ {C O : Type 0} (session : Session C) (encoding : ParameterEncoding O) where
  unfoldable pub write_master : SourceFamilyMasterRecord O → Exec C Bool
  unfolding ensure_ingestion_run ensure_source_document master_parameters
  write_master m = do
    session.execute (ensure_ingestion_run encoding m)
    session.execute (ensure_source_document encoding m)
    parameters ← lift (master_parameters encoding m)
    session.execute_fetchone (insert_master m.source_family parameters)

  -- The loop over the master records, which counts the inserted ones.
  unfoldable pub write_masters : ℕ → List (SourceFamilyMasterRecord O) → Exec C ℕ
  unfolding write_master
  write_masters n [] = pure n
  write_masters n (m ∷ ms) = do row ← write_master m; write_masters (count_row n row) ms

  unfoldable pub write_detail : SourceFamilyDetailRecord O → Exec C Bool
  unfolding detail_parameters
  write_detail d = do
    parameters ← lift (detail_parameters encoding d)
    session.execute_fetchone (insert_detail d.source_family parameters)

  -- The loop over the detail records.
  unfoldable pub write_details : ℕ → List (SourceFamilyDetailRecord O) → Exec C ℕ
  unfolding write_detail
  write_details n [] = pure n
  write_details n (d ∷ ds) = do row ← write_detail d; write_details (count_row n row) ds

  -- The block that `persist_source_family_records` guards by `try`.
  unfoldable pub write_records :
      List (SourceFamilyMasterRecord O) → List (SourceFamilyDetailRecord O) → Exec C (ℕ × ℕ)
  unfolding write_masters write_details
  write_records masters details = do
    inserted_masters ← write_masters 0 masters
    inserted_details ← write_details 0 details
    commit_if session.commit
    pure (inserted_masters, inserted_details)

module _ {C O : Type 0} (session : Session C) (encoding : ParameterEncoding O)
    (redact_sensitive_text : String → String) where
  -- The handler of the block.
  unfoldable pub roll_back : PyException → Exec C PersistResult
  roll_back e = do
    commit_if session.rollback
    pure (
        refused_result PersistStatus.failed_database 0
          (database_error (redact_sensitive_text e.text) ∷ []))

  unfoldable pub persist_at :
      List Issue
      → List (SourceFamilyMasterRecord O)
      → List (SourceFamilyDetailRecord O)
      → Exec C PersistResult
  unfolding write_records roll_back
  persist_at [] masters details =
      try_except (write_records session encoding masters details) roll_back (λ (counts : ℕ × ℕ).
        pure (declared_result (length masters) (length details) counts.0 counts.1))
  persist_at (issue ∷ issues) masters details =
      pure
        (refused_result PersistStatus.failed_validation (length (issue ∷ issues)) (issue ∷ issues))

  -- `persist_source_family_records`
  unfoldable pub persist_source_family_records :
      List (SourceFamilyMasterRecord O) → List (SourceFamilyDetailRecord O) → Exec C PersistResult
  unfolding persist_at validate_source_family_repository_inputs ◌>>=◌ try_except
  persist_source_family_records masters details =
      persist_at (validate_source_family_repository_inputs provider_name masters details) masters
        details

  abbrev pub repository : SourceFamilyRepository C O
  repository = record {
    provider_name = provider_name;
    persist_source_family_records = persist_source_family_records;
  }

abbrev status_unless_database : WriterStatus → InsertStatus
status_unless_database WriterStatus.declared = InsertStatus.inserted
status_unless_database WriterStatus.failed_validation = InsertStatus.failed_validation
status_unless_database WriterStatus.no_records = InsertStatus.no_records

abbrev pub is_database_error : Issue → Bool
is_database_error issue = issue.code == "POSTGRESQL_SOURCE_FAMILY_DATABASE_ERROR"

abbrev pub insert_status : WriterStatus → List Issue → InsertStatus
insert_status WriterStatus.no_records issues = InsertStatus.no_records
insert_status status issues =
    if any_of is_database_error issues
    then InsertStatus.failed_database
    else status_unless_database status

-- `status.name.startswith("FAILED")`
abbrev pub is_failed_status : InsertStatus → Bool
is_failed_status InsertStatus.inserted = false
is_failed_status InsertStatus.failed_validation = true
is_failed_status InsertStatus.failed_database = true
is_failed_status InsertStatus.no_records = false

-- `status.value`
abbrev pub status_value : InsertStatus → String
status_value InsertStatus.inserted = "inserted"
status_value InsertStatus.failed_validation = "failed_validation"
status_value InsertStatus.failed_database = "failed_database"
status_value InsertStatus.no_records = "no_records"

unfoldable pub factor_insert_summary : {O : Type 0} → WriterResult O → FactorInsertSummary
factor_insert_summary r =
    let status = insert_status r.status r.issues in
    record {
      status = status;
      attempted = r.attempted_detail_count;
      inserted = r.persisted_detail_count;
      skipped_duplicate = r.skipped_detail_count;
      failed = if is_failed_status status then r.attempted_detail_count else 0;
      validation_error_count = r.validation_failure_count;
      master_inserted = r.persisted_master_count;
      master_skipped = r.skipped_master_count;
      detail_inserted = r.persisted_detail_count;
      detail_skipped = r.skipped_detail_count;
      issues = r.issues;
    }

-- The defaults of `persist_parsed_factor_records`.
abbrev pub default_options : Options
default_options = record {
  source_document_id = none;
  lifecycle_status = "active";
  timestamp_label = "dry_run_timestamp_unavailable";
}

-- `insert_normalized_factor_records`
module _ {C O : Type 0} (session : Session C) (encoding : Encoding O)
    (parameters : ParameterEncoding O) (redact_sensitive_text : String → String) where
  unfoldable pub insert_normalized_factor_records : OutputBatch O → Exec C FactorInsertSummary
  unfolding persist_parsed_factor_records factor_insert_summary persist_source_family_records ◌>>=◌
  insert_normalized_factor_records batch = do
    result ←
        persist_parsed_factor_records (repository session parameters redact_sensitive_text) encoding
          default_options batch
    pure (factor_insert_summary result)

-- What the orchestrator reads of the summary.
abbrev pub as_insert_result : FactorInsertSummary → RepositoryInsertResult
as_insert_result s = record {
  status = status_value s.status;
  attempted = s.attempted;
  inserted = s.inserted;
  skipped_duplicate = some s.skipped_duplicate;
  failed = some s.failed;
  validation_error_count = some s.validation_error_count;
  master_inserted = some s.master_inserted;
  master_skipped = some s.master_skipped;
  detail_inserted = some s.detail_inserted;
  detail_skipped = some s.detail_skipped;
}
