-- ===== src/Persistence/Writer.antt =====
-- `persist_parsed_factor_records`.
use carbon_ops_parser.Prelude.{ℕ, String, List, [], ◌∷◌, length, Bool, false, ◌==◌}
use carbon_ops_parser.Exec.{Exec, pure, lift, ◌>>=◌}
use carbon_ops_parser.Issue.{Issue}
use carbon_ops_parser.Row.{OutputBatch}
use carbon_ops_parser.Persistence.Records.{PersistStatus, PersistResult, SourceFamilyRepository}
use carbon_ops_parser.Persistence.Encode.{Encoding}
use carbon_ops_parser.Persistence.MapRow.{Options}
use carbon_ops_parser.Persistence.Build.{Command, build_parsed_factor_persistence_command}

-- `ParsedFactorPersistenceStatus`
pub data WriterStatus : Type 0 where
  declared failed_validation no_records : WriterStatus

-- `ParsedFactorPersistenceWriterResult`
pub record WriterResult (O : Type 0) : Type 0 where
  pub provider_name : String
  pub status : WriterStatus
  pub attempted_master_count : ℕ
  pub attempted_detail_count : ℕ
  pub persisted_master_count : ℕ
  pub persisted_detail_count : ℕ
  pub skipped_duplicate_count : ℕ
  pub skipped_master_count : ℕ
  pub skipped_detail_count : ℕ
  pub validation_failure_count : ℕ
  pub issues : List Issue
  pub command : Command O

-- `_only_no_records`
abbrev pub only_no_records : List Issue → Bool
only_no_records (issue ∷ []) = issue.code == "PARSED_FACTOR_PERSISTENCE_NO_RECORDS"
only_no_records _ = false

abbrev status_of_issues : Bool → WriterStatus
status_of_issues Bool.true = WriterStatus.no_records
status_of_issues Bool.false = WriterStatus.failed_validation

abbrev pub status_of_persist : PersistStatus → WriterStatus
status_of_persist PersistStatus.declared = WriterStatus.declared
status_of_persist PersistStatus.failed_validation = WriterStatus.failed_validation
status_of_persist PersistStatus.failed_database = WriterStatus.failed_validation

module _ {O : Type 0} where
  abbrev refused : String → Command O → WriterResult O
  refused provider_name command = record {
    provider_name = provider_name;
    status = status_of_issues (only_no_records command.issues);
    attempted_master_count = length command.master_records;
    attempted_detail_count = length command.detail_records;
    persisted_master_count = 0;
    persisted_detail_count = 0;
    skipped_duplicate_count = command.skipped_duplicate_count;
    skipped_master_count = 0;
    skipped_detail_count = 0;
    validation_failure_count = length command.issues;
    issues = command.issues;
    command = command;
  }

  abbrev pub submitted : Command O → PersistResult → WriterResult O
  submitted command result = record {
    provider_name = result.provider_name;
    status = status_of_persist result.status;
    attempted_master_count = length command.master_records;
    attempted_detail_count = length command.detail_records;
    persisted_master_count = result.persisted_master_count;
    persisted_detail_count = result.persisted_detail_count;
    skipped_duplicate_count = command.skipped_duplicate_count;
    skipped_master_count = result.skipped_master_count;
    skipped_detail_count = result.skipped_detail_count;
    validation_failure_count = result.validation_failure_count;
    issues = result.issues;
    command = command;
  }

module _ {W O : Type 0} (repository : SourceFamilyRepository W O) where
  -- A command with issues is refused, any other one is submitted.
  unfoldable pub submit_at : Command O → List Issue → Exec W (WriterResult O)
  unfolding ◌>>=◌
  submit_at command [] = do
    result ← repository.persist_source_family_records command.master_records command.detail_records
    pure (submitted command result)
  submit_at command (issue ∷ issues) = pure (refused repository.provider_name command)

  unfoldable pub submit : Command O → Exec W (WriterResult O)
  unfolding submit_at
  submit command = submit_at command command.issues

  -- `persist_parsed_factor_records`
  unfoldable pub persist_parsed_factor_records :
      Encoding O → Options → OutputBatch O → Exec W (WriterResult O)
  unfolding submit build_parsed_factor_persistence_command
  persist_parsed_factor_records encoding options batch = do
    command ← lift (build_parsed_factor_persistence_command encoding options batch)
    submit command
