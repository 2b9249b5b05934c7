-- ===== src/History/Repository.antt =====
-- persistence/postgresql_ingestion_run_history_repository.py, over a connection that is given.
pub mod Database
pub mod Written
pub mod Persisted
pub mod Retry
use carbon_ops_parser.Prelude.{String, Option, List, [], ◌∷◌, length}
use carbon_ops_parser.Exec.{PyException, Exec, Result, pure, lift, ◌>>=◌, ◌>>◌, try_except}
use carbon_ops_parser.YearState.{commit_if}
use carbon_ops_parser.History.Metadata.{Object}
use carbon_ops_parser.History.Records.{
  HistoryStatus, HistoryIssue, SourceResultRecord, IssueRecord, HistoryCommand,
  HistoryPersistResult, HistoryRepository, history_issue,
}
use carbon_ops_parser.History.Validate.{Dumps, validate_ingestion_run_history_command}
use carbon_ops_parser.History.Sanitize.{sanitized_ingestion_run_history_command}
use carbon_ops_parser.History.Parameters.{
  run_parameters, source_result_parameters, issue_parameters,
}

-- The three statements: `_run_upsert_sql`, `_source_result_upsert_sql` and `_issue_insert_sql`.
pub data HistoryStatement : Type 0 where
  run_upsert source_result_upsert issue_insert : HistoryStatement

-- `execute` with its parameters, and the two ends of a transaction, which a connection may lack.
pub record HistoryConnection (C O : Type 0) : Type 0 where
  pub execute : HistoryStatement → List (Object O) → Exec C (Unit {0})
  pub commit : Option (Exec C (Unit {0}))
  pub rollback : Option (Exec C (Unit {0}))

abbrev pub history_failed : HistoryStatus → List HistoryIssue → HistoryPersistResult
history_failed status issues = record {
  provider_name = "postgresql";
  status = status;
  persisted_run_count = 0;
  persisted_source_result_count = 0;
  persisted_issue_count = 0;
  validation_failure_count = 0;
  issues = issues;
}

abbrev pub history_declared : {O : Type 0} → HistoryCommand O → HistoryPersistResult
history_declared command = record {
  provider_name = "postgresql";
  status = HistoryStatus.declared;
  persisted_run_count = 1;
  persisted_source_result_count = length command.source_results;
  persisted_issue_count = length command.issues;
  validation_failure_count = 0;
  issues = [];
}

abbrev pub history_database_error : String → HistoryIssue
history_database_error message =
    history_issue "POSTGRESQL_INGESTION_RUN_HISTORY_DATABASE_ERROR" message "database"

module _ {C O : Type 0} (connection : HistoryConnection C O) where
  -- The parameters are put together, and the statement runs with them.
  unfoldable pub execute_with : HistoryStatement → Result (List (Object O)) → Exec C (Unit {0})
  execute_with statement parameters = do ps ← lift parameters; connection.execute statement ps

module _ {C O : Type 0} (connection : HistoryConnection C O) (tools : Dumps O) where
  -- The handler of the block.
  unfoldable pub roll_back_history : PyException → Exec C HistoryPersistResult
  roll_back_history e = do
    commit_if connection.rollback
    pure (
        history_failed HistoryStatus.failed_database
          (history_database_error (tools.redact_sensitive_text e.text) ∷ []))

module _ {C O : Type 0} (connection : HistoryConnection C O) (tools : Dumps O)
    (uuid5 : String → String) where
  unfoldable pub write_source_results : List (SourceResultRecord O) → Exec C (Unit {0})
  unfolding execute_with source_result_parameters
  write_source_results [] = pure tt
  write_source_results (r ∷ rs) = do
    execute_with connection HistoryStatement.source_result_upsert
        (source_result_parameters tools uuid5 r)
    write_source_results rs

  unfoldable pub write_issues : List (IssueRecord O) → Exec C (Unit {0})
  unfolding execute_with issue_parameters
  write_issues [] = pure tt
  write_issues (i ∷ is) = do
    execute_with connection HistoryStatement.issue_insert (issue_parameters tools uuid5 i)
    write_issues is

  -- The block that is guarded by `try`.
  unfoldable pub write_history : HistoryCommand O → Exec C (Unit {0})
  unfolding run_parameters write_source_results write_issues
  write_history command = do
    execute_with connection HistoryStatement.run_upsert (run_parameters tools command.run)
    write_source_results command.source_results
    write_issues command.issues
    commit_if connection.commit

  unfoldable pub persist_history_at :
      List HistoryIssue → HistoryCommand O → Exec C HistoryPersistResult
  unfolding write_history roll_back_history
  persist_history_at [] command =
      let sanitized = sanitized_ingestion_run_history_command tools command in
      try_except (write_history sanitized) (roll_back_history connection tools)
        (λ u. pure (history_declared sanitized))
  persist_history_at (issue ∷ issues) command =
      pure (record (history_failed HistoryStatus.failed_validation (issue ∷ issues)) {
        validation_failure_count = length (issue ∷ issues);
      })

  -- `persist_ingestion_run_history`
  unfoldable pub persist_ingestion_run_history : HistoryCommand O → Exec C HistoryPersistResult
  unfolding persist_history_at validate_ingestion_run_history_command ◌>>=◌ try_except
  persist_ingestion_run_history command =
      persist_history_at (validate_ingestion_run_history_command tools command) command

  abbrev pub history_repository : HistoryRepository C O
  history_repository = record {
    provider_name = "postgresql";
    persist_ingestion_run_history = persist_ingestion_run_history;
  }
