-- ===== src/History/Records.antt =====
-- The records, commands and results of persistence/ingestion_run_history.py. Integers may be
-- negative; dates are objects of a given type.
use carbon_ops_parser.Prelude.{ℕ, String, Option, some, List}
use carbon_ops_parser.Exec.{Exec}
use carbon_ops_parser.Text.Number.{ℤ}
use carbon_ops_parser.History.Metadata.{Fields}

-- `ParserIngestionRunHistoryStatus`
pub data HistoryStatus : Type 0 where
  declared failed_validation failed_database : HistoryStatus

-- `ParserIngestionRunHistoryIssue`
pub record HistoryIssue : Type 0 where
  pub code : String
  pub message : String
  pub field_name : Option String
  pub severity : String

-- `ParserIngestionRunRecord`
pub record RunRecord (O : Type 0) : Type 0 where
  pub run_id : String
  pub started_at : Option O
  pub status : String
  pub finished_at : Option O
  pub trigger_type : String
  pub config_hash : Option String
  pub enabled_source_families : List String
  pub initial_year : Option ℤ
  pub cycle_count : Option ℤ
  pub total_parsed_rows : ℤ
  pub total_inserted_count : ℤ
  pub total_skipped_duplicate_count : ℤ
  pub failure_count : ℤ
  pub metadata : Option (Fields O)

-- `ParserIngestionSourceResultRecord`
pub record SourceResultRecord (O : Type 0) : Type 0 where
  pub run_id : String
  pub source_family : String
  pub status : String
  pub target_year : Option ℤ
  pub latest_year : Option ℤ
  pub download_status : Option String
  pub parse_status : Option String
  pub validation_status : Option String
  pub insert_status : Option String
  pub parsed_rows : ℤ
  pub master_inserted : ℤ
  pub master_skipped : ℤ
  pub detail_inserted : ℤ
  pub detail_skipped : ℤ
  pub issue_count : ℤ
  pub metadata : Option (Fields O)

-- `ParserIngestionIssueRecord`
pub record IssueRecord (O : Type 0) : Type 0 where
  pub run_id : String
  pub stage : String
  pub code : String
  pub message : String
  pub source_family : Option String
  pub target_year : Option ℤ
  pub severity : String
  pub field_name : Option String
  pub metadata : Option (Fields O)

-- `ParserIngestionRunHistoryCommand`
pub record HistoryCommand (O : Type 0) : Type 0 where
  pub run : RunRecord O
  pub source_results : List (SourceResultRecord O)
  pub issues : List (IssueRecord O)

-- `ParserIngestionRunHistoryPersistResult`
pub record HistoryPersistResult : Type 0 where
  pub provider_name : String
  pub status : HistoryStatus
  pub persisted_run_count : ℕ
  pub persisted_source_result_count : ℕ
  pub persisted_issue_count : ℕ
  pub validation_failure_count : ℕ
  pub issues : List HistoryIssue

-- `ParserIngestionRunHistoryRepository`
pub record HistoryRepository (W O : Type 0) : Type 0 where
  pub provider_name : String
  pub persist_ingestion_run_history : HistoryCommand O → Exec W HistoryPersistResult

-- `_issue`
abbrev pub history_issue : String → String → String → HistoryIssue
history_issue code message field_name = record {
  code = code;
  message = message;
  field_name = some field_name;
  severity = "error";
}
