-- ===== src/Year/Types.antt =====
-- The statuses, results and injected boundaries of production_e2e_year_orchestrator.py.
use carbon_ops_parser.Prelude.{ℕ, String, Bool, ◌&&◌, not, Option, List, nat_eq}
use carbon_ops_parser.Value.{Value}
use text.Mathlib.Text.{starts_with}

pub data RunStatus : Type 0 where
  completed completed_with_failures failed : RunStatus

pub data FamilyStatus : Type 0 where
  completed no_available_source_year failed : FamilyStatus

pub data SelectionStatus : Type 0 where
  initial_year_selected next_year_selected : SelectionStatus

pub data DiscoveryStatus : Type 0 where
  source_year_available no_available_source_year : DiscoveryStatus
  -- a value outside the enumeration, which `_run_source_family` guards against
  other : DiscoveryStatus

pub data DownloadStatus : Type 0 where
  downloaded failed : DownloadStatus

pub data ValidationStatus : Type 0 where
  validated failed_validation : ValidationStatus

pub record FailureDetail : Type 0 where
  pub source_family : Option String
  pub stage : String
  pub code : String
  pub message : String
  pub field_name : Option String
  pub severity : String

pub record YearState : Type 0 where
  pub source_family : String
  pub year_state_key : String
  pub latest_year : Option ℕ
  pub target_year : ℕ
  pub initial_year : ℕ
  pub selection_status : SelectionStatus

pub record DiscoveryRequest : Type 0 where
  pub source_family : String
  pub target_year : ℕ
  pub run_id : String
  pub correlation_id : Option String

pub record DiscoveryResult (O : Type 0) : Type 0 where
  pub status : DiscoveryStatus
  pub source_family : String
  pub target_year : ℕ
  pub artifact_reference : Option String
  pub reason_code : Option String
  pub metadata : Option (List (String × Value O))

pub record DownloadedArtifact (O : Type 0) : Type 0 where
  pub source_family : String
  pub source_year : ℕ
  pub artifact_reference : String
  pub checksum_sha256 : Option String
  pub content_type : Option String
  pub format_hint : Option String
  pub metadata : Option (List (String × Value O))

pub record DownloadResult (O : Type 0) : Type 0 where
  pub status : DownloadStatus
  pub source_family : String
  pub target_year : ℕ
  pub artifact : Option (DownloadedArtifact O)
  pub issues : List FailureDetail

pub record ValidationResult : Type 0 where
  pub status : ValidationStatus
  pub diagnostic_count : ℕ
  pub blocking_error_count : ℕ
  pub warning_count : ℕ
  pub issues : List FailureDetail

abbrev pub is_validated : ValidationStatus → Bool
is_validated ValidationStatus.validated = Bool.true
is_validated ValidationStatus.failed_validation = Bool.false

-- `ProductionE2EValidationResult.is_valid`
abbrev pub is_valid : ValidationResult → Bool
is_valid v = is_validated v.status && nat_eq v.blocking_error_count 0

pub record InsertSummary : Type 0 where
  pub status : String
  pub attempted : ℕ
  pub inserted : ℕ
  pub skipped_duplicate : ℕ
  pub failed : ℕ
  pub validation_error_count : ℕ
  pub master_inserted : ℕ
  pub master_skipped : ℕ
  pub detail_inserted : ℕ
  pub detail_skipped : ℕ

-- `ProductionE2EInsertSummary.is_success`
abbrev pub is_success : InsertSummary → Bool
is_success s = nat_eq s.failed 0 && not (starts_with s.status "failed")

-- What an insert repository returns: `_coerce_insert_summary` reads these attributes, the optional
-- ones with the default 0.
pub record RepositoryInsertResult : Type 0 where
  pub status : String
  pub attempted : ℕ
  pub inserted : ℕ
  pub skipped_duplicate : Option ℕ
  pub failed : Option ℕ
  pub validation_error_count : Option ℕ
  pub master_inserted : Option ℕ
  pub master_skipped : Option ℕ
  pub detail_inserted : Option ℕ
  pub detail_skipped : Option ℕ

pub record FamilyResult (O : Type 0) : Type 0 where
  pub source_family : String
  pub status : FamilyStatus
  pub year_state : YearState
  pub discovery_result : Option (DiscoveryResult O)
  pub download_result : Option (DownloadResult O)
  pub parsed_row_count : ℕ
  pub validation_result : Option ValidationResult
  pub insert_summary : Option InsertSummary
  pub recorded_ingested_year : Option ℕ
  pub failures : List FailureDetail

pub record RunSummary : Type 0 where
  pub requested_family_count : ℕ
  pub completed_family_count : ℕ
  pub no_available_source_year_count : ℕ
  pub failed_family_count : ℕ
  pub parsed_row_count : ℕ
  pub attempted_insert_count : ℕ
  pub inserted_count : ℕ
  pub skipped_duplicate_count : ℕ
  pub failed_insert_count : ℕ
  pub failure_count : ℕ

pub record RunRequest : Type 0 where
  pub run_id : String
  pub enabled_source_families : List String
  pub initial_year : ℕ
  pub correlation_id : Option String

pub record RunResult (O : Type 0) : Type 0 where
  pub status : RunStatus
  pub request : RunRequest
  pub selected_source_families : List String
  pub family_results : List (FamilyResult O)
  pub summary : RunSummary
  pub failures : List FailureDetail
