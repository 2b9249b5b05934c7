-- ===== src/Year/Boundary.antt =====
-- The injected dependencies of the orchestrator, and how a family's result is put together.
use carbon_ops_parser.Prelude.{ℕ, String, Option, none, List, [], ◌∷◌, get_or, if◌then◌else◌, ◌==◌}
use carbon_ops_parser.Exec.{PyException, Exec}
use carbon_ops_parser.Row.{OutputBatch}
use carbon_ops_parser.Year.Types.{
  FamilyStatus, FailureDetail, YearState, DiscoveryRequest, DiscoveryResult, DownloadedArtifact,
  DownloadResult, ValidationResult, InsertSummary, RepositoryInsertResult, FamilyResult,
}

-- `ProductionE2ESourceFamilyAdapter`
pub record SourceFamilyAdapter (W O : Type 0) : Type 0 where
  pub discover_target_year : DiscoveryRequest → Exec W (DiscoveryResult O)
  pub download_target_year : DiscoveryResult O → Exec W (DownloadResult O)

-- `ProductionE2EYearOrchestratorDependencies`, and the redaction of exception texts
-- (diagnostics/redaction.py).
pub record Dependencies (W O : Type 0) : Type 0 where
  pub latest_ingested_year : String → Exec W (Option ℕ)
  pub record_ingested_year : String → ℕ → Exec W (Unit {0})
  pub source_adapters : String → Option (SourceFamilyAdapter W O)
  pub parser_boundaries : String → Option (DownloadedArtifact O → Exec W (OutputBatch O))
  pub validate : OutputBatch O → Exec W ValidationResult
  pub insert_normalized_factor_records : OutputBatch O → Exec W RepositoryInsertResult
  pub redact_sensitive_text : String → String

-- `_coerce_insert_summary`
abbrev pub coerce_insert_summary : RepositoryInsertResult → InsertSummary
coerce_insert_summary r = record {
  status = r.status;
  attempted = r.attempted;
  inserted = r.inserted;
  skipped_duplicate = get_or r.skipped_duplicate 0;
  failed = get_or r.failed 0;
  validation_error_count = get_or r.validation_error_count 0;
  master_inserted = get_or r.master_inserted 0;
  master_skipped = get_or r.master_skipped 0;
  detail_inserted = get_or r.detail_inserted 0;
  detail_skipped = get_or r.detail_skipped 0;
}

-- `issues or (default,)`
abbrev pub or_default : List FailureDetail → FailureDetail → List FailureDetail
or_default [] default = default ∷ []
or_default (issue ∷ issues) default = issue ∷ issues

-- `str(exc) or exc.__class__.__name__`
abbrev pub exception_message : PyException → String
exception_message e = if e.text == "" then e.class_name else e.text

-- What the stages of one family have produced so far.
pub record Progress (O : Type 0) : Type 0 where
  pub discovery_result : Option (DiscoveryResult O)
  pub download_result : Option (DownloadResult O)
  pub parsed_row_count : ℕ
  pub validation_result : Option ValidationResult
  pub insert_summary : Option InsertSummary

module _ {O : Type 0} where
  abbrev pub no_progress : Progress O
  no_progress = record {
    discovery_result = none;
    download_result = none;
    parsed_row_count = 0;
    validation_result = none;
    insert_summary = none;
  }

  -- `ProductionE2EYearFamilyResult(...)`
  abbrev pub family_result :
      FamilyStatus → YearState → Progress O → Option ℕ → List FailureDetail → FamilyResult O
  family_result status state p recorded failures = record {
    source_family = state.source_family;
    status = status;
    year_state = state;
    discovery_result = p.discovery_result;
    download_result = p.download_result;
    parsed_row_count = p.parsed_row_count;
    validation_result = p.validation_result;
    insert_summary = p.insert_summary;
    recorded_ingested_year = recorded;
    failures = failures;
  }

  -- `_failed_family`
  abbrev pub failed_family : YearState → List FailureDetail → Progress O → FamilyResult O
  failed_family state failures p = family_result FamilyStatus.failed state p none failures
