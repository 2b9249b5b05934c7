-- ===== src/Year/Family.antt =====
-- `_run_source_family`: the stages of one source family's run, last stage first. A boundary that
-- raises outside the parser ends the whole run; a parser that raises gives a failed family.
use carbon_ops_parser.Prelude.{String, Option, none, some, List, [], ◌∷◌, if◌then◌else◌}
use carbon_ops_parser.Exec.{Exec, pure, lift, ◌>>=◌, ◌>>◌, try_except, subscript}
use carbon_ops_parser.Row.{OutputBatch, row_count}
use carbon_ops_parser.Year.Types.{
  FamilyStatus, DiscoveryStatus, DownloadStatus, FailureDetail, YearState, DiscoveryResult,
  DownloadedArtifact, ValidationResult, is_valid, InsertSummary, is_success, FamilyResult,
  RunRequest,
}
use carbon_ops_parser.Year.Select.{year_state_keys, failure, select_year_state}
use carbon_ops_parser.Year.Batch.{batch_with_run_id}
use carbon_ops_parser.Year.Boundary.{
  SourceFamilyAdapter, Dependencies, coerce_insert_summary, or_default, exception_message, Progress,
  no_progress, family_result, failed_family,
}

abbrev pub missing_source_adapter : String → FailureDetail
missing_source_adapter family =
    failure (some family) "source_adapter" "PRODUCTION_E2E_MISSING_SOURCE_ADAPTER"
      "No source-family adapter is configured." (some "dependencies.source_adapters")

abbrev pub missing_parser_boundary : String → FailureDetail
missing_parser_boundary family =
    failure (some family) "parser" "PRODUCTION_E2E_MISSING_PARSER_BOUNDARY"
      "No parser boundary is configured." (some "dependencies.parser_boundaries")

abbrev pub source_discovery_failed : String → FailureDetail
source_discovery_failed family =
    failure (some family) "discovery" "PRODUCTION_E2E_SOURCE_DISCOVERY_FAILED"
      "Source-family discovery did not return an available target year."
      (some "discovery_result.status")

abbrev pub download_failed : String → FailureDetail
download_failed family =
    failure (some family) "download" "PRODUCTION_E2E_SOURCE_DOWNLOAD_FAILED"
      "Source-family download did not return an artifact." (some "download_result.artifact")

abbrev pub parser_failed : String → String → FailureDetail
parser_failed family message =
    failure (some family) "parser" "PRODUCTION_E2E_PARSER_FAILED" message (some "parser")

abbrev pub validation_failed : String → FailureDetail
validation_failed family =
    failure (some family) "validation" "PRODUCTION_E2E_VALIDATION_FAILED"
      "Parsed normalized output failed validation." (some "validation_result.status")

abbrev pub insert_failed : String → FailureDetail
insert_failed family =
    failure (some family) "insert" "PRODUCTION_E2E_POSTGRESQL_INSERT_FAILED"
      "PostgreSQL insert repository returned a failed summary." (some "insert_summary.status")

-- The artifact of a download that counts as downloaded.
abbrev pub usable_artifact :
    {O : Type 0} → DownloadStatus → Option (DownloadedArtifact O) → Option (DownloadedArtifact O)
usable_artifact DownloadStatus.downloaded artifact = artifact
usable_artifact DownloadStatus.failed artifact = none

module _ {W O : Type 0} (request : RunRequest) (deps : Dependencies W O) (family : String)
    (state : YearState) where
  unfoldable pub record_stage : Progress O → Exec W (FamilyResult O)
  record_stage p = do
    key ← lift (subscript year_state_keys family)
    deps.record_ingested_year key state.target_year
    pure (family_result FamilyStatus.completed state p (some state.target_year) [])

  unfoldable pub inserted_stage : Progress O → InsertSummary → Exec W (FamilyResult O)
  unfolding record_stage
  inserted_stage p summary =
      let done = record p { insert_summary = some summary } in
      if is_success summary
      then record_stage done
      else pure (failed_family state (insert_failed family ∷ []) done)

  unfoldable pub insert_stage : OutputBatch O → Progress O → Exec W (FamilyResult O)
  unfolding inserted_stage
  insert_stage batch p = do
    inserted ← deps.insert_normalized_factor_records (batch_with_run_id request.run_id batch)
    inserted_stage p (coerce_insert_summary inserted)

  unfoldable pub checked_stage :
      OutputBatch O → Progress O → ValidationResult → Exec W (FamilyResult O)
  unfolding insert_stage
  checked_stage batch p validation =
      let done = record p {
        parsed_row_count = row_count batch;
        validation_result = some validation;
      } in
      if is_valid validation
      then insert_stage batch done
      else pure (failed_family state (or_default validation.issues (validation_failed family)) done)

  unfoldable pub validate_stage : Progress O → OutputBatch O → Exec W (FamilyResult O)
  unfolding checked_stage
  validate_stage p batch = do validation ← deps.validate batch; checked_stage batch p validation

  unfoldable pub parse_stage :
      (DownloadedArtifact O → Exec W (OutputBatch O))
      → Progress O
      → DownloadedArtifact O
      → Exec W (FamilyResult O)
  unfolding validate_stage
  parse_stage parse p artifact =
      try_except (parse artifact)
        (λ e. pure (
          failed_family state
            (parser_failed family (deps.redact_sensitive_text (exception_message e)) ∷ []) p))
        (validate_stage p)

  unfoldable pub downloaded_stage :
      (DownloadedArtifact O → Exec W (OutputBatch O))
      → Progress O
      → List FailureDetail
      → Option (DownloadedArtifact O)
      → Exec W (FamilyResult O)
  unfolding parse_stage
  downloaded_stage parse p issues none =
      pure (failed_family state (or_default issues (download_failed family)) p)
  downloaded_stage parse p issues (some artifact) = parse_stage parse p artifact

  unfoldable pub download_stage :
      SourceFamilyAdapter W O
      → (DownloadedArtifact O → Exec W (OutputBatch O))
      → DiscoveryResult O
      → Exec W (FamilyResult O)
  unfolding downloaded_stage
  download_stage adapter parse discovery = do
    download ← adapter.download_target_year discovery
    downloaded_stage parse
        (record no_progress { discovery_result = some discovery; download_result = some download })
        download.issues (usable_artifact download.status download.artifact)

  unfoldable pub discovered_stage :
      SourceFamilyAdapter W O
      → (DownloadedArtifact O → Exec W (OutputBatch O))
      → DiscoveryResult O
      → DiscoveryStatus
      → Exec W (FamilyResult O)
  unfolding download_stage
  discovered_stage adapter parse discovery DiscoveryStatus.no_available_source_year = pure (
      family_result FamilyStatus.no_available_source_year state
        (record no_progress { discovery_result = some discovery }) none [])
  discovered_stage adapter parse discovery DiscoveryStatus.other = pure (
      failed_family state (source_discovery_failed family ∷ [])
        (record no_progress { discovery_result = some discovery }))
  discovered_stage adapter parse discovery DiscoveryStatus.source_year_available =
      download_stage adapter parse discovery

  unfoldable pub discover_stage :
      SourceFamilyAdapter W O
      → (DownloadedArtifact O → Exec W (OutputBatch O))
      → Exec W (FamilyResult O)
  unfolding discovered_stage
  discover_stage adapter parse = do
    discovery ← adapter.discover_target_year (record {
      source_family = family;
      target_year = state.target_year;
      run_id = request.run_id;
      correlation_id = request.correlation_id;
    })
    discovered_stage adapter parse discovery discovery.status

  -- The look-ups of the adapter and, if there is one, of the parser.
  unfoldable pub boundary_stage :
      Option (SourceFamilyAdapter W O)
      → Option (DownloadedArtifact O → Exec W (OutputBatch O))
      → Exec W (FamilyResult O)
  unfolding discover_stage
  boundary_stage none parser =
      pure (failed_family state (missing_source_adapter family ∷ []) no_progress)
  boundary_stage (some adapter) none =
      pure (failed_family state (missing_parser_boundary family ∷ []) no_progress)
  boundary_stage (some adapter) (some parse) = discover_stage adapter parse

-- `_run_source_family`
module _ {W O : Type 0} (request : RunRequest) (deps : Dependencies W O) where
  unfoldable pub run_source_family : String → Exec W (FamilyResult O)
  unfolding boundary_stage ◌>>=◌ try_except
  run_source_family family = do
    key ← lift (subscript year_state_keys family)
    latest_year ← deps.latest_ingested_year key
    state ← lift (select_year_state family latest_year request.initial_year)
    boundary_stage request deps family state (deps.source_adapters family)
        (deps.parser_boundaries family)
