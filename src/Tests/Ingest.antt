-- ===== src/Tests/Ingest.antt =====
-- A family's run over the small database session.
use carbon_ops_parser.Prelude.{ℕ, ◌+◌, none, some, [], ◌∷◌, ◌≡◌, refl, lookup, insert}
use mathlib.Core.Option.{some-injective}
use carbon_ops_parser.Exec.{Exec, Result, ok, raised, subscript}
use carbon_ops_parser.Row.{OutputBatch}
use carbon_ops_parser.Text.{text_lt}
use carbon_ops_parser.Text.Number.{show}
use carbon_ops_parser.Year.Types.{
  FamilyStatus, DiscoveryStatus, DownloadStatus, ValidationStatus, DownloadedArtifact,
  InsertSummary, FamilyResult, RunRequest,
}
use carbon_ops_parser.Year.Select.{year_state_of, select_year_state}
use carbon_ops_parser.Year.Boundary.{SourceFamilyAdapter, Dependencies, failed_family, no_progress}
use carbon_ops_parser.Year.Batch.{batch_with_run_id, row_with_run_id, fields_with_run_id}
use carbon_ops_parser.Year.Family.{run_source_family}
use carbon_ops_parser.Year.Outcome.{KeepsReading}
use carbon_ops_parser.Persistence.Ingest.{
  insert_records, with_insert, IsClean, run_source_family-IsCommitted,
}
use carbon_ops_parser.Persistence.Repository.{insert_normalized_factor_records}
use carbon_ops_parser.Tests.Persist.{
  Counts, session, session-IsTransactional, committed, working, factor_rows, encoding, parameters,
  batch,
}

abbrev artifact : DownloadedArtifact ℕ
artifact = record {
  source_family = "ghg_protocol";
  source_year = 2020;
  artifact_reference = "file";
  checksum_sha256 = none;
  content_type = none;
  format_hint = none;
  metadata = none;
}

abbrev adapter : SourceFamilyAdapter Counts ℕ
adapter = record {
  discover_target_year = λ r c. (
    ok (record {
      status = DiscoveryStatus.source_year_available;
      source_family = r.source_family;
      target_year = r.target_year;
      artifact_reference = none;
      reason_code = none;
      metadata = none;
    }),
    c,
  );
  download_target_year = λ d c. (
    ok (record {
      status = DownloadStatus.downloaded;
      source_family = d.source_family;
      target_year = d.target_year;
      artifact = some artifact;
      issues = [];
    }),
    c,
  );
}

abbrev parse : DownloadedArtifact ℕ → Exec Counts (OutputBatch ℕ)
parse a c = (ok batch, c)

-- The insert boundary here is replaced.
abbrev deps : Dependencies Counts ℕ
deps = record {
  latest_ingested_year = λ key c. (ok none, c);
  record_ingested_year = λ key y c. (ok tt, (c.1, c.1));
  source_adapters = λ family. some adapter;
  parser_boundaries = λ family. some parse;
  validate = λ b c. (
    ok (record {
      status = ValidationStatus.validated;
      diagnostic_count = 0;
      blocking_error_count = 0;
      warning_count = 0;
      issues = [];
    }),
    c,
  );
  insert_normalized_factor_records = insert_records session encoding parameters (λ s. s);
  redact_sensitive_text = λ s. s;
}

abbrev stored : Dependencies Counts ℕ
stored = with_insert session encoding parameters (λ s. s) deps

abbrev request : RunRequest
request = record {
  run_id = "run-1";
  enabled_source_families = "ghg" ∷ [];
  initial_year = 2020;
  correlation_id = none;
}

stored-KeepsReading : KeepsReading stored (
    IsClean session encoding parameters
      (λ s. s)
      committed
      working
      factor_rows
      session-IsTransactional
      5)
stored-KeepsReading = record {
  read_keeps = λ key c p. p;
  discover_keeps = λ family a r c h p. rw (← some-injective adapter a h) p;
  download_keeps = λ family a r c h p. rw (← some-injective adapter a h) p;
  parse_keeps = λ family p a c h q. rw (← some-injective parse p h) q;
  validate_keeps = λ b c p. p;
}

abbrev family_or : FamilyResult ℕ → Result (FamilyResult ℕ) → FamilyResult ℕ
family_or default (ok r) = r
family_or default (raised e) = default

abbrev result : FamilyResult ℕ
result =
    family_or (failed_family (year_state_of "ghg_protocol" "ghg" none 2020) [] no_progress)
      (run_source_family request stored "ghg_protocol" (5, 5)).0

result-is : (run_source_family request stored "ghg_protocol" (5, 5)).0 ≡ ok result
unfolding run_source_family subscript lookup select_year_state batch_with_run_id insert_records
    insert_normalized_factor_records show insert row_with_run_id fields_with_run_id text_lt
result-is = refl

result-completed : result.status ≡ FamilyStatus.completed
unfolding run_source_family subscript lookup select_year_state batch_with_run_id insert_records
    insert_normalized_factor_records show insert row_with_run_id fields_with_run_id text_lt
result-completed = refl

run_source_family-IsCommitted_example :
    (s : InsertSummary) × (result.insert_summary ≡ some s)
    × (committed (run_source_family request stored "ghg_protocol" (5, 5)).1
        ≡ 5 + s.master_inserted + s.detail_inserted)
run_source_family-IsCommitted_example =
    run_source_family-IsCommitted session encoding parameters (λ s. s) committed working factor_rows
      session-IsTransactional 5 request deps stored-KeepsReading "ghg_protocol" (5, 5) result
      (record { keeps = λ key y c settled. (settled, refl) }) (refl, refl) result-is
      result-completed
