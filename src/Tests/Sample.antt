-- ===== src/Tests/Sample.antt =====
-- A small database of years, the boundaries of a run over it, and the run.
use carbon_ops_parser.Prelude.{
  ℕ, String, none, some, List, [], ◌∷◌, ◌==◌, ◌≡◌, refl, inl, inr, if◌then◌else◌, Bool-cases,
}
use carbon_ops_parser.Exec.{Exec, Result, ok, raised}
use carbon_ops_parser.Value.{text, object}
use carbon_ops_parser.Row.{RowStatus, OutputRow, OutputBatch}
use carbon_ops_parser.YearState.{Connection}
use carbon_ops_parser.YearState.Database.{MaxYears, add_year, IsDatabase}
use carbon_ops_parser.YearState.Latest.{years_in}
use carbon_ops_parser.YearState.Fills.{with_repository, OthersKeep, with_repository-IsLedger}
use carbon_ops_parser.Year.Types.{
  DiscoveryStatus, DownloadStatus, ValidationStatus, DownloadedArtifact, RepositoryInsertResult,
  RunRequest, RunResult,
}
use carbon_ops_parser.Year.Boundary.{SourceFamilyAdapter, Dependencies}
use carbon_ops_parser.Year.Run.{run_result, run_production_e2e_year_orchestrator}
use carbon_ops_parser.Year.Ledger.{IsLedger}
use carbon_ops_parser.Year.Outcome.{KeepsReading}

-- The rows of years, the last one first.
abbrev pub Rows : Type 0
Rows = List (String × ℕ)

abbrev pub max_years : Rows → MaxYears
max_years [] = λ s. none
max_years ((s, y) ∷ c) = add_year (max_years c) s y

abbrev pub connection : Connection Rows
connection = record {
  select_max_year = λ s c. (ok (max_years c s), c);
  upsert_year = λ s y c. (ok tt, (s, y) ∷ c);
  commit = none;
}

pub connection-IsDatabase : IsDatabase Rows connection max_years
connection-IsDatabase = record {
  select_value = λ s c year h. cc;
  select_keeps = λ s c. refl;
  upsert_ok = λ s y c h. refl;
  upsert_raised = λ s y c e h. absurd (cc);
  commit_ok = λ commit c h k. absurd (cc);
  commit_raised = λ commit s y c e h k. absurd (cc);
}

abbrev pub row : OutputRow ℕ
row = record {
  source_family = "ghg_protocol";
  source_key = "ghg_protocol";
  parser_key = "ghg_protocol_phase1_parser";
  artifact_reference = "file";
  row_id = "row-1";
  normalized_fields = ("unit", text "kg") ∷ ("factor_value", object 3) ∷ [];
  status = RowStatus.declared;
  source_row_number = some 1;
  artifact_identifier = none;
  reporting_year = some 2020;
  warnings = [];
  errors = [];
}

abbrev pub artifact : DownloadedArtifact ℕ
artifact = record {
  source_family = "ghg_protocol";
  source_year = 2020;
  artifact_reference = "file";
  checksum_sha256 = none;
  content_type = none;
  format_hint = none;
  metadata = none;
}

abbrev pub adapter : SourceFamilyAdapter Rows ℕ
adapter = record {
  discover_target_year = λ r c. (
    ok (record {
      status = DiscoveryStatus.source_year_available;
      source_family = r.source_family;
      target_year = r.target_year;
      artifact_reference = none;
      reason_code = none;
      metadata = none;
    }),
    c,
  );
  download_target_year = λ d c. (
    ok (record {
      status = DownloadStatus.downloaded;
      source_family = d.source_family;
      target_year = d.target_year;
      artifact = some artifact;
      issues = [];
    }),
    c,
  );
}

abbrev pub parse : DownloadedArtifact ℕ → Exec Rows (OutputBatch ℕ)
parse a c = (ok (record { rows = row ∷ [] }), c)

abbrev pub insert_result : RepositoryInsertResult
insert_result = record {
  status = "inserted";
  attempted = 1;
  inserted = 1;
  skipped_duplicate = some 0;
  failed = some 0;
  validation_error_count = some 0;
  master_inserted = none;
  master_skipped = none;
  detail_inserted = none;
  detail_skipped = none;
}

-- No parser for one of the families.
abbrev pub deps : Dependencies Rows ℕ
deps = record {
  latest_ingested_year = λ key c. (ok (max_years c key), c);
  record_ingested_year = λ key y c. (ok tt, (key, y) ∷ c);
  source_adapters = λ family. some adapter;
  parser_boundaries = λ family. if family == "defra_desnz" then none else some parse;
  validate = λ b c. (
    ok (record {
      status = ValidationStatus.validated;
      diagnostic_count = 0;
      blocking_error_count = 0;
      warning_count = 0;
      issues = [];
    }),
    c,
  );
  insert_normalized_factor_records = λ b c. (ok insert_result, c);
  redact_sensitive_text = λ s. s;
}

abbrev pub stored_deps : Dependencies Rows ℕ
stored_deps = with_repository connection deps

abbrev pub request : RunRequest
request = record {
  run_id = "run-1";
  enabled_source_families = "ghg" ∷ "desnz" ∷ "ghg_protocol" ∷ "nobody" ∷ [];
  initial_year = 2020;
  correlation_id = none;
}

abbrev pub start : Rows
start = ("ghg", 2022) ∷ []

abbrev pub run_or : RunResult ℕ → Result (RunResult ℕ) → RunResult ℕ
run_or default (ok run) = run
run_or default (raised e) = default

abbrev pub run : RunResult ℕ
run =
    run_or (run_result request [] [])
      (run_production_e2e_year_orchestrator request stored_deps start).0

parser-is :
    (family : String) (p : DownloadedArtifact ℕ → Exec Rows (OutputBatch ℕ))
    → deps.parser_boundaries family ≡ some p
    → parse ≡ p
parser-is family p h = elim (Bool-cases (family == "defra_desnz")) [
  | inl none_set ↦ absurd (cc (rw none_set at h))
  | inr set ↦ cc (rw set at h)
]

pub deps-OthersKeep : OthersKeep deps max_years
deps-OthersKeep = record {
  discover_keeps = λ family a r c h. let e : adapter ≡ a = cc in rw (← e) refl;
  download_keeps = λ family a r c h. let e : adapter ≡ a = cc in rw (← e) refl;
  parse_keeps = λ family p a c h. rw (← parser-is family p h) refl;
  validate_keeps = λ b c. refl;
  insert_keeps = λ b c. refl;
}

pub stored-IsLedger : IsLedger stored_deps (λ c. years_in (max_years c))
stored-IsLedger =
    with_repository-IsLedger connection deps max_years connection-IsDatabase deps-OthersKeep

pub deps-KeepsReading : KeepsReading deps (λ c. c ≡ start)
deps-KeepsReading = record {
  read_keeps = λ key c p. p;
  discover_keeps = λ family a r c h p. let e : adapter ≡ a = cc in rw (← e) p;
  download_keeps = λ family a r c h p. let e : adapter ≡ a = cc in rw (← e) p;
  parse_keeps = λ family p a c h q. rw (← parser-is family p h) q;
  validate_keeps = λ b c p. p;
}
