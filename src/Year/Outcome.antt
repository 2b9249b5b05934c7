-- ===== src/Year/Outcome.antt =====
-- The outcomes of one family's run: what its result says, and which writes may have happened.
use carbon_ops_parser.Prelude.{String, true, false, none, some, [], ◌≡◌, ◌≢◌}
use carbon_ops_parser.Exec.{Exec, Result, ok, raised}
use carbon_ops_parser.Row.{OutputBatch}
use carbon_ops_parser.Year.Types.{
  FamilyStatus, DiscoveryRequest, DiscoveryResult, DownloadResult, DownloadedArtifact,
  ValidationResult, is_valid, InsertSummary, is_success, FamilyResult,
}
use carbon_ops_parser.Year.Boundary.{SourceFamilyAdapter, Dependencies}

-- The family's stages passed, up to a validation that permits persistence.
pub record IsValidated (O : Type 0) (r : FamilyResult O) : Type 0 where
  pub discovery : DiscoveryResult O
  pub discovered : r.discovery_result ≡ some discovery
  pub download : DownloadResult O
  pub downloaded : r.download_result ≡ some download
  pub validation : ValidationResult
  pub validated : r.validation_result ≡ some validation
  pub valid : is_valid validation ≡ true

-- What a result says under each status. A completed family has an insert without failures and the
-- recorded target year; a family with no available year has written nothing; a failed family says
-- why, and has no successful insert; no insert was made before a valid validation.
abbrev pub IsConsistent : {O : Type 0} → FamilyResult O → FamilyStatus → Type 0
IsConsistent r FamilyStatus.completed =
    (r.recorded_ingested_year ≡ some r.year_state.target_year)
    × (r.failures ≡ [])
    × ((s : InsertSummary) × (r.insert_summary ≡ some s) × (is_success s ≡ true))
    × IsValidated _ r
IsConsistent r FamilyStatus.no_available_source_year =
    (r.recorded_ingested_year ≡ none)
    × (r.failures ≡ [])
    × (r.insert_summary ≡ none)
    × (r.download_result ≡ none)
IsConsistent r FamilyStatus.failed =
    (r.recorded_ingested_year ≡ none)
    × (r.failures ≢ [])
    × ((s : InsertSummary) → r.insert_summary ≡ some s → (is_success s ≡ false) × IsValidated _ r)

module _ {W O : Type 0} (deps : Dependencies W O) where
  -- Every boundary but the insert and the recording of a year keeps `P`, whatever it returns.
  pub record KeepsReading (P : W → Type 0) : Type 0 where
    pub read_keeps : (key : String) (w : W) → P w → P (deps.latest_ingested_year key w).1
    pub discover_keeps :
        (family : String) (adapter : SourceFamilyAdapter W O) (r : DiscoveryRequest) (w : W)
        → deps.source_adapters family ≡ some adapter
        → P w
        → P (adapter.discover_target_year r w).1
    pub download_keeps :
        (family : String) (adapter : SourceFamilyAdapter W O) (r : DiscoveryResult O) (w : W)
        → deps.source_adapters family ≡ some adapter
        → P w
        → P (adapter.download_target_year r w).1
    pub parse_keeps :
        (family : String) (parse : DownloadedArtifact O → Exec W (OutputBatch O))
        (a : DownloadedArtifact O) (w : W)
        → deps.parser_boundaries family ≡ some parse
        → P w
        → P (parse a w).1
    pub validate_keeps : (b : OutputBatch O) (w : W) → P w → P (deps.validate b w).1

-- The result is consistent, and if it has no insert summary then `P` still holds.
abbrev pub Guarded : {W O : Type 0} → (W → Type 0) → Result (FamilyResult O) → W → Type 0
Guarded P (ok r) w = IsConsistent r r.status × (r.insert_summary ≡ none → P w)
Guarded P (raised e) w = Unit
