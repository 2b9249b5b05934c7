-- ===== src/Cycle/Command.antt =====
-- persistence/ingestion_run_history_mapping.py: the history command of a cycle, which is one run of
-- the orchestrator (pipeline/configured_cycle_models.py).
pub mod Reportable
use carbon_ops_parser.Prelude.{
  ℕ, String, Option, none, some, List, [], ◌∷◌, map, length, lookup, insert,
}
use mathlib.Core.Option
use carbon_ops_parser.Text.Number.{ℤ}
use carbon_ops_parser.Year.Types.{FailureDetail, InsertSummary, FamilyResult, RunResult, RunSummary}
use carbon_ops_parser.History.Metadata.{Fields, end, entry, text, number}
use carbon_ops_parser.History.Records.{SourceResultRecord, IssueRecord, HistoryCommand}
use carbon_ops_parser.Cycle.Events.{
  run_status_value, family_status_value, selection_status_value, validation_status_value,
  iter_deduplicated_ingestion_issues, configured_download_status_value,
  configured_parse_status_value,
}

-- `ConfiguredCycleResult`
pub record CycleResult (O : Type 0) : Type 0 where
  pub cycle_number : ℕ
  pub run_id : String
  pub result : RunResult O
  pub history_persistence_status : Option String
  pub history_persistence_issue_count : ℕ

-- `getattr(insert_summary, name, 0)`
abbrev pub summary_count : (InsertSummary → ℕ) → Option InsertSummary → ℤ
summary_count count none = ℤ.pos 0
summary_count count (some summary) = ℤ.pos (count summary)

-- the target year of an issue's source family
abbrev pub target_year_of : List (String × ℕ) → Option String → Option ℤ
target_year_of years none = none
target_year_of years (some source_family) = Option.map (λ y. ℤ.pos y) (lookup source_family years)

module _ {O : Type 0} where
  -- the dictionary of the metadata, with a field more if the year is recorded
  abbrev pub source_result_metadata : FamilyResult O → Option ℕ → Fields O
  source_result_metadata family none =
      entry "selection_status" (text (selection_status_value family.year_state.selection_status))
        end
  source_result_metadata family (some year) =
      entry "selection_status" (text (selection_status_value family.year_state.selection_status))
        (entry "recorded_ingested_year" (number (ℤ.pos year)) end)

  -- `_source_result_record`
  unfoldable pub source_result_record : String → FamilyResult O → SourceResultRecord O
  unfolding configured_parse_status_value
  source_result_record run_id family = record {
    run_id = run_id;
    source_family = family.source_family;
    status = family_status_value family.status;
    target_year = some (ℤ.pos family.year_state.target_year);
    latest_year = Option.map (λ y. ℤ.pos y) family.year_state.latest_year;
    download_status = some (configured_download_status_value family.download_result);
    parse_status = some (configured_parse_status_value family);
    validation_status = Option.map (λ v. validation_status_value v.status) family.validation_result;
    insert_status = Option.map (λ s. s.status) family.insert_summary;
    parsed_rows = ℤ.pos family.parsed_row_count;
    master_inserted = summary_count (λ s. s.master_inserted) family.insert_summary;
    master_skipped = summary_count (λ s. s.master_skipped) family.insert_summary;
    detail_inserted = summary_count (λ s. s.detail_inserted) family.insert_summary;
    detail_skipped = summary_count (λ s. s.detail_skipped) family.insert_summary;
    issue_count = ℤ.pos (length family.failures);
    metadata = some (source_result_metadata family family.recorded_ingested_year);
  }

  -- `_target_year_by_source_family`, from the dictionary so far
  abbrev pub target_years_from : List (String × ℕ) → List (FamilyResult O) → List (String × ℕ)
  target_years_from years [] = years
  target_years_from years (family ∷ families) =
      target_years_from (insert family.source_family family.year_state.target_year years) families

  abbrev pub target_year_by_source_family : List (FamilyResult O) → List (String × ℕ)
  target_year_by_source_family families = target_years_from [] families

  -- the metadata of the run
  abbrev pub run_metadata : RunSummary → Fields O
  run_metadata summary =
      entry "requested_family_count" (number (ℤ.pos summary.requested_family_count)) (
        entry "completed_family_count" (number (ℤ.pos summary.completed_family_count)) (
          entry "failed_family_count" (number (ℤ.pos summary.failed_family_count)) (
            entry "no_available_source_year_count"
              (number (ℤ.pos summary.no_available_source_year_count)) end)))

-- `_issue_record`
module _ {O : Type 0} (redact_sensitive_text : String → String) where
  unfoldable pub issue_record : String → List (String × ℕ) → FailureDetail → IssueRecord O
  unfolding lookup
  issue_record run_id years issue = record {
    run_id = run_id;
    stage = issue.stage;
    code = issue.code;
    message = redact_sensitive_text issue.message;
    source_family = issue.source_family;
    target_year = target_year_of years issue.source_family;
    severity = issue.severity;
    field_name = issue.field_name;
    metadata = none;
  }

  -- `build_ingestion_run_history_command_from_configured_cycle`, with both times given and the
  -- other arguments at their defaults, as the cycle runner calls it
  unfoldable pub build_ingestion_run_history_command : CycleResult O → O → O → HistoryCommand O
  unfolding source_result_record issue_record iter_deduplicated_ingestion_issues insert
  build_ingestion_run_history_command cycle started_at finished_at =
      let result = cycle.result in
      let summary = result.summary in
      let years = target_year_by_source_family result.family_results in
      record {
        run = record {
          run_id = cycle.run_id;
          started_at = some started_at;
          status = run_status_value result.status;
          finished_at = some finished_at;
          trigger_type = "operator";
          config_hash = none;
          enabled_source_families = result.selected_source_families;
          initial_year = some (ℤ.pos result.request.initial_year);
          cycle_count = some (ℤ.pos cycle.cycle_number);
          total_parsed_rows = ℤ.pos summary.parsed_row_count;
          total_inserted_count = ℤ.pos summary.inserted_count;
          total_skipped_duplicate_count = ℤ.pos summary.skipped_duplicate_count;
          failure_count = ℤ.pos summary.failure_count;
          metadata = some (run_metadata summary);
        };
        source_results = map (source_result_record cycle.run_id) result.family_results;
        issues =
            map (issue_record cycle.run_id years)
              (iter_deduplicated_ingestion_issues redact_sensitive_text result);
      }
