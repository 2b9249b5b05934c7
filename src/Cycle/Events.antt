-- ===== src/Cycle/Events.antt =====
-- diagnostics/ingestion_runtime_events.py: the issues of a run without duplicates, and the statuses
-- that summaries show.
pub mod Deduplicated
use carbon_ops_parser.Prelude.{
  String, Bool, true, false, ◌&&◌, not, Option, none, some, List, [], ◌∷◌, ◌++◌, any_of, ltb,
  concat_map, ◌==◌, if◌then◌else◌,
}
use carbon_ops_parser.Year.Types.{
  RunStatus, FamilyStatus, SelectionStatus, DownloadStatus, ValidationStatus, FailureDetail,
  DownloadResult, FamilyResult, RunResult,
}

-- The values of the enumerations of pipeline/production_e2e_year_orchestrator.py.
abbrev pub run_status_value : RunStatus → String
run_status_value RunStatus.completed = "completed"
run_status_value RunStatus.completed_with_failures = "completed_with_failures"
run_status_value RunStatus.failed = "failed"

abbrev pub family_status_value : FamilyStatus → String
family_status_value FamilyStatus.completed = "completed"
family_status_value FamilyStatus.no_available_source_year = "no_available_source_year"
family_status_value FamilyStatus.failed = "failed"

abbrev pub selection_status_value : SelectionStatus → String
selection_status_value SelectionStatus.initial_year_selected = "initial_year_selected"
selection_status_value SelectionStatus.next_year_selected = "next_year_selected"

abbrev pub download_status_value : DownloadStatus → String
download_status_value DownloadStatus.downloaded = "downloaded"
download_status_value DownloadStatus.failed = "failed"

abbrev pub validation_status_value : ValidationStatus → String
validation_status_value ValidationStatus.validated = "validated"
validation_status_value ValidationStatus.failed_validation = "failed_validation"

-- `sanitize_issue_payload`, and the key that `append_issue` makes of it
pub record IssuePayload : Type 0 where
  pub source_family : Option String
  pub stage : String
  pub code : String
  pub message : String

abbrev same_option : Option String → Option String → Bool
same_option none none = true
same_option (some s) (some t) = s == t
same_option _ _ = false

abbrev pub same_payload : IssuePayload → IssuePayload → Bool
same_payload a b =
    same_option a.source_family b.source_family
    && a.stage == b.stage
    && a.code == b.code
    && a.message == b.message

module _ (redact_sensitive_text : String → String) where
  abbrev pub sanitize_issue_payload : FailureDetail → IssuePayload
  sanitize_issue_payload issue = record {
    source_family = issue.source_family;
    stage = issue.stage;
    code = issue.code;
    message = redact_sensitive_text issue.message;
  }

  -- `append_issue`, with the issues so far and the keys that were seen
  abbrev pub append_issue :
      List FailureDetail × List IssuePayload
      → FailureDetail
      → List FailureDetail × List IssuePayload
  append_issue (issues, seen) issue =
      let key = sanitize_issue_payload issue in
      if any_of (same_payload key) seen
      then (issues, seen)
      else (issues ++ issue ∷ [], seen ++ key ∷ [])

  unfoldable pub append_issues :
      List FailureDetail × List IssuePayload
      → List FailureDetail
      → List FailureDetail × List IssuePayload
  append_issues state [] = state
  append_issues state (issue ∷ issues) = append_issues (append_issue state issue) issues

  -- `iter_deduplicated_ingestion_issues`
  unfoldable pub iter_deduplicated_ingestion_issues :
      {O : Type 0} → RunResult O → List FailureDetail
  unfolding append_issues
  iter_deduplicated_ingestion_issues result =
      let families =
        append_issues ([], []) (concat_map (λ family. family.failures) result.family_results) in
      (append_issues families result.failures).0

module _ {O : Type 0} where
  -- `configured_download_status_value`, and `_download_status_value` of
  -- pipeline/configured_cycle_summary.py
  abbrev pub configured_download_status_value : Option (DownloadResult O) → String
  configured_download_status_value none = "not_run"
  configured_download_status_value (some download) = download_status_value download.status

  abbrev downloaded_or : Option (DownloadResult O) → String
  downloaded_or none = "not_run"
  downloaded_or (some download) =
      if not (configured_download_status_value (some download) == "downloaded")
      then "not_run"
      else "no_rows"

  -- `configured_parse_status_value`, and `_parse_status_value` of
  -- pipeline/configured_cycle_summary.py
  unfoldable pub configured_parse_status_value : FamilyResult O → String
  configured_parse_status_value family =
      if ltb 0 family.parsed_row_count
      then "parsed"
      else if any_of (λ failure. failure.stage == "parser") family.failures
      then "failed"
      else downloaded_or family.download_result
