-- ===== src/History/Validate.antt =====
-- `validate_ingestion_run_history_command`, `sanitized_ingestion_run_history_command` and
-- `json_payload` of persistence/ingestion_run_history.py.
pub mod Checks
pub mod Accepted
use carbon_ops_parser.Prelude.{
  ℕ, zero, suc, ◌+◌, String, not, Option, none, some, List, [], ◌∷◌, ◌++◌, contains, concat_map,
  get_or, ◌==◌, if◌then◌else◌,
}
use carbon_ops_parser.Exec.{Result, ok, raised}
use carbon_ops_parser.Text.{is_blank}
use carbon_ops_parser.Text.Number.{ℤ, concat, show}
use carbon_ops_parser.History.Metadata.{Object, mapping, Fields, end, json_safe_redacted}
use carbon_ops_parser.History.Records.{
  HistoryIssue, RunRecord, SourceResultRecord, IssueRecord, HistoryCommand, history_issue,
}

-- The redaction of texts (diagnostics/redaction.py), and `json.dumps` with sorted keys: with the
-- default separators, and with `separators=(",", ":")`. They raise `TypeError` or `ValueError` on an
-- object that has no JSON form.
pub record Dumps (O : Type 0) : Type 0 where
  pub redact_sensitive_text : String → String
  pub dumps : Object O → Result String
  pub compact_dumps : Object O → Result String

-- `_INGESTION_SOURCE_FAMILIES`
abbrev pub ingestion_source_families : List String
ingestion_source_families = "ghg_protocol" ∷ "defra_desnz" ∷ "ipcc_efdb" ∷ []

-- `_ISSUE_SOURCE_FAMILIES`
abbrev pub issue_source_families : List String
issue_source_families = "configured_runner" ∷ ingestion_source_families

-- `if not str(value or "").strip(): issues.append(_issue(code, message, field_name))`
abbrev required : String → String → String → String → List HistoryIssue
required value code message field_name =
    if is_blank value then history_issue code message field_name ∷ [] else []

abbrev required_object : {O : Type 0} → Option O → String → String → String → List HistoryIssue
required_object none code message field_name = history_issue code message field_name ∷ []
required_object (some o) code message field_name = []

abbrev unsupported : String → List HistoryIssue
unsupported field_name =
    history_issue "INGESTION_RUN_HISTORY_SOURCE_FAMILY_UNSUPPORTED" "source_family is unsupported."
      field_name
    ∷ []

-- `_validate_ingestion_source_family`
abbrev validate_ingestion_source_family : String → String → List HistoryIssue
validate_ingestion_source_family source_family field_name =
    if contains source_family ingestion_source_families then [] else unsupported field_name

-- `_validate_issue_source_family`, where there is a family
abbrev validate_issue_source_family : Option String → String → List HistoryIssue
validate_issue_source_family none field_name = []
validate_issue_source_family (some source_family) field_name =
    if contains source_family issue_source_families then [] else unsupported field_name

abbrev not_positive : String → List HistoryIssue
not_positive field_name =
    history_issue "INGESTION_RUN_HISTORY_POSITIVE_INTEGER_REQUIRED"
      (concat (field_name ∷ " must be positive when provided." ∷ [])) field_name
    ∷ []

-- `_validate_positive_optional`
abbrev validate_positive_optional : String → Option ℤ → List HistoryIssue
validate_positive_optional field_name none = []
validate_positive_optional field_name (some (ℤ.pos (suc n))) = []
validate_positive_optional field_name (some (ℤ.pos zero)) = not_positive field_name
validate_positive_optional field_name (some (ℤ.negsuc n)) = not_positive field_name

-- `_validate_source_result_target_year`
abbrev validate_source_result_target_year : String → Option ℤ → List HistoryIssue
validate_source_result_target_year field_name none =
    history_issue "INGESTION_RUN_HISTORY_SOURCE_TARGET_YEAR_REQUIRED"
      "source result target_year is required for idempotent upsert semantics." field_name
    ∷ []
validate_source_result_target_year field_name (some year) =
    validate_positive_optional field_name (some year)

-- `_validate_non_negative`
abbrev validate_non_negative : String → ℤ → List HistoryIssue
validate_non_negative field_name (ℤ.pos n) = []
validate_non_negative field_name (ℤ.negsuc n) =
    history_issue "INGESTION_RUN_HISTORY_NON_NEGATIVE_COUNT_REQUIRED"
      (concat (field_name ∷ " must be non-negative." ∷ [])) field_name
    ∷ []

-- `_validate_non_negative_optional`
abbrev validate_non_negative_optional : String → Option ℤ → List HistoryIssue
validate_non_negative_optional field_name none = []
validate_non_negative_optional field_name (some n) = validate_non_negative field_name n

-- The loops over the names of counts.
abbrev validate_counts : List (String × ℤ) → List HistoryIssue
validate_counts counts =
    concat_map (λ (count : String × ℤ). validate_non_negative count.0 count.1) counts

abbrev same_run : String → String → String → String → String → List HistoryIssue
same_run run_id other code message field_name =
    if not (other == run_id) then history_issue code message field_name ∷ [] else []

abbrev in_record : String → String → String
in_record prefix field_name = concat (prefix ∷ "." ∷ field_name ∷ [])

-- The counts of a run that must not be negative, with their names.
abbrev pub run_counts : {O : Type 0} → RunRecord O → List (String × ℤ)
run_counts run =
    ("total_parsed_rows", run.total_parsed_rows)
    ∷ ("total_inserted_count", run.total_inserted_count)
    ∷ ("total_skipped_duplicate_count", run.total_skipped_duplicate_count)
    ∷ ("failure_count", run.failure_count)
    ∷ []

-- The counts of a source result.
abbrev pub source_result_counts : {O : Type 0} → String → SourceResultRecord O → List (String × ℤ)
source_result_counts prefix r =
    (in_record prefix "parsed_rows", r.parsed_rows)
    ∷ (in_record prefix "master_inserted", r.master_inserted)
    ∷ (in_record prefix "master_skipped", r.master_skipped)
    ∷ (in_record prefix "detail_inserted", r.detail_inserted)
    ∷ (in_record prefix "detail_skipped", r.detail_skipped)
    ∷ (in_record prefix "issue_count", r.issue_count)
    ∷ []

module _ {O : Type 0} (tools : Dumps O) where
  abbrev json_required : String → Result String → List HistoryIssue
  json_required field_name (ok payload) = []
  json_required field_name (raised e) =
      history_issue "INGESTION_RUN_HISTORY_METADATA_JSON_REQUIRED"
        (concat ("metadata must be JSON serializable: " ∷ tools.redact_sensitive_text e.text ∷ []))
        field_name
      ∷ []

  -- `_validate_json_metadata(metadata or {}, field_name, issues)`
  abbrev validate_json_metadata : Option (Fields O) → String → List HistoryIssue
  validate_json_metadata metadata field_name =
      json_required field_name (
        tools.dumps
          (json_safe_redacted tools.redact_sensitive_text (mapping (get_or metadata end))))

  -- The checks of the run's own record.
  unfoldable pub validate_run : RunRecord O → List HistoryIssue
  unfolding is_blank contains json_safe_redacted
  validate_run run =
      required run.run_id "INGESTION_RUN_HISTORY_RUN_ID_REQUIRED" "run_id is required." "run_id"
      ++ required_object run.started_at "INGESTION_RUN_HISTORY_STARTED_AT_REQUIRED"
          "started_at is required." "started_at"
      ++ required run.status "INGESTION_RUN_HISTORY_STATUS_REQUIRED" "status is required." "status"
      ++ validate_positive_optional "initial_year" run.initial_year
      ++ validate_non_negative_optional "cycle_count" run.cycle_count
      ++ validate_counts (run_counts run)
      ++ concat_map (λ family. validate_ingestion_source_family family "enabled_source_families")
          run.enabled_source_families
      ++ validate_json_metadata run.metadata "metadata"

  -- One round of the loop over the source results.
  unfoldable pub validate_source_result : String → String → SourceResultRecord O → List HistoryIssue
  unfolding is_blank contains json_safe_redacted
  validate_source_result run_id prefix result =
      same_run run_id result.run_id "INGESTION_RUN_HISTORY_SOURCE_RUN_ID_MISMATCH"
        "source result run_id must match command run_id." (in_record prefix "run_id")
      ++ required result.status "INGESTION_RUN_HISTORY_SOURCE_STATUS_REQUIRED"
          "source result status is required." (in_record prefix "status")
      ++ validate_ingestion_source_family result.source_family (in_record prefix "source_family")
      ++ validate_source_result_target_year (in_record prefix "target_year") result.target_year
      ++ validate_positive_optional (in_record prefix "latest_year") result.latest_year
      ++ validate_counts (source_result_counts prefix result)
      ++ validate_json_metadata result.metadata (in_record prefix "metadata")

  unfoldable pub validate_source_results :
      String → ℕ → List (SourceResultRecord O) → List HistoryIssue
  unfolding validate_source_result
  validate_source_results run_id index [] = []
  validate_source_results run_id index (r ∷ rs) =
      validate_source_result run_id (concat ("source_results[" ∷ show index ∷ "]" ∷ [])) r
      ++ validate_source_results run_id (index + 1) rs

  -- One round of the loop over the issues.
  unfoldable pub validate_issue : String → String → IssueRecord O → List HistoryIssue
  unfolding is_blank contains json_safe_redacted
  validate_issue run_id prefix i =
      same_run run_id i.run_id "INGESTION_RUN_HISTORY_ISSUE_RUN_ID_MISMATCH"
        "issue run_id must match command run_id." (in_record prefix "run_id")
      ++ validate_issue_source_family i.source_family (in_record prefix "source_family")
      ++ validate_positive_optional (in_record prefix "target_year") i.target_year
      ++ required i.stage "INGESTION_RUN_HISTORY_ISSUE_STAGE_REQUIRED" "issue stage is required."
          (in_record prefix "stage")
      ++ required i.code "INGESTION_RUN_HISTORY_ISSUE_CODE_REQUIRED" "issue code is required."
          (in_record prefix "code")
      ++ required i.message "INGESTION_RUN_HISTORY_ISSUE_MESSAGE_REQUIRED"
          "issue message is required." (in_record prefix "message")
      ++ validate_json_metadata i.metadata (in_record prefix "metadata")

  unfoldable pub validate_issues : String → ℕ → List (IssueRecord O) → List HistoryIssue
  unfolding validate_issue
  validate_issues run_id index [] = []
  validate_issues run_id index (i ∷ is) =
      validate_issue run_id (concat ("issues[" ∷ show index ∷ "]" ∷ [])) i
      ++ validate_issues run_id (index + 1) is

  -- `validate_ingestion_run_history_command`
  unfoldable pub validate_ingestion_run_history_command : HistoryCommand O → List HistoryIssue
  unfolding validate_run validate_source_results validate_issues
  validate_ingestion_run_history_command command =
      validate_run command.run
      ++ validate_source_results command.run.run_id 0 command.source_results
      ++ validate_issues command.run.run_id 0 command.issues
