-- ===== src/History/Parameters.antt =====
-- The parameters of the statements of persistence/postgresql_ingestion_run_history_repository.py.
use carbon_ops_parser.Prelude.{String, Option, none, some, List, [], ◌∷◌, get_or}
use carbon_ops_parser.Exec.{Result, ok}
use carbon_ops_parser.Exec.Checked.{◌>>=◌}
use carbon_ops_parser.Text.Number.{ℤ, show_int}
use carbon_ops_parser.History.Metadata.{
  Object, null, text, number, other, mapping, sequence, Fields, end, Items, nil, cons,
}
use carbon_ops_parser.History.Records.{RunRecord, SourceResultRecord, IssueRecord}
use carbon_ops_parser.History.Validate.{Dumps}
use carbon_ops_parser.History.Sanitize.{json_payload}

module _ {O : Type 0} where
  abbrev nullable_text : Option String → Object O
  nullable_text none = null
  nullable_text (some s) = text s

  abbrev nullable_int : Option ℤ → Object O
  nullable_int none = null
  nullable_int (some n) = number n

  abbrev nullable_object : Option O → Object O
  nullable_object none = null
  nullable_object (some o) = other o

  abbrev texts : List String → Items O
  texts [] = nil
  texts (s ∷ rest) = cons (text s) (texts rest)

-- `str(value)`, for a text or an integer that may be `None`
abbrev str_text : Option String → String
str_text none = "None"
str_text (some s) = s

abbrev str_int : Option ℤ → String
str_int none = "None"
str_int (some n) = show_int n

module _ {O : Type 0} (tools : Dumps O) where
  abbrev metadata_payload : Option (Fields O) → Result String
  metadata_payload metadata = json_payload tools (mapping (get_or metadata end))

  -- `_run_parameters`
  unfoldable pub run_parameters : RunRecord O → Result (List (Object O))
  unfolding ◌>>=◌
  run_parameters run = do
    families ← json_payload tools (sequence (texts run.enabled_source_families))
    metadata ← metadata_payload run.metadata
    ok (
        text run.run_id
        ∷ nullable_object run.started_at
        ∷ nullable_object run.finished_at
        ∷ text run.status
        ∷ text run.trigger_type
        ∷ nullable_text run.config_hash
        ∷ text families
        ∷ nullable_int run.initial_year
        ∷ nullable_int run.cycle_count
        ∷ number run.total_parsed_rows
        ∷ number run.total_inserted_count
        ∷ number run.total_skipped_duplicate_count
        ∷ number run.failure_count
        ∷ text metadata
        ∷ [])

-- `uuid5` is the standard library's `str(uuid.uuid5(uuid.NAMESPACE_URL, payload))`.
module _ {O : Type 0} (tools : Dumps O) (uuid5 : String → String) where
  -- `str(_stable_uuid(*values))`
  unfoldable pub stable_uuid : List String → Result String
  unfolding ◌>>=◌
  stable_uuid values = do
    payload ← tools.compact_dumps (sequence (texts values))
    ok (uuid5 payload)

  -- `str(stable_source_result_uuid(record))`
  unfoldable pub stable_source_result_uuid : SourceResultRecord O → Result String
  unfolding stable_uuid show_int
  stable_source_result_uuid r =
      stable_uuid
        ("parser_ingestion_source_result" ∷ r.run_id ∷ r.source_family ∷ str_int r.target_year ∷ [])

  -- `str(stable_issue_uuid(record))`
  unfoldable pub stable_issue_uuid : IssueRecord O → Result String
  unfolding stable_uuid show_int
  stable_issue_uuid i = stable_uuid (
      "parser_ingestion_issue"
      ∷ i.run_id
      ∷ str_text i.source_family
      ∷ str_int i.target_year
      ∷ i.stage
      ∷ i.code
      ∷ tools.redact_sensitive_text i.message
      ∷ [])

  -- `_source_result_parameters`
  unfoldable pub source_result_parameters : SourceResultRecord O → Result (List (Object O))
  unfolding stable_source_result_uuid
  source_result_parameters r = do
    id ← stable_source_result_uuid r
    metadata ← metadata_payload tools r.metadata
    ok (
        text id
        ∷ text r.run_id
        ∷ text r.source_family
        ∷ nullable_int r.target_year
        ∷ nullable_int r.latest_year
        ∷ text r.status
        ∷ nullable_text r.download_status
        ∷ nullable_text r.parse_status
        ∷ nullable_text r.validation_status
        ∷ nullable_text r.insert_status
        ∷ number r.parsed_rows
        ∷ number r.master_inserted
        ∷ number r.master_skipped
        ∷ number r.detail_inserted
        ∷ number r.detail_skipped
        ∷ number r.issue_count
        ∷ text metadata
        ∷ [])

  -- `_issue_parameters`
  unfoldable pub issue_parameters : IssueRecord O → Result (List (Object O))
  unfolding stable_issue_uuid
  issue_parameters i = do
    id ← stable_issue_uuid i
    metadata ← metadata_payload tools i.metadata
    ok (
        text id
        ∷ text i.run_id
        ∷ nullable_text i.source_family
        ∷ nullable_int i.target_year
        ∷ text i.stage
        ∷ text i.code
        ∷ text i.severity
        ∷ nullable_text i.field_name
        ∷ text i.message
        ∷ text metadata
        ∷ [])
