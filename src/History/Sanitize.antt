-- ===== src/History/Sanitize.antt =====
-- `sanitized_ingestion_run_history_command` and `json_payload` of
-- persistence/ingestion_run_history.py: what of a command is stored.
use carbon_ops_parser.Prelude.{String, Option, some, map, get_or}
use carbon_ops_parser.Exec.{Result}
use carbon_ops_parser.History.Metadata.{Object, Fields, end, json_safe_redacted, redacted_fields}
use carbon_ops_parser.History.Records.{RunRecord, SourceResultRecord, IssueRecord, HistoryCommand}
use carbon_ops_parser.History.Validate.{Dumps}

module _ {O : Type 0} (tools : Dumps O) where
  -- `_json_safe_redacted(metadata or {})`
  abbrev pub safe_metadata : Option (Fields O) → Option (Fields O)
  safe_metadata metadata = some (redacted_fields tools.redact_sensitive_text (get_or metadata end))

  abbrev pub sanitized_run : RunRecord O → RunRecord O
  sanitized_run run = record run { metadata = safe_metadata run.metadata }

  abbrev pub sanitized_source_result : SourceResultRecord O → SourceResultRecord O
  sanitized_source_result r = record r { metadata = safe_metadata r.metadata }

  abbrev pub sanitized_issue : IssueRecord O → IssueRecord O
  sanitized_issue i = record i {
    message = tools.redact_sensitive_text i.message;
    metadata = safe_metadata i.metadata;
  }

  -- `sanitized_ingestion_run_history_command`
  abbrev pub sanitized_ingestion_run_history_command : HistoryCommand O → HistoryCommand O
  sanitized_ingestion_run_history_command command = record {
    run = sanitized_run command.run;
    source_results = map sanitized_source_result command.source_results;
    issues = map sanitized_issue command.issues;
  }

  -- `json_payload`
  abbrev pub json_payload : Object O → Result String
  json_payload value = tools.compact_dumps (json_safe_redacted tools.redact_sensitive_text value)
