-- ===== src/Tests/History.antt =====
-- A history command, in a small database.
use carbon_ops_parser.Prelude.{String, none, some, [], ◌∷◌, ◌≡◌, ◌↔◌, ◌⊎◌, inl, inr, refl}
use mathlib.Core.Option
use carbon_ops_parser.Exec.{Exec, ok}
use carbon_ops_parser.Exec.Ensures.{Ensures}
use carbon_ops_parser.Text.{text_lt}
use carbon_ops_parser.Text.Number.{ℤ}
use carbon_ops_parser.History.Metadata.{
  Fields, end, entry, text, moment, is_sensitive_metadata_key, redacted_fields,
}
use carbon_ops_parser.History.Metadata.Redacted.{
  AreRedacted, find, stored, redacted_fields-IsRedacted,
}
use carbon_ops_parser.History.Records.{
  RunRecord, SourceResultRecord, IssueRecord, HistoryCommand, HistoryPersistResult,
}
use carbon_ops_parser.History.Validate.{Dumps, validate_ingestion_run_history_command}
use carbon_ops_parser.History.Validate.Accepted.{
  IsHistoryCommand, validate_ingestion_run_history_command-IsHistoryCommand,
}
use carbon_ops_parser.History.Repository.{
  HistoryConnection, history_declared, persist_ingestion_run_history,
}
use carbon_ops_parser.History.Repository.Database.{Rows, with_row, IsHistoryDatabase}
use carbon_ops_parser.History.Repository.Retry.{persist_ingestion_run_history_again}
use carbon_ops_parser.History.Sanitize.{sanitized_ingestion_run_history_command}

abbrev redact : String → String
redact s = "safe"

abbrev pub tools : {O : Type 0} → Dumps O
tools = record {
  redact_sensitive_text = redact;
  dumps = λ v. ok "{}";
  compact_dumps = λ v. ok "[]";
}

abbrev metadata : Fields String
metadata =
    entry "token" (text "abc") (entry "at" (moment "safe") (entry "note" (text "password=1") end))

redacted_is :
    redacted_fields redact metadata
    ≡ entry "at" (text "safe") (entry "note" (text "safe") (entry "token" (text "***") end))
unfolding redacted_fields text_lt is_sensitive_metadata_key
redacted_is = refl

-- The safe texts are the redacted one and the redacted value.
abbrev IsSafe : String → Type 0
IsSafe s = (s ≡ "safe") ⊎ (s ≡ "***")

redacted_fields-IsRedacted_example :
    AreRedacted IsSafe (redacted_fields redact metadata)
    × ((k : String)
        → find k (redacted_fields redact metadata) ≡ Option.map (stored redact k) (find k metadata))
redacted_fields-IsRedacted_example =
    redacted_fields-IsRedacted redact IsSafe (λ s. inl refl) (inr refl) metadata
      (tt, (inl refl, (tt, tt)))

abbrev run_record : RunRecord String
run_record = record {
  run_id = "run-1";
  started_at = some "now";
  status = "completed";
  finished_at = none;
  trigger_type = "operator";
  config_hash = none;
  enabled_source_families = "ghg_protocol" ∷ [];
  initial_year = some (ℤ.pos 2020);
  cycle_count = some (ℤ.pos 1);
  total_parsed_rows = ℤ.pos 1;
  total_inserted_count = ℤ.pos 1;
  total_skipped_duplicate_count = ℤ.pos 0;
  failure_count = ℤ.pos 0;
  metadata = some metadata;
}

abbrev sample_result : SourceResultRecord String
sample_result = record {
  run_id = "run-1";
  source_family = "ghg_protocol";
  status = "completed";
  target_year = some (ℤ.pos 2020);
  latest_year = none;
  download_status = some "downloaded";
  parse_status = some "parsed";
  validation_status = some "validated";
  insert_status = some "inserted";
  parsed_rows = ℤ.pos 1;
  master_inserted = ℤ.pos 1;
  master_skipped = ℤ.pos 0;
  detail_inserted = ℤ.pos 1;
  detail_skipped = ℤ.pos 0;
  issue_count = ℤ.pos 0;
  metadata = none;
}

abbrev sample_issue : IssueRecord String
sample_issue = record {
  run_id = "run-1";
  stage = "parser";
  code = "WARNING";
  message = "token=1";
  source_family = some "configured_runner";
  target_year = none;
  severity = "warning";
  field_name = none;
  metadata = none;
}

abbrev command : HistoryCommand String
command = record {
  run = run_record;
  source_results = sample_result ∷ [];
  issues = sample_issue ∷ [];
}

validate_ingestion_run_history_command-IsHistoryCommand_example :
    (validate_ingestion_run_history_command tools command ≡ []) ↔ IsHistoryCommand tools command
validate_ingestion_run_history_command-IsHistoryCommand_example =
    validate_ingestion_run_history_command-IsHistoryCommand tools command

command_is_valid : validate_ingestion_run_history_command tools command ≡ []
unfolding validate_ingestion_run_history_command
command_is_valid = refl

-- The committed rows and those of the open transaction.
abbrev Contents : Type 0
Contents = Rows String × Rows String

abbrev undo : Exec Contents (Unit {0})
undo (committed, working) = (ok tt, (committed, committed))

abbrev connection : HistoryConnection Contents String
connection = record {
  execute = λ s ps (committed, working). (ok tt, (committed, with_row working s ps));
  commit = some (λ (committed, working). (ok tt, (working, working)));
  rollback = some undo;
}

abbrev committed_rows : Contents → Rows String
committed_rows c = c.0

abbrev working_rows : Contents → Rows String
working_rows c = c.1

connection-IsHistoryDatabase :
    IsHistoryDatabase Contents String connection committed_rows working_rows
connection-IsHistoryDatabase = record {
  execute_keeps = λ s ps c. refl;
  execute_writes = λ s ps c h. refl;
  commit = λ (committed, working). (ok tt, (working, working));
  commit_is = refl;
  commit_ok = λ c h. (refl, refl);
  commit_raised = λ c e h. absurd (cc);
  rollback_keeps = λ rollback c h. let e : undo ≡ rollback = cc in rw (← e) refl;
}

abbrev empty : Contents
empty = ((λ table key. none), (λ table key. none))

abbrev declared : HistoryPersistResult
declared = history_declared (sanitized_ingestion_run_history_command tools command)

persisted-is :
    (persist_ingestion_run_history connection tools (λ s. s) command empty).0 ≡ ok declared
unfolding persist_ingestion_run_history
persisted-is = refl

abbrev once : Contents
once = (persist_ingestion_run_history connection tools (λ s. s) command empty).1

persisted_again_is :
    (persist_ingestion_run_history connection tools (λ s. s) command once).0 ≡ ok declared
unfolding persist_ingestion_run_history
persisted_again_is = refl

persist_ingestion_run_history_again_example :
    committed_rows (persist_ingestion_run_history connection tools (λ s. s) command once).1
    ≡ committed_rows once
persist_ingestion_run_history_again_example =
    persist_ingestion_run_history_again connection tools (λ s. s) committed_rows working_rows
      connection-IsHistoryDatabase command empty declared declared persisted-is refl
      persisted_again_is refl
