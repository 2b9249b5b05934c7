-- ===== src/History/Repository/Persisted.antt =====
-- What persisting a history command leaves in the database.
use carbon_ops_parser.Prelude.{
  String, Option, none, some, List, [], ◌∷◌, length, length-map, ◌≡◌, ◌≢◌, refl, sym, ◌∙◌,
}
use carbon_ops_parser.Exec.{PyException, Result, ok, raised, Exec}
use carbon_ops_parser.Exec.Ensures.{Ensures, Ensures-bind, Ensures-try}
use carbon_ops_parser.YearState.{commit_if}
use carbon_ops_parser.History.Records.{
  HistoryStatus, HistoryIssue, HistoryCommand, HistoryPersistResult,
}
use carbon_ops_parser.History.Validate.{Dumps, validate_ingestion_run_history_command}
use carbon_ops_parser.History.Sanitize.{
  sanitized_ingestion_run_history_command, sanitized_source_result, sanitized_issue,
}
use carbon_ops_parser.History.Repository.{
  HistoryConnection, write_history, roll_back_history, persist_history_at,
  persist_ingestion_run_history,
}
use carbon_ops_parser.History.Repository.Database.{Rows, IsHistoryDatabase}
use carbon_ops_parser.History.Repository.Written.{
  AreOk, after_writes, history_writes, write_history-Committed,
}

module _ {C O : Type 0} (tools : Dumps O) (uuid5 : String → String)
    (committed working : C → Rows O) where
  -- What a persist result says of the database, under each status. A declared command had no issue,
  -- and the committed rows are those of the open transaction with all its statements; a command with
  -- issues leaves everything as it is; a database error leaves the committed rows as they are. The
  -- counts are those of the command, or zero.
  abbrev pub IsStoredAs : HistoryCommand O → C → HistoryPersistResult → C → HistoryStatus → Type 0
  IsStoredAs command c r c' HistoryStatus.declared =
      let sanitized = sanitized_ingestion_run_history_command tools command in
      (validate_ingestion_run_history_command tools command ≡ [])
      × (r.issues ≡ [])
      × (committed c' ≡ after_writes (history_writes tools uuid5 sanitized) (working c))
      × (working c' ≡ committed c')
      × AreOk (history_writes tools uuid5 sanitized)
      × (r.persisted_run_count ≡ 1)
      × (r.persisted_source_result_count ≡ length command.source_results)
      × (r.persisted_issue_count ≡ length command.issues)
  IsStoredAs command c r c' HistoryStatus.failed_validation =
      (c' ≡ c)
      × (r.issues ≡ validate_ingestion_run_history_command tools command)
      × (r.issues ≢ [])
      × (r.validation_failure_count ≡ length r.issues)
      × (r.persisted_run_count ≡ 0)
      × (r.persisted_source_result_count ≡ 0)
      × (r.persisted_issue_count ≡ 0)
  IsStoredAs command c r c' HistoryStatus.failed_database =
      (validate_ingestion_run_history_command tools command ≡ [])
      × (committed c' ≡ committed c)
      × (length r.issues ≡ 1)
      × (r.persisted_run_count ≡ 0)
      × (r.persisted_source_result_count ≡ 0)
      × (r.persisted_issue_count ≡ 0)

  -- An exception comes from the rollback alone.
  abbrev pub IsStored : HistoryCommand O → C → Result HistoryPersistResult → C → Type 0
  IsStored command c (ok r) c' = IsStoredAs command c r c' r.status
  IsStored command c (raised e) c' = committed c' ≡ committed c

module _ {C O : Type 0} (connection : HistoryConnection C O) (tools : Dumps O)
    (uuid5 : String → String) (committed working : C → Rows O)
    (database : IsHistoryDatabase C O connection committed working) where
  roll_back_history-keeps :
      (command : HistoryCommand O) (e : PyException) (c₀ c : C)
      → validate_ingestion_run_history_command tools command ≡ []
      → committed c ≡ committed c₀
      → Ensures
          (roll_back_history connection tools e)
          c
          (IsStored tools uuid5 committed working command c₀)
  unfolding roll_back_history
  roll_back_history-keeps command e c₀ c valid kept =
      Ensures-bind (commit_if connection.rollback) _ c
        (IsStored tools uuid5 committed working command c₀) (λ x h. undone connection.rollback refl)
        (λ u h. (valid, undone connection.rollback refl, refl, refl, refl, refl))
    where
      undone :
          (rollback : Option (Exec C (Unit {0})))
          → connection.rollback ≡ rollback
          → committed (commit_if rollback c).1 ≡ committed c₀
      undone none h = kept
      undone (some rollback) h = database.rollback_keeps rollback c h ∙ kept

  persist_history_at-IsStored :
      (issues : List HistoryIssue) (command : HistoryCommand O) (c : C)
      → validate_ingestion_run_history_command tools command ≡ issues
      → Ensures
          (persist_history_at connection tools uuid5 issues command)
          c
          (IsStored tools uuid5 committed working command c)
  unfolding persist_history_at
  persist_history_at-IsStored (issue ∷ issues) command c h =
      (refl, sym h, cc, refl, refl, refl, refl)
  persist_history_at-IsStored [] command c h =
      let sanitized = sanitized_ingestion_run_history_command tools command in
      let wrote =
        write_history-Committed connection tools uuid5 committed working database sanitized c in
      Ensures-try (write_history connection tools uuid5 sanitized) _ _ c
        (IsStored tools uuid5 committed working command c)
        (λ e k. roll_back_history-keeps command e c _ h (rw k at wrote))
        (λ u k. (
          h,
          refl,
          (rw k at wrote).0,
          (rw k at wrote).1,
          (rw k at wrote).2,
          refl,
          length-map (sanitized_source_result tools) command.source_results,
          length-map (sanitized_issue tools) command.issues,
        ))

pub persist_ingestion_run_history-IsStored :
    {C O : Type 0} (connection : HistoryConnection C O) (tools : Dumps O) (uuid5 : String → String)
    (committed working : C → Rows O) (database : IsHistoryDatabase C O connection committed working)
    (command : HistoryCommand O) (c : C)
    → Ensures
        (persist_ingestion_run_history connection tools uuid5 command)
        c
        (IsStored tools uuid5 committed working command c)
unfolding persist_ingestion_run_history
persist_ingestion_run_history-IsStored connection tools uuid5 committed working database command c =
    persist_history_at-IsStored connection tools uuid5 committed working database _ command c refl
