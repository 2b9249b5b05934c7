-- ===== src/Cycle/History.antt =====
-- pipeline/configured_cycle_history.py: a cycle's history is persisted, whatever comes of it.
pub mod Kept
use carbon_ops_parser.Prelude.{ℕ, String, Option, none, some, List, [], ◌∷◌, length}
use carbon_ops_parser.Exec.{PyException, Exec, pure, ◌>>=◌, ◌>>◌, try_except}
use carbon_ops_parser.Text.Number.{concat}
use carbon_ops_parser.History.Records.{
  HistoryStatus, HistoryIssue, HistoryPersistResult, HistoryRepository,
}
use carbon_ops_parser.Cycle.Command.{CycleResult, build_ingestion_run_history_command}

-- `emit`, if there is one, with a line of text
abbrev pub emit_if : {W : Type 0} → Option (String → Exec W (Unit {0})) → String → Exec W (Unit {0})
emit_if none line = pure tt
emit_if (some emit) line = emit line

abbrev issue_line : String → String → String → String
issue_line run_id code message = concat (
    "history_persistence status=failed run_id=" ∷ run_id ∷ " issue code=" ∷ code ∷ " message="
    ∷ message ∷ [])

-- `ConfiguredCycleResult(...)`, with the outcome of the history
abbrev pub with_history : {O : Type 0} → CycleResult O → String → ℕ → CycleResult O
with_history cycle status issue_count = record cycle {
  history_persistence_status = some status;
  history_persistence_issue_count = issue_count;
}

module _ {W : Type 0} (redact_sensitive_text : String → String) where
  -- the loop that emits the issues
  unfoldable pub emit_issues :
      (String → Exec W (Unit {0})) → String → List HistoryIssue → Exec W (Unit {0})
  emit_issues emit run_id [] = pure tt
  emit_issues emit run_id (issue ∷ issues) = do
    emit (issue_line run_id issue.code (redact_sensitive_text issue.message))
    emit_issues emit run_id issues

  -- the lines for a failed result, and the number of its issues
  unfoldable pub emit_failed :
      Option (String → Exec W (Unit {0})) → String → List HistoryIssue → Exec W ℕ
  unfolding emit_issues
  emit_failed none run_id issues = pure (length issues)
  emit_failed (some emit) run_id [] = do
    emit (
        issue_line run_id "INGESTION_RUN_HISTORY_PERSISTENCE_FAILED"
          "run history persistence failed")
    pure 1
  emit_failed (some emit) run_id (issue ∷ issues) = do
    emit_issues emit run_id (issue ∷ issues)
    pure (length (issue ∷ issues))

module _ {W O : Type 0} (redact_sensitive_text : String → String) where
  -- What follows a persist that returned.
  unfoldable pub history_returned :
      Option (String → Exec W (Unit {0}))
      → CycleResult O
      → List HistoryIssue
      → HistoryStatus
      → Exec W (CycleResult O)
  unfolding emit_failed
  history_returned emit cycle issues HistoryStatus.declared = do
    emit_if emit (concat ("history_persistence status=declared run_id=" ∷ cycle.run_id ∷ []))
    pure (with_history cycle "declared" (length issues))
  history_returned emit cycle issues _ = do
    issue_count ← emit_failed redact_sensitive_text emit cycle.run_id issues
    pure (with_history cycle "failed" issue_count)

  -- The handler of a persist that raised.
  unfoldable pub history_raised :
      Option (String → Exec W (Unit {0})) → CycleResult O → PyException → Exec W (CycleResult O)
  history_raised emit cycle e = do
    emit_if emit (
        issue_line cycle.run_id "INGESTION_RUN_HISTORY_PERSISTENCE_EXCEPTION"
          (redact_sensitive_text e.text))
    pure (with_history cycle "failed" 1)

  -- `persist_configured_cycle_history`
  unfoldable pub persist_configured_cycle_history :
      HistoryRepository W O
      → Option (String → Exec W (Unit {0}))
      → O
      → O
      → CycleResult O
      → Exec W (CycleResult O)
  unfolding history_returned history_raised build_ingestion_run_history_command ◌>>=◌ try_except
  persist_configured_cycle_history repository emit started_at finished_at cycle =
      let command =
        build_ingestion_run_history_command redact_sensitive_text cycle started_at finished_at in
      try_except (repository.persist_ingestion_run_history command) (history_raised emit cycle)
        (λ (result : HistoryPersistResult). history_returned emit cycle result.issues result.status)
