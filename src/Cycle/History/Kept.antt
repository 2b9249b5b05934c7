-- ===== src/Cycle/History/Kept.antt =====
-- A cycle's history does not change what the cycle did.
use carbon_ops_parser.Prelude.{ℕ, String, Option, none, some, List, [], ◌∷◌, length, ◌≡◌, ◌≢◌, refl}
use carbon_ops_parser.Exec.{PyException, Result, ok, raised, Exec, pure, ◌>>=◌, ◌>>◌}
use carbon_ops_parser.Exec.Ensures.{Ensures, Ensures-bind, Ensures-try}
use carbon_ops_parser.History.Records.{
  HistoryStatus, HistoryIssue, HistoryPersistResult, HistoryRepository,
}
use carbon_ops_parser.Cycle.Command.{CycleResult, build_ingestion_run_history_command}
use carbon_ops_parser.Cycle.History.{
  emit_if, with_history, emit_issues, emit_failed, history_returned, history_raised,
  persist_configured_cycle_history,
}

module _ {O : Type 0} (cycle kept : CycleResult O) where
  -- The cycle with the outcome of its history, by the status that the repository returned.
  abbrev pub IsOutcomeOf : List HistoryIssue → HistoryStatus → Type 0
  IsOutcomeOf issues HistoryStatus.declared = kept ≡ with_history cycle "declared" (length issues)
  IsOutcomeOf issues _ =
      (n : ℕ) × (kept ≡ with_history cycle "failed" n) × (issues ≢ [] → n ≡ length issues)

  abbrev pub IsOutcome : Result HistoryPersistResult → Type 0
  IsOutcome (ok p) = IsOutcomeOf p.issues p.status
  IsOutcome (raised e) = kept ≡ with_history cycle "failed" 1

-- `emit` raised the exception.
abbrev pub RaisedBy : {W : Type 0} → Option (String → Exec W (Unit {0})) → PyException → Type 0
RaisedBy none e = ⊥
RaisedBy (some emit) e = (line : String) × (w : _) × ((emit line w).0 ≡ raised e)

-- Only `emit` raises, and a value that is returned meets `P`.
abbrev pub Emits :
    {W A : Type 0} → Option (String → Exec W (Unit {0})) → (A → Type 0) → Result A → W → Type 0
Emits emit P (ok a) w = P a
Emits emit P (raised e) w = RaisedBy emit e

-- A line is emitted, and then `a` is returned.
emit_if_then :
    {W A : Type 0} (emit : Option (String → Exec W (Unit {0}))) (line : String) (a : A) (w : W)
    → Ensures (emit_if emit line >> pure a) w (Emits emit (λ kept. kept ≡ a))
unfolding ◌>>=◌
emit_if_then none line a w = refl
emit_if_then {W} {A} (some emit) line a w =
    Ensures-bind (emit line) (λ u. pure a) w (Emits (some emit) (λ kept. kept ≡ a))
      (λ e h. (line, w, h)) (λ u h. refl)

module _ {W : Type 0} (redact_sensitive_text : String → String) where
  emit_issues-Emits :
      (emit : String → Exec W (Unit {0})) (run_id : String) (issues : List HistoryIssue) (w : W)
      → Ensures
          (emit_issues redact_sensitive_text emit run_id issues)
          w
          (Emits (some emit) (λ u. Unit {0}))
  unfolding emit_issues
  emit_issues-Emits emit run_id [] w = tt
  emit_issues-Emits emit run_id (issue ∷ issues) w =
      Ensures-bind (emit _) _ w (Emits (some emit) (λ u. Unit {0})) (λ e h. (_, w, h))
        (λ u h. emit_issues-Emits emit run_id issues _)

  emit_failed-Emits :
      (emit : Option (String → Exec W (Unit {0}))) (run_id : String) (issues : List HistoryIssue)
      (w : W)
      → Ensures
          (emit_failed redact_sensitive_text emit run_id issues)
          w
          (Emits emit (λ n. issues ≢ [] → n ≡ length issues))
  unfolding emit_failed
  emit_failed-Emits none run_id issues w = λ ne. refl
  emit_failed-Emits (some emit) run_id [] w =
      Ensures-bind (emit _) _ w (Emits (some emit) _) (λ e h. (_, w, h))
        (λ u h ne. absurd (ne refl))
  emit_failed-Emits (some emit) run_id (issue ∷ issues) w =
      let shown = emit_issues-Emits emit run_id (issue ∷ issues) w in
      Ensures-bind (emit_issues redact_sensitive_text emit run_id (issue ∷ issues)) _ w
        (Emits (some emit) _) (λ e h. rw h at shown) (λ u h ne. refl)

module _ {W O : Type 0} (redact_sensitive_text : String → String)
    (emit : Option (String → Exec W (Unit {0}))) (cycle : CycleResult O) where
  history_returned-Emits :
      (issues : List HistoryIssue) (status : HistoryStatus) (w : W)
      → Ensures
          (history_returned redact_sensitive_text emit cycle issues status)
          w
          (Emits emit (λ kept. IsOutcomeOf cycle kept issues status))
  unfolding history_returned
  history_returned-Emits issues HistoryStatus.declared w = emit_if_then emit _ _ w
  history_returned-Emits issues HistoryStatus.failed_validation w =
      let shown = emit_failed-Emits redact_sensitive_text emit cycle.run_id issues w in
      Ensures-bind (emit_failed redact_sensitive_text emit cycle.run_id issues) _ w (Emits emit _)
        (λ e h. rw h at shown) (λ n h. (n, refl, rw h at shown))
  history_returned-Emits issues HistoryStatus.failed_database w =
      let shown = emit_failed-Emits redact_sensitive_text emit cycle.run_id issues w in
      Ensures-bind (emit_failed redact_sensitive_text emit cycle.run_id issues) _ w (Emits emit _)
        (λ e h. rw h at shown) (λ n h. (n, refl, rw h at shown))

  history_raised-Emits :
      (x : PyException) (w : W)
      → Ensures
          (history_raised redact_sensitive_text emit cycle x)
          w
          (Emits emit (λ kept. kept ≡ with_history cycle "failed" 1))
  unfolding history_raised
  history_raised-Emits x w = emit_if_then emit _ _ w

-- Persisting a cycle's history returns the cycle itself with the outcome of its history, whatever the
-- repository does: "declared" if the repository declared the command, and "failed" with the issues
-- counted if it returned another status or raised. The only exceptions are those of `emit`.
pub persist_configured_cycle_history-IsOutcome :
    {W O : Type 0} (redact_sensitive_text : String → String) (repository : HistoryRepository W O)
    (emit : Option (String → Exec W (Unit {0}))) (started_at finished_at : O)
    (cycle : CycleResult O) (w : W)
    → Ensures
        (persist_configured_cycle_history redact_sensitive_text repository emit started_at
          finished_at cycle)
        w
        (Emits emit (λ kept.
          IsOutcome cycle kept
            (repository.persist_ingestion_run_history
              (build_ingestion_run_history_command redact_sensitive_text cycle started_at
                finished_at)
              w).0))
unfolding persist_configured_cycle_history
persist_configured_cycle_history-IsOutcome redact repository emit started_at finished_at cycle w =
    let persist =
      repository.persist_ingestion_run_history
        (build_ingestion_run_history_command redact cycle started_at finished_at) in
    Ensures-try persist _ _ w (Emits emit (λ kept. IsOutcome cycle kept (persist w).0))
      (λ e h. rw h (history_raised-Emits redact emit cycle e _))
      (λ p h. rw h (history_returned-Emits redact emit cycle p.issues p.status _))
