-- ===== src/Cycle/Runner/Keeps.antt =====
-- What emitting lines and persisting the history keep, if each line and each persist keeps it.
use carbon_ops_parser.Prelude.{String, Option, none, some, List, [], ◌∷◌, ◌≡◌, refl, ◌∙◌}
use carbon_ops_parser.Exec.{PyException, Exec, pure, ◌>>=◌, try_except}
use carbon_ops_parser.Exec.Ensures.{Ensures-bind, Ensures-try}
use carbon_ops_parser.Year.Types.{FailureDetail, FamilyResult}
use carbon_ops_parser.History.Records.{
  HistoryStatus, HistoryIssue, HistoryCommand, HistoryPersistResult, HistoryRepository,
}
use carbon_ops_parser.Cycle.Command.{CycleResult}
use carbon_ops_parser.Cycle.Summary.{emit_failures, emit_families, emit_configured_cycle_summary}
use carbon_ops_parser.Cycle.History.{
  emit_if, emit_issues, emit_failed, history_returned, history_raised,
  persist_configured_cycle_history,
}

-- What is seen of the world stays the same, whether the action raises or not.
pub record KeepsSeen (W L A : Type 0) (seen : W → L) (m : Exec W A) : Type 0 where
  pub from : (w : W) → seen (m w).1 ≡ seen w

module _ {W L : Type 0} (seen : W → L) where
  abbrev pub Keeps : {A : Type 0} → Exec W A → Type 0
  Keeps {A} m = KeepsSeen W L A seen m

  -- Returning keeps it.
  pub Keeps-pure : {A : Type 0} (a : A) → Keeps (pure a)
  Keeps-pure a = record { from = λ w. refl }

  pub Keeps-bind :
      {A B : Type 0} (m : Exec W A) (f : A → Exec W B)
      → Keeps m
      → ((a : A) → Keeps (f a))
      → Keeps (m >>= f)
  Keeps-bind m f first rest = record {
    from = λ w.
        Ensures-bind m f w (λ r w'. seen w' ≡ seen w) (λ e h. first.from w)
          (λ a h. (rest a).from _ ∙ first.from w);
  }

  pub Keeps-try :
      {A B : Type 0} (m : Exec W A) (h : PyException → Exec W B) (f : A → Exec W B)
      → Keeps m
      → ((e : PyException) → Keeps (h e))
      → ((a : A) → Keeps (f a))
      → Keeps (try_except m h f)
  Keeps-try m h f first handled rest = record {
    from = λ w.
        Ensures-try m h f w (λ r w'. seen w' ≡ seen w) (λ e k. (handled e).from _ ∙ first.from w)
          (λ a k. (rest a).from _ ∙ first.from w);
  }

  -- Every line keeps it.
  abbrev pub KeepsLines : (String → Exec W (Unit {0})) → Type 0
  KeepsLines emit = (line : String) → Keeps (emit line)

  abbrev pub KeepsLinesIf : Option (String → Exec W (Unit {0})) → Type 0
  KeepsLinesIf none = Unit
  KeepsLinesIf (some emit) = KeepsLines emit

  module _ (redact : String → String) (emit : String → Exec W (Unit {0}))
      (keeps : KeepsLines emit) where
    emit_failures-Keeps :
        (failures : List FailureDetail) → Keeps (emit_failures redact emit failures)
    unfolding emit_failures
    emit_failures-Keeps [] = Keeps-pure tt
    emit_failures-Keeps (failure ∷ failures) =
        Keeps-bind _ _ (keeps _) (λ u. emit_failures-Keeps failures)

    emit_families-Keeps :
        {O : Type 0} (families : List (FamilyResult O)) → Keeps (emit_families redact emit families)
    unfolding emit_families
    emit_families-Keeps [] = Keeps-pure tt
    emit_families-Keeps (family ∷ families) =
        Keeps-bind _ _ (keeps _) λ u.
          Keeps-bind _ _ (emit_failures-Keeps family.failures) λ u'. emit_families-Keeps families

    pub emit_configured_cycle_summary-Keeps :
        {O : Type 0} (cycle : CycleResult O)
        → Keeps (emit_configured_cycle_summary redact emit cycle)
    unfolding emit_configured_cycle_summary
    emit_configured_cycle_summary-Keeps cycle =
        Keeps-bind _ _ (keeps _)
          λ u. Keeps-bind _ _ (keeps _) λ u'. emit_families-Keeps cycle.result.family_results

    emit_issues-Keeps :
        (run_id : String) (issues : List HistoryIssue)
        → Keeps (emit_issues redact emit run_id issues)
    unfolding emit_issues
    emit_issues-Keeps run_id [] = Keeps-pure tt
    emit_issues-Keeps run_id (issue ∷ issues) =
        Keeps-bind _ _ (keeps _) (λ u. emit_issues-Keeps run_id issues)

  module _ (redact : String → String) where
    emit_if-Keeps :
        (emit : Option (String → Exec W (Unit {0}))) (line : String)
        → KeepsLinesIf emit
        → Keeps (emit_if emit line)
    emit_if-Keeps none line keeps = Keeps-pure tt
    emit_if-Keeps (some emit) line keeps = keeps line

    emit_failed-Keeps :
        (emit : Option (String → Exec W (Unit {0}))) (run_id : String) (issues : List HistoryIssue)
        → KeepsLinesIf emit
        → Keeps (emit_failed redact emit run_id issues)
    unfolding emit_failed
    emit_failed-Keeps none run_id issues keeps = Keeps-pure _
    emit_failed-Keeps (some emit) run_id [] keeps = Keeps-bind _ _ (keeps _) (λ u. Keeps-pure _)
    emit_failed-Keeps (some emit) run_id (issue ∷ issues) keeps =
        Keeps-bind _ _ (emit_issues-Keeps redact emit keeps run_id (issue ∷ issues))
          (λ u. Keeps-pure _)

    history_returned-Keeps :
        {O : Type 0} (emit : Option (String → Exec W (Unit {0}))) (cycle : CycleResult O)
        (issues : List HistoryIssue) (status : HistoryStatus)
        → KeepsLinesIf emit
        → Keeps (history_returned redact emit cycle issues status)
    unfolding history_returned
    history_returned-Keeps emit cycle issues HistoryStatus.declared keeps =
        Keeps-bind _ _ (emit_if-Keeps emit _ keeps) (λ u. Keeps-pure _)
    history_returned-Keeps emit cycle issues HistoryStatus.failed_validation keeps =
        Keeps-bind _ _ (emit_failed-Keeps emit cycle.run_id issues keeps) (λ u. Keeps-pure _)
    history_returned-Keeps emit cycle issues HistoryStatus.failed_database keeps =
        Keeps-bind _ _ (emit_failed-Keeps emit cycle.run_id issues keeps) (λ u. Keeps-pure _)

    pub persist_configured_cycle_history-Keeps :
        {O : Type 0} (repository : HistoryRepository W O)
        (emit : Option (String → Exec W (Unit {0}))) (started_at finished_at : O)
        (cycle : CycleResult O)
        → ((command : HistoryCommand O) → Keeps (repository.persist_ingestion_run_history command))
        → KeepsLinesIf emit
        → Keeps
            (persist_configured_cycle_history redact repository emit started_at finished_at cycle)
    unfolding persist_configured_cycle_history history_raised
    persist_configured_cycle_history-Keeps repository emit started_at finished_at cycle persists
          keeps =
        Keeps-try _ _ _ (persists _)
          (λ e. Keeps-bind _ _ (emit_if-Keeps emit _ keeps) (λ u. Keeps-pure _))
          (λ (p : HistoryPersistResult). history_returned-Keeps emit cycle p.issues p.status keeps)
