-- ===== src/Cycle/Command/Reportable.antt =====
-- Which cycles have a history command that the history's validation accepts.
use mathlib.Core.Option
use carbon_ops_parser.Prelude.{
  ℕ, zero, suc, ◌<◌, String, true, Option, none, some, List, [], ◌∷◌, map, All, concat_map,
  All-append, contains, lookup, insert, lookup-insert, ◌==◌, ◌≡◌, refl, arith, Bool-cases, inl, inr,
}
use carbon_ops_parser.Text.{is_blank}
use carbon_ops_parser.Text.Number.{ℤ}
use carbon_ops_parser.Year.Types.{
  RunStatus, FamilyStatus, FailureDetail, FamilyResult, InsertSummary,
}
use carbon_ops_parser.History.Metadata.{text, number, Fields, end, entry}
use carbon_ops_parser.History.Validate.{
  Dumps, issue_source_families, validate_ingestion_run_history_command,
}
use carbon_ops_parser.History.Validate.Checks.{IsPositive, IsNatural, IfGiven, IsFilled, IsFamily}
use carbon_ops_parser.History.Validate.Accepted.{
  HasJson, IsSourceResult, IsIssueRecord, validate_ingestion_run_history_command-IsHistoryCommand,
}
use carbon_ops_parser.Cycle.Events.{run_status_value, family_status_value}
use carbon_ops_parser.Cycle.Events.Deduplicated.{iter_deduplicated_ingestion_issues-All}
use carbon_ops_parser.Cycle.Command.{
  CycleResult, summary_count, source_result_metadata, source_result_record, target_years_from,
  target_year_of, run_metadata, issue_record, build_ingestion_run_history_command,
}

-- The fields are texts and integers.
abbrev pub ArePlain : {O : Type 0} → Fields O → Type 0
ArePlain end = Unit
ArePlain (entry k (text s) fields) = ArePlain fields
ArePlain (entry k (number n) fields) = ArePlain fields
ArePlain (entry k v fields) = ⊥

-- A failure with a stage, a code and a message after redaction, and a known family if it has one.
abbrev pub IsReportableFailure : (String → String) → FailureDetail → Type 0
IsReportableFailure redact f =
    IfGiven (λ family. contains family issue_source_families ≡ true) f.source_family
    × IsFilled f.stage
    × IsFilled f.code
    × IsFilled (redact f.message)

-- A result of a known family, with positive years.
abbrev pub IsReportableFamily : {O : Type 0} → (String → String) → FamilyResult O → Type 0
IsReportableFamily redact r =
    IsFamily r.source_family
    × (0 < r.year_state.target_year)
    × IfGiven (λ y. 0 < y) r.year_state.latest_year
    × All (IsReportableFailure redact) r.failures

-- A cycle with an id, whose run is of known families with positive years and reportable failures.
pub record IsReportable (O : Type 0) (redact : String → String) (cycle : CycleResult O)
    : Type 0 where
  pub run_id : IsFilled cycle.run_id
  pub initial_year : 0 < cycle.result.request.initial_year
  pub selected : All IsFamily cycle.result.selected_source_families
  pub families : All (IsReportableFamily redact) cycle.result.family_results
  pub failures : All (IsReportableFailure redact) cycle.result.failures

positive : (y : ℕ) → 0 < y → IsPositive (ℤ.pos y)
positive zero h = absurd (omega arith)
positive (suc y) h = tt

positive_option :
    (o : Option ℕ) → IfGiven (λ y. 0 < y) o → IfGiven IsPositive (Option.map (λ y. ℤ.pos y) o)
positive_option none h = tt
positive_option (some y) h = positive y h

run_status_value-IsFilled : (s : RunStatus) → IsFilled (run_status_value s)
unfolding is_blank
run_status_value-IsFilled RunStatus.completed = refl
run_status_value-IsFilled RunStatus.completed_with_failures = refl
run_status_value-IsFilled RunStatus.failed = refl

family_status_value-IsFilled : (s : FamilyStatus) → IsFilled (family_status_value s)
unfolding is_blank
family_status_value-IsFilled FamilyStatus.completed = refl
family_status_value-IsFilled FamilyStatus.no_available_source_year = refl
family_status_value-IsFilled FamilyStatus.failed = refl

summary_count-IsNatural :
    (count : InsertSummary → ℕ) (s : Option InsertSummary) → IsNatural (summary_count count s)
summary_count-IsNatural count none = tt
summary_count-IsNatural count (some s) = tt

-- Every year in the dictionary is positive.
abbrev ArePositive : List (String × ℕ) → Type 0
ArePositive years = (k : String) → IfGiven (λ y. 0 < y) (lookup k years)

insert-ArePositive :
    (family : String) (year : ℕ) (years : List (String × ℕ))
    → 0 < year
    → ArePositive years
    → ArePositive (insert family year years)
insert-ArePositive family year years h all k =
    rw (lookup-insert family k year years)
      (elim (Bool-cases (family == k)) [ inl same ↦ rw same h | inr other ↦ rw other (all k) ])

target_year_of-IsPositive :
    (years : List (String × ℕ)) (family : Option String)
    → ArePositive years
    → IfGiven IsPositive (target_year_of years family)
target_year_of-IsPositive years none all = tt
target_year_of-IsPositive years (some family) all =
    positive_option (lookup family years) (all family)

module _ {O : Type 0} where
  source_result_metadata-ArePlain :
      (family : FamilyResult O) (year : Option ℕ) → ArePlain (source_result_metadata family year)
  source_result_metadata-ArePlain family none = tt
  source_result_metadata-ArePlain family (some year) = tt

  target_years_from-ArePositive :
      (redact : String → String) (families : List (FamilyResult O)) (years : List (String × ℕ))
      → All (IsReportableFamily redact) families
      → ArePositive years
      → ArePositive (target_years_from years families)
  target_years_from-ArePositive redact [] years h all = all
  target_years_from-ArePositive redact (r ∷ families) years ((known, target, latest, failures), h)
        all =
      target_years_from-ArePositive redact families _ h
        (insert-ArePositive r.source_family r.year_state.target_year years target all)

  family_failures_reportable :
      (redact : String → String) (families : List (FamilyResult O))
      → All (IsReportableFamily redact) families
      → All (IsReportableFailure redact) (concat_map (λ family. family.failures) families)
  family_failures_reportable redact [] h = tt
  family_failures_reportable redact (r ∷ families) ((known, target, latest, failures), h) =
      All-append _ r.failures _ failures (family_failures_reportable redact families h)

module _ {O : Type 0} (tools : Dumps O)
    (json : (fields : Fields O) → ArePlain fields → HasJson tools (some fields)) where
  map-IsSourceResult :
      (run_id : String) (families : List (FamilyResult O))
      → All (IsReportableFamily tools.redact_sensitive_text) families
      → All (IsSourceResult tools run_id) (map (source_result_record run_id) families)
  unfolding source_result_record
  map-IsSourceResult run_id [] h = tt
  map-IsSourceResult run_id (r ∷ families) ((known, target, latest, failures), h) = (
    record {
      same_run = refl;
      status = family_status_value-IsFilled r.status;
      family = known;
      target_year = positive r.year_state.target_year target;
      latest_year = positive_option r.year_state.latest_year latest;
      counts =
          let inserted =
            λ (count : InsertSummary → ℕ). summary_count-IsNatural count r.insert_summary in
          (
            tt,
            (
              inserted (λ i. i.master_inserted),
              (
                inserted (λ i. i.master_skipped),
                (inserted (λ i. i.detail_inserted), (inserted (λ i. i.detail_skipped), (tt, tt))),
              ),
            ),
          );
      metadata = json _ (source_result_metadata-ArePlain r r.recorded_ingested_year);
    },
    map-IsSourceResult run_id families h,
  )

  map-IsIssueRecord :
      (run_id : String) (years : List (String × ℕ)) (issues : List FailureDetail)
      → ArePositive years
      → All (IsReportableFailure tools.redact_sensitive_text) issues
      → All
          (IsIssueRecord tools run_id)
          (map (issue_record tools.redact_sensitive_text run_id years) issues)
  unfolding issue_record
  map-IsIssueRecord run_id years [] all h = tt
  map-IsIssueRecord run_id years (i ∷ issues) all ((family, stage, code, message), h) = (
    record {
      same_run = refl;
      family = family;
      target_year = target_year_of-IsPositive years i.source_family all;
      stage = stage;
      code = code;
      message = message;
      metadata = json end tt;
    },
    map-IsIssueRecord run_id years issues all h,
  )

-- The history command of a cycle passes the history's validation, if the cycle has an id, its run is
-- of known families with positive years, and every failure has a stage, a code, a message after
-- redaction, and a known family if it names one. Metadata of texts and integers has a JSON text.
pub build_ingestion_run_history_command_accepted :
    {O : Type 0} (tools : Dumps O)
    (json : (fields : Fields O) → ArePlain fields → HasJson tools (some fields))
    (cycle : CycleResult O) (started_at finished_at : O)
    → IsReportable O tools.redact_sensitive_text cycle
    → validate_ingestion_run_history_command tools (
        build_ingestion_run_history_command tools.redact_sensitive_text cycle started_at
          finished_at)
      ≡ []
unfolding build_ingestion_run_history_command
build_ingestion_run_history_command_accepted tools json cycle started_at finished_at h =
    let redact = tools.redact_sensitive_text in
    let failures = family_failures_reportable redact cycle.result.family_results h.families in
    (validate_ingestion_run_history_command-IsHistoryCommand tools _).1 (record {
      run = record {
        run_id = h.run_id;
        started_at = tt;
        status = run_status_value-IsFilled cycle.result.status;
        initial_year = positive cycle.result.request.initial_year h.initial_year;
        cycle_count = tt;
        total_parsed_rows = tt;
        total_inserted_count = tt;
        total_skipped_duplicate_count = tt;
        failure_count = tt;
        families = h.selected;
        metadata = json (run_metadata cycle.result.summary) tt;
      };
      source_results =
          map-IsSourceResult tools json cycle.run_id cycle.result.family_results h.families;
      issues =
          map-IsIssueRecord tools json cycle.run_id _ _
            (target_years_from-ArePositive redact cycle.result.family_results [] h.families
              (λ k. tt))
            (iter_deduplicated_ingestion_issues-All redact cycle.result (IsReportableFailure redact)
              failures h.failures);
    })
