-- ===== src/Cycle/Summary.antt =====
-- pipeline/configured_cycle_summary.py: the lines that a cycle emits.
use carbon_ops_parser.Prelude.{ℕ, String, Option, none, some, List, [], ◌∷◌}
use carbon_ops_parser.Exec.{Exec, pure, ◌>>=◌, ◌>>◌}
use carbon_ops_parser.Text.Number.{concat, show}
use carbon_ops_parser.Year.Types.{FailureDetail, FamilyResult, RunSummary}
use carbon_ops_parser.Year.Run.{inserted_part}
use carbon_ops_parser.Cycle.Events.{
  run_status_value, family_status_value, configured_download_status_value,
  configured_parse_status_value,
}
use carbon_ops_parser.Cycle.Command.{CycleResult}

abbrev show_option : Option ℕ → String
show_option none = "None"
show_option (some n) = show n

abbrev show_text : Option String → String
show_text none = "None"
show_text (some s) = s

unfoldable pub summary_line : RunSummary → String
unfolding show
summary_line summary = concat (
    "summary completed="
    ∷ show summary.completed_family_count
    ∷ " no_available_source_year="
    ∷ show summary.no_available_source_year_count
    ∷ " failed="
    ∷ show summary.failed_family_count
    ∷ " parsed_rows="
    ∷ show summary.parsed_row_count
    ∷ " inserted="
    ∷ show summary.inserted_count
    ∷ " skipped_duplicates="
    ∷ show summary.skipped_duplicate_count
    ∷ [])

unfoldable pub source_line : {O : Type 0} → FamilyResult O → String
unfolding show configured_parse_status_value
source_line family =
    let inserted = family.insert_summary in
    concat (
      "source family="
      ∷ family.source_family
      ∷ " target_year="
      ∷ show family.year_state.target_year
      ∷ " latest_year="
      ∷ show_option family.year_state.latest_year
      ∷ " status="
      ∷ family_status_value family.status
      ∷ " download_status="
      ∷ configured_download_status_value family.download_result
      ∷ " parse_status="
      ∷ configured_parse_status_value family
      ∷ " parsed_rows="
      ∷ show family.parsed_row_count
      ∷ " master_inserted="
      ∷ show (inserted_part (λ s. s.master_inserted) inserted)
      ∷ " master_skipped="
      ∷ show (inserted_part (λ s. s.master_skipped) inserted)
      ∷ " detail_inserted="
      ∷ show (inserted_part (λ s. s.detail_inserted) inserted)
      ∷ " detail_skipped="
      ∷ show (inserted_part (λ s. s.detail_skipped) inserted)
      ∷ [])

module _ {W : Type 0} (redact_sensitive_text : String → String)
    (emit : String → Exec W (Unit {0})) where
  abbrev failure_line : FailureDetail → String
  failure_line failure = concat (
      "issue family="
      ∷ show_text failure.source_family
      ∷ " stage="
      ∷ failure.stage
      ∷ " code="
      ∷ failure.code
      ∷ " message="
      ∷ redact_sensitive_text failure.message
      ∷ [])

  unfoldable pub emit_failures : List FailureDetail → Exec W (Unit {0})
  emit_failures [] = pure tt
  emit_failures (failure ∷ failures) = do emit (failure_line failure); emit_failures failures

  unfoldable pub emit_families : {O : Type 0} → List (FamilyResult O) → Exec W (Unit {0})
  unfolding source_line emit_failures
  emit_families [] = pure tt
  emit_families (family ∷ families) = do
    emit (source_line family)
    emit_failures family.failures
    emit_families families

  -- `emit_configured_cycle_summary`
  unfoldable pub emit_configured_cycle_summary : {O : Type 0} → CycleResult O → Exec W (Unit {0})
  unfolding show summary_line emit_families ◌>>=◌
  emit_configured_cycle_summary cycle = do
    emit (
        concat (
          "cycle="
          ∷ show cycle.cycle_number
          ∷ " run_id="
          ∷ cycle.run_id
          ∷ " status="
          ∷ run_status_value cycle.result.status
          ∷ []))
    emit (summary_line cycle.result.summary)
    emit_families cycle.result.family_results
