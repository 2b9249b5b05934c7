-- ===== src/Year/Run.antt =====
-- `run_production_e2e_year_orchestrator` and its summary.
use carbon_ops_parser.Prelude.{
  ℕ, String, Bool, true, false, ◌&&◌, Option, none, some, List, [], ◌∷◌, ◌++◌, map, ltb, nat_eq,
  length, count_if, sum_of, concat_map, get_or, lookup, if◌then◌else◌,
}
use carbon_ops_parser.Exec.{Exec, pure, raise, ◌>>=◌, value_error}
use carbon_ops_parser.Year.Types.{
  RunStatus, FamilyStatus, FailureDetail, InsertSummary, FamilyResult, RunSummary, RunRequest,
  RunResult,
}
use carbon_ops_parser.Year.Select.{
  Selection, source_family_aliases, year_state_keys, year_state_of, normalize_source_families,
}
use carbon_ops_parser.Year.Boundary.{Dependencies, no_progress, failed_family}
use carbon_ops_parser.Year.Family.{run_source_family}

abbrev pub is_completed : FamilyStatus → Bool
is_completed FamilyStatus.completed = true
is_completed FamilyStatus.no_available_source_year = false
is_completed FamilyStatus.failed = false

abbrev pub is_no_available : FamilyStatus → Bool
is_no_available FamilyStatus.completed = false
is_no_available FamilyStatus.no_available_source_year = true
is_no_available FamilyStatus.failed = false

abbrev pub is_failed : FamilyStatus → Bool
is_failed FamilyStatus.completed = false
is_failed FamilyStatus.no_available_source_year = false
is_failed FamilyStatus.failed = true

-- What a family's insert summary adds to a sum over the families that have one.
abbrev pub inserted_part : (InsertSummary → ℕ) → Option InsertSummary → ℕ
inserted_part count none = 0
inserted_part count (some summary) = count summary

-- The status that a run's summary gives.
unfoldable pub run_status : RunSummary → RunStatus
run_status summary =
    if nat_eq summary.failed_family_count 0
    then RunStatus.completed
    else if nat_eq summary.completed_family_count 0
        && nat_eq summary.no_available_source_year_count 0
    then RunStatus.failed
    else RunStatus.completed_with_failures

module _ {O : Type 0} where
  -- `_failed_family_without_runtime`, which is called with no latest year
  unfoldable pub failed_family_without_runtime :
      RunRequest → String × FailureDetail → FamilyResult O
  failed_family_without_runtime request (source_family, failure) =
      let canonical = get_or (lookup source_family source_family_aliases) source_family in
      let key = get_or (lookup canonical year_state_keys) source_family in
      failed_family (year_state_of canonical key none request.initial_year) (failure ∷ [])
        no_progress

  -- `_summarize`
  unfoldable pub summarize : List String → List (FamilyResult O) → RunSummary
  summarize requested results = record {
    requested_family_count = length requested;
    completed_family_count = count_if (λ r. is_completed r.status) results;
    no_available_source_year_count = count_if (λ r. is_no_available r.status) results;
    failed_family_count = count_if (λ r. is_failed r.status) results;
    parsed_row_count = sum_of (λ r. r.parsed_row_count) results;
    attempted_insert_count =
        sum_of (λ r. inserted_part (λ s. s.attempted) r.insert_summary) results;
    inserted_count = sum_of (λ r. inserted_part (λ s. s.inserted) r.insert_summary) results;
    skipped_duplicate_count =
        sum_of (λ r. inserted_part (λ s. s.skipped_duplicate) r.insert_summary) results;
    failed_insert_count = sum_of (λ r. inserted_part (λ s. s.failed) r.insert_summary) results;
    failure_count = sum_of (λ r. length r.failures) results;
  }

  -- The result of a run, from the results of the families.
  unfoldable pub run_result : RunRequest → List String → List (FamilyResult O) → RunResult O
  unfolding summarize run_status
  run_result request selected results =
      let summary = summarize request.enabled_source_families results in
      record {
        status = run_status summary;
        request = request;
        selected_source_families = selected;
        family_results = results;
        summary = summary;
        failures = concat_map (λ r. r.failures) results;
      }

module _ {W O : Type 0} (request : RunRequest) (deps : Dependencies W O) where
  -- The loop over the selected families; `done` holds the results so far.
  unfoldable pub run_families : List (FamilyResult O) → List String → Exec W (List (FamilyResult O))
  run_families done [] = pure done
  run_families done (family ∷ families) = do
    result ← run_source_family request deps family
    run_families (done ++ result ∷ []) families

  -- From the selection on: the unknown names fail, and the selected families run.
  unfoldable pub run_selected : Selection → Exec W (RunResult O)
  unfolding run_families run_result failed_family_without_runtime
  run_selected (selected, unknown) = do
    results ← run_families (map (failed_family_without_runtime request) unknown) selected
    pure (run_result request selected results)

  -- `run_production_e2e_year_orchestrator`
  unfoldable pub run_production_e2e_year_orchestrator : Exec W (RunResult O)
  unfolding run_selected ◌>>=◌
  run_production_e2e_year_orchestrator =
      if ltb request.initial_year 1
      then raise (value_error "initial_year must be positive.")
      else run_selected (normalize_source_families request.enabled_source_families)
