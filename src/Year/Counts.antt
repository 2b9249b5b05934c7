-- ===== src/Year/Counts.antt =====
-- What a run's summary counts.
use carbon_ops_parser.Prelude.{
  Bool, Option, some, append-eq-nil, ℕ, ◌+◌, ◌<◌, String, true, false, none, List, [], ◌∷◌, ◌≡◌,
  ◌≢◌, ◌↔◌, ◌⊎◌, refl, ap, arith, All, length, length-append, count_if, sum_of, concat_map, inl,
  inr,
}
use carbon_ops_parser.Year.Types.{
  InsertSummary, RunStatus, FamilyStatus, FamilyResult, RunRequest, RunResult,
}
use carbon_ops_parser.Year.Run.{inserted_part, is_completed, is_no_available, is_failed, run_result}
use carbon_ops_parser.Year.Outcome.{IsConsistent}

-- Every result is consistent with its status.
abbrev pub AreConsistent : {O : Type 0} → List (FamilyResult O) → Type 0
AreConsistent results = All (λ r. IsConsistent r r.status) results

module _ {O : Type 0} where
  partition_count :
      (rs : List (FamilyResult O))
      → count_if (λ r. is_completed r.status) rs
          + count_if (λ r. is_no_available r.status) rs
          + count_if (λ r. is_failed r.status) rs
        ≡ length rs
  partition_count [] = refl
  partition_count (r ∷ rs) = ground (arith, partition_count rs)

  count-failures :
      (rs : List (FamilyResult O))
      → sum_of (λ r. length r.failures) rs ≡ length (concat_map (λ r. r.failures) rs)
  count-failures [] = refl
  count-failures (r ∷ rs) =
      omega
        (arith, count-failures rs, length-append {0} r.failures (concat_map (λ r'. r'.failures) rs))

  failures_of_status :
      (r : FamilyResult O) (s : FamilyStatus)
      → IsConsistent r s
      → ((is_failed s ≡ true) × (r.failures ≢ [])) ⊎ ((is_failed s ≡ false) × (r.failures ≡ []))
  failures_of_status r FamilyStatus.completed (recorded, none_failed, insert, valid) =
      inr (refl, none_failed)
  failures_of_status r FamilyStatus.no_available_source_year
        (recorded, none_failed, insert, download) =
      inr (refl, none_failed)
  failures_of_status r FamilyStatus.failed (recorded, some_failed, rest) = inl (refl, some_failed)

  no_failed :
      (rs : List (FamilyResult O))
      → AreConsistent rs
      → (count_if (λ r. is_failed r.status) rs ≡ 0) ↔ (concat_map (λ r. r.failures) rs ≡ [])
  no_failed [] h = (λ e. refl, λ e. refl)
  no_failed (r ∷ rs) (c, h) = elim (failures_of_status r r.status c) [
    | inl (bad, ne) ↦
        (λ e. absurd (ground arith), λ e. absurd (ne ((append-eq-nil r.failures _).0 e).0))
    | inr (good, eq) ↦ (
      λ e. rw eq ((no_failed rs h).0 (ground arith)),
      λ e.
          rw good (ap (λ (n : ℕ). 0 + n) ((no_failed rs h).1 ((append-eq-nil r.failures _).0 e).1)),
    )
  ]

abbrev pub same_status : FamilyStatus → FamilyStatus → Bool
same_status FamilyStatus.completed FamilyStatus.completed = true
same_status FamilyStatus.no_available_source_year FamilyStatus.no_available_source_year = true
same_status FamilyStatus.failed FamilyStatus.failed = true
same_status _ _ = false

-- How many results have the status.
abbrev pub count_of : {O : Type 0} → FamilyStatus → List (FamilyResult O) → ℕ
count_of status results = count_if (λ r. same_status status r.status) results

-- The insert summaries of the results that have one.
abbrev onto : Option InsertSummary → List InsertSummary → List InsertSummary
onto none summaries = summaries
onto (some s) summaries = s ∷ summaries

abbrev pub insert_summaries : {O : Type 0} → List (FamilyResult O) → List InsertSummary
insert_summaries [] = []
insert_summaries (r ∷ rs) = onto r.insert_summary (insert_summaries rs)

-- What a run's result says of its family results: how many there are of each status, how many names
-- were requested, the sums of the parsed rows and of each count of the insert summaries, that every
-- failure is listed and counted, and that the status tells whether there was none, or nothing else.
pub record IsSummary (O : Type 0) (run : RunResult O) : Type 0 where
  pub requested : run.summary.requested_family_count ≡ length run.request.enabled_source_families
  pub completed :
      run.summary.completed_family_count ≡ count_of FamilyStatus.completed run.family_results
  pub no_available :
      run.summary.no_available_source_year_count
      ≡ count_of FamilyStatus.no_available_source_year run.family_results
  pub failed : run.summary.failed_family_count ≡ count_of FamilyStatus.failed run.family_results
  pub families :
      run.summary.completed_family_count + run.summary.no_available_source_year_count
        + run.summary.failed_family_count
      ≡ length run.family_results
  pub parsed : run.summary.parsed_row_count ≡ sum_of (λ r. r.parsed_row_count) run.family_results
  pub attempted :
      run.summary.attempted_insert_count
      ≡ sum_of (λ s. s.attempted) (insert_summaries run.family_results)
  pub inserted :
      run.summary.inserted_count ≡ sum_of (λ s. s.inserted) (insert_summaries run.family_results)
  pub skipped :
      run.summary.skipped_duplicate_count
      ≡ sum_of (λ s. s.skipped_duplicate) (insert_summaries run.family_results)
  pub failed_inserts :
      run.summary.failed_insert_count ≡ sum_of (λ s. s.failed) (insert_summaries run.family_results)
  pub listed : run.failures ≡ concat_map (λ r. r.failures) run.family_results
  pub counted : run.summary.failure_count ≡ length run.failures
  pub completed_iff : (run.status ≡ RunStatus.completed) ↔ (run.failures ≡ [])
  pub failed_iff : (run.status ≡ RunStatus.failed) ↔ (
      (run.summary.failed_family_count ≡ length run.family_results)
      × (0 < length run.family_results))

is_completed_same : (s : FamilyStatus) → is_completed s ≡ same_status FamilyStatus.completed s
is_completed_same FamilyStatus.completed = refl
is_completed_same FamilyStatus.no_available_source_year = refl
is_completed_same FamilyStatus.failed = refl

is_no_available_same :
    (s : FamilyStatus) → is_no_available s ≡ same_status FamilyStatus.no_available_source_year s
is_no_available_same FamilyStatus.completed = refl
is_no_available_same FamilyStatus.no_available_source_year = refl
is_no_available_same FamilyStatus.failed = refl

is_failed_same : (s : FamilyStatus) → is_failed s ≡ same_status FamilyStatus.failed s
is_failed_same FamilyStatus.completed = refl
is_failed_same FamilyStatus.no_available_source_year = refl
is_failed_same FamilyStatus.failed = refl

sum_of-onto :
    (count : InsertSummary → ℕ) (o : Option InsertSummary) (summaries : List InsertSummary)
    → inserted_part count o + sum_of count summaries ≡ sum_of count (onto o summaries)
sum_of-onto count none summaries = omega arith
sum_of-onto count (some s) summaries = refl

module _ {O : Type 0} where
  count_if-count_of :
      (p : FamilyStatus → Bool) (status : FamilyStatus)
      → ((s : FamilyStatus) → p s ≡ same_status status s)
      → (rs : List (FamilyResult O)) → count_if (λ r. p r.status) rs ≡ count_of status rs
  count_if-count_of p status same [] = refl
  count_if-count_of p status same (r ∷ rs) =
      rw (same r.status, count_if-count_of p status same rs) refl

  sum_of-insert_summaries :
      (count : InsertSummary → ℕ) (rs : List (FamilyResult O))
      → sum_of (λ r. inserted_part count r.insert_summary) rs ≡ sum_of count (insert_summaries rs)
  sum_of-insert_summaries count [] = refl
  sum_of-insert_summaries count (r ∷ rs) =
      rw (sum_of-insert_summaries count rs)
        (sum_of-onto count r.insert_summary (insert_summaries rs))

pub run_result-IsSummary :
    {O : Type 0} (request : RunRequest) (selected : List String) (rs : List (FamilyResult O))
    → AreConsistent rs
    → IsSummary O (run_result request selected rs)
unfolding run_result
run_result-IsSummary request selected rs h = record {
  requested = refl;
  completed = count_if-count_of is_completed FamilyStatus.completed is_completed_same rs;
  no_available =
      count_if-count_of is_no_available FamilyStatus.no_available_source_year is_no_available_same
        rs;
  failed = count_if-count_of is_failed FamilyStatus.failed is_failed_same rs;
  families = partition_count rs;
  parsed = refl;
  attempted = sum_of-insert_summaries (λ s. s.attempted) rs;
  inserted = sum_of-insert_summaries (λ s. s.inserted) rs;
  skipped = sum_of-insert_summaries (λ s. s.skipped_duplicate) rs;
  failed_inserts = sum_of-insert_summaries (λ s. s.failed) rs;
  listed = refl;
  counted = count-failures rs;
  completed_iff =
      (λ e. (no_failed rs h).0 (ground arith), λ e. ground (arith, (no_failed rs h).1 e));
  failed_iff = ground (arith, partition_count rs);
}
