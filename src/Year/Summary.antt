-- ===== src/Year/Summary.antt =====
-- The results of a run and their summary.
use carbon_ops_parser.Prelude.{
  sym, get_or, lookup, Option-cases, String, none, List, [], ◌∷◌, ◌++◌, map, ◌≡◌, refl, ◌∙◌, ap,
  All-append, ltb, Bool-cases, inl, inr,
}
use mathlib.Core.List.{append_assoc, append-nil, map-append}
use carbon_ops_parser.Exec.{Result, ok, raised}
use carbon_ops_parser.Exec.Ensures.{Ensures, Ensures-bind}
use carbon_ops_parser.Year.Types.{FailureDetail, FamilyResult, RunRequest, RunResult}
use carbon_ops_parser.Year.Select.{source_family_aliases, normalize_source_families}
use carbon_ops_parser.Year.Select.Selection.{unknown_names, normalize_source_families-IsSelection}
use carbon_ops_parser.Year.Named.{run_source_family-NamedAs}
use carbon_ops_parser.Year.Boundary.{Dependencies}
use carbon_ops_parser.Year.Family.{run_source_family}
use carbon_ops_parser.Year.Run.{
  failed_family_without_runtime, run_result, run_families, run_selected,
  run_production_e2e_year_orchestrator,
}
use carbon_ops_parser.Year.Outcome.{IsConsistent, KeepsReading}
use carbon_ops_parser.Year.Stages.{run_source_family-Guarded}
use carbon_ops_parser.Year.Counts.{AreConsistent, IsSummary, run_result-IsSummary}

-- The families that the results are for.
abbrev pub families_of : {O : Type 0} → List (FamilyResult O) → List String
families_of results = map (λ r. r.source_family) results

-- The results of the loop over `families`, which began with `done`.
abbrev ResultsOf :
    {O : Type 0} → List (FamilyResult O) → List String → Result (List (FamilyResult O)) → Type 0
ResultsOf done families (ok results) =
    AreConsistent results × (families_of results ≡ families_of done ++ families)
ResultsOf done families (raised e) = Unit

-- The result of a run is for the request, consistent and summarised, with a result for each requested
-- name that is unknown, in the order of the request, and then one for each selected family.
pub record IsRun (O : Type 0) (request : RunRequest) (run : RunResult O) : Type 0 where
  pub request_is : run.request ≡ request
  pub selected :
      run.selected_source_families ≡ (normalize_source_families request.enabled_source_families).0
  pub families :
      families_of run.family_results
      ≡ unknown_names request.enabled_source_families ++ run.selected_source_families
  pub consistent : AreConsistent run.family_results
  pub summary : IsSummary O run

canonical : String → String
canonical name = get_or (lookup name source_family_aliases) name

canonical-unknown :
    (name : String) → lookup name source_family_aliases ≡ none → canonical name ≡ name
unfolding canonical
canonical-unknown name unknown = ap (λ o. get_or o name) unknown

unknown_names-canonical :
    (requested : List String) → map canonical (unknown_names requested) ≡ unknown_names requested
unknown_names-canonical [] = refl
unknown_names-canonical (name ∷ requested) =
    elim (Option-cases (lookup name source_family_aliases)) [
      | inl unknown ↦
          rw (unknown, unknown_names-canonical requested)
            (ap (λ c. c ∷ unknown_names requested) (canonical-unknown name unknown))
      | inr (family, known) ↦ rw known (unknown_names-canonical requested)
    ]

families_of-unknown :
    (O : Type 0) (request : RunRequest) (unknown : List (String × FailureDetail))
    → families_of (map (failed_family_without_runtime {O = O} request) unknown)
      ≡ map canonical (map (λ u. u.0) unknown)
unfolding failed_family_without_runtime canonical
families_of-unknown O request [] = refl
families_of-unknown O request (u ∷ unknown) =
    ap (λ names. canonical u.0 ∷ names) (families_of-unknown O request unknown)

module _ {W O : Type 0} (request : RunRequest) (deps : Dependencies W O) where
  always : KeepsReading deps (λ w. Unit {0})
  always = record {
    read_keeps = λ key w h. tt;
    discover_keeps = λ family adapter r w e h. tt;
    download_keeps = λ family adapter r w e h. tt;
    parse_keeps = λ family parse a w e h. tt;
    validate_keeps = λ b w h. tt;
  }

  ResultsOf-cons :
      (done : List (FamilyResult O)) (r : FamilyResult O) (family : String) (families : List String)
      (result : Result (List (FamilyResult O)))
      → r.source_family ≡ family
      → ResultsOf (done ++ r ∷ []) families result
      → ResultsOf done (family ∷ families) result
  ResultsOf-cons done r family families (ok results) named (consistent, same) = (
    consistent,
    same ∙ rw (map-append, named) (append_assoc (families_of done) (family ∷ []) families),
  )
  ResultsOf-cons done r family families (raised e) named h = tt

  run_families-ResultsOf :
      (done : List (FamilyResult O)) (families : List String) (w : W)
      → AreConsistent done
      → Ensures (run_families request deps done families) w (λ r w'. ResultsOf done families r)
  unfolding run_families
  run_families-ResultsOf done [] w h = (h, sym (append-nil _))
  run_families-ResultsOf done (family ∷ families) w h =
      let step = run_source_family-Guarded request deps (λ w'. Unit {0}) always family w tt in
      let named = run_source_family-NamedAs request deps family w in
      let rest = λ (r : FamilyResult O).
        run_families-ResultsOf (done ++ r ∷ []) families
          (run_source_family request deps family w).1 in
      Ensures-bind (run_source_family request deps family) _ w
        (λ r w'. ResultsOf done (family ∷ families) r) (λ e k. tt)
        (λ r k.
          ResultsOf-cons done r family families _ (rw k at named)
            (rest r (All-append _ done (r ∷ []) h ((rw k at step).0, tt))))

  unknown-AreConsistent :
      (unknown : List (String × FailureDetail))
      → AreConsistent (map (failed_family_without_runtime {O = O} request) unknown)
  unfolding failed_family_without_runtime
  unknown-AreConsistent [] = tt
  unknown-AreConsistent (u ∷ unknown) =
      ((refl, cc, λ s e. absurd (cc)), unknown-AreConsistent unknown)

  abbrev RunOf : Result (RunResult O) → Type 0
  RunOf (ok run) = IsRun O request run
  RunOf (raised e) = Unit

  run_selected-RunOf :
      (w : W)
      → Ensures
          (run_selected request deps (normalize_source_families request.enabled_source_families))
          w
          (λ r w'. RunOf r)
  unfolding run_selected run_result
  run_selected-RunOf w =
      let (selected, unknown) = normalize_source_families request.enabled_source_families in
      let after =
        run_families-ResultsOf (map (failed_family_without_runtime request) unknown) selected w
          (unknown-AreConsistent unknown) in
      Ensures-bind _ _ w (λ r w'. RunOf r) (λ e k. tt)
        (λ results k.
          let (consistent, same) = rw k at after in
          record {
            request_is = refl;
            selected = refl;
            families =
                same
                ∙ ap (λ names. names ++ selected)
                    (families_of-unknown O request unknown
                      ∙ ap (map canonical)
                          (normalize_source_families-IsSelection
                            request.enabled_source_families).unknown
                      ∙ unknown_names-canonical request.enabled_source_families);
            consistent = consistent;
            summary = run_result-IsSummary request selected results consistent;
          })

  run-RunOf :
      (w : W) → Ensures (run_production_e2e_year_orchestrator request deps) w (λ r w'. RunOf r)
  unfolding run_production_e2e_year_orchestrator
  run-RunOf w = elim (Bool-cases (ltb request.initial_year 1)) [
    | inl bad ↦ rw bad tt
    | inr good ↦ rw good (run_selected-RunOf w)
  ]

-- A run that returns has, in this order, a result for every unknown name of the request and one for
-- every selected family, each for that name or family and consistent with its status. The summary
-- counts the requested names and the results of each status, and sums up the parsed rows and every
-- count of the insert summaries; every failure is listed and counted. The run is completed exactly
-- if there is no failure, and failed exactly if there are results and all of them failed.
pub run_production_e2e_year_orchestrator-IsRun :
    {W O : Type 0} (request : RunRequest) (deps : Dependencies W O) (w : W) (run : RunResult O)
    → (run_production_e2e_year_orchestrator request deps w).0 ≡ ok run
    → IsRun O request run
run_production_e2e_year_orchestrator-IsRun request deps w run h = rw h at (run-RunOf request deps w)

-- Every boundary but the insert and the recording of a year may be called by a family's run that
-- ends with no insert summary, and nothing else: what all of those keep still holds after it.
-- What the run returns is consistent with its status.
pub run_source_family-IsConsistent :
    {W O : Type 0} (request : RunRequest) (deps : Dependencies W O) (P : W → Type 0)
    (keeps : KeepsReading deps P) (family : String) (w : W) (r : FamilyResult O)
    → P w
    → (run_source_family request deps family w).0 ≡ ok r
    → IsConsistent r r.status
      × (r.insert_summary ≡ none → P (run_source_family request deps family w).1)
run_source_family-IsConsistent request deps P keeps family w r h e =
    rw e at (run_source_family-Guarded request deps P keeps family w h)
