-- ===== src/Year/Progress.antt =====
-- What a whole run does to the ledger of ingested years.
use carbon_ops_parser.Prelude.{
  ℕ, ◌+◌, String, Bool, true, false, ◌&&◌, ◌||◌, Option, none, some, List, [], ◌∷◌, ◌++◌, map, ◌==◌,
  ◌≡◌, refl, ◌∙◌, ◌⊎◌, inl, inr, sym, ap, arith, any_of, any_of-append, if◌then◌else◌, Bool-cases,
  ltb,
}
use mathlib.Core.List.{append_assoc, append-nil}
use carbon_ops_parser.Exec.{PyException, Result, ok, raised}
use carbon_ops_parser.Exec.Ensures.{Ensures, Ensures-bind}
use carbon_ops_parser.Catalog.{
  SourceFamily, postgresql_value, same_family, same_family_iff, same_family_self,
}
use carbon_ops_parser.Year.Types.{FamilyResult, RunRequest, RunResult, FailureDetail}
use carbon_ops_parser.Year.Select.{Selection, next_year, normalize_source_families}
use carbon_ops_parser.Year.Select.Selection.{
  Distinct, AreFamilies, eq-postgresql_value, normalize_source_families-IsSelection,
}
use carbon_ops_parser.Year.Boundary.{Dependencies}
use carbon_ops_parser.Year.Family.{run_source_family}
use carbon_ops_parser.Year.Run.{
  is_completed, failed_family_without_runtime, run_result, run_families, run_selected,
  run_production_e2e_year_orchestrator,
}
use carbon_ops_parser.Year.Ledger.{Years, IsLedger, after_result, Advances}
use carbon_ops_parser.Year.Advance.{run_source_family-Advances}

-- Some result is a completed run of the family.
abbrev pub completed_in : {O : Type 0} → SourceFamily → List (FamilyResult O) → Bool
completed_in g results =
    any_of (λ r. is_completed r.status && r.source_family == postgresql_value g) results

-- The latest year of a family that has or has not completed its next year.
abbrev pub advanced : ℕ → Option ℕ → Bool → Option ℕ
advanced initial latest completed = if completed then some (next_year latest initial) else latest

module _ {O : Type 0} (initial : ℕ) where
  -- The loop over `fs` from the years `t`, in terms of the results that it adds to `done`.
  abbrev AfterFamilies :
      Years
      → List SourceFamily
      → List (FamilyResult O)
      → Result (List (FamilyResult O))
      → Years
      → Type 0
  AfterFamilies t fs done (ok results) t' =
      (added : List (FamilyResult O)) × (results ≡ done ++ added)
      × ((g : SourceFamily) → t' g ≡ advanced initial (t g) (completed_in g added))
      × ((g : SourceFamily) → any_of (same_family g) fs ≡ false → completed_in g added ≡ false)
  AfterFamilies t fs done (raised e) t' =
      (g : SourceFamily)
      → ((t' g ≡ t g) ⊎ (t' g ≡ advanced initial (t g) true))
        × (any_of (same_family g) fs ≡ false → t' g ≡ t g)

  completed_in-cons :
      (f g : SourceFamily) (r : FamilyResult O) (rs : List (FamilyResult O))
      → r.source_family ≡ postgresql_value f
      → completed_in g (r ∷ rs) ≡ ((is_completed r.status && same_family f g) || completed_in g rs)
  completed_in-cons f g r rs e = rw (e, eq-postgresql_value f g)

  -- One family's result, then the rest of the loop.
  AfterFamilies-cons :
      (t t₁ t' : Years) (f : SourceFamily) (fs : List SourceFamily) (done : List (FamilyResult O))
      (r : FamilyResult O) (result : Result (List (FamilyResult O)))
      → any_of (same_family f) fs ≡ false
      → r.source_family ≡ postgresql_value f
      → t₁ ≡ after_result initial t f r
      → AfterFamilies t₁ fs (done ++ r ∷ []) result t'
      → AfterFamilies t (f ∷ fs) done result t'
  AfterFamilies-cons t t₁ t' f fs done r (raised e) fresh named step rest =
      λ g. ground (arith, rest g, ap (λ (y : Years). y g) step, same_family_iff f g, fresh)
  AfterFamilies-cons t t₁ t' f fs done r (ok results) fresh named step
        (added, same, years, others) =
      (
        r ∷ added,
        same ∙ append_assoc done (r ∷ []) added,
        λ g. ground (
          arith,
          years g,
          others g,
          ap (λ (y : Years). y g) step,
          completed_in-cons f g r added named,
          same_family_iff f g,
          fresh,
        ),
        λ g h. ground (arith, completed_in-cons f g r added named, others g),
      )

module _ {O : Type 0} (initial : ℕ) where
  AfterFamilies-raised :
      (t t' : Years) (f : SourceFamily) (fs : List SourceFamily) (done : List (FamilyResult O))
      (e : PyException)
      → Advances {O = O} initial t f (raised e) t'
      → AfterFamilies initial t (f ∷ fs) done (raised e) t'
  AfterFamilies-raised t t' f fs done e (inl same) g = ground (arith, ap (λ (y : Years). y g) same)
  AfterFamilies-raised t t' f fs done e (inr step) g = ground (
    arith,
    ap (λ (y : Years). y g) step,
    same_family_iff f g,
    same_family_iff g f,
    same_family_self f,
  )

module _ {W O : Type 0} (request : RunRequest) (deps : Dependencies W O) (latest : W → Years)
    (ledger : IsLedger deps latest) where
  run_families-AfterFamilies :
      (fs : List SourceFamily) (done : List (FamilyResult O)) (w : W)
      → Distinct fs
      → Ensures
          (run_families request deps done (map postgresql_value fs))
          w
          (λ r w'. AfterFamilies request.initial_year (latest w) fs done r (latest w'))
  unfolding run_families
  run_families-AfterFamilies [] done w d = ([], sym (append-nil done), λ g. refl, λ g h. refl)
  run_families-AfterFamilies (f ∷ fs) done w (fresh, d) =
      let Q : Result (List (FamilyResult O)) → W → Type 0 =
        λ r w'. AfterFamilies request.initial_year (latest w) (f ∷ fs) done r (latest w') in
      let step = run_source_family-Advances request deps latest ledger f w in
      let rest = λ (r : FamilyResult O).
        run_families-AfterFamilies fs (done ++ r ∷ [])
          (run_source_family request deps (postgresql_value f) w).1 d in
      Ensures-bind (run_source_family request deps (postgresql_value f)) _ w Q
        (λ e h g.
          AfterFamilies-raised request.initial_year (latest w) _ f fs done e (rw h at step) g)
        (λ r h.
          AfterFamilies-cons request.initial_year (latest w) _ _ f fs done r _ fresh
            (rw h at step).0 (rw h at step).1 (rest r))

  -- The results of the unknown names complete no family.
  unknown-not-completed :
      (g : SourceFamily) (unknown : List (String × FailureDetail))
      → completed_in g (map (failed_family_without_runtime {O = O} request) unknown) ≡ false
  unfolding failed_family_without_runtime
  unknown-not-completed g [] = refl
  unknown-not-completed g (u ∷ unknown) = unknown-not-completed g unknown

  -- What a run does to the years.
  abbrev AfterRun : Years → Result (RunResult O) → Years → Type 0
  AfterRun t (ok run) t' =
      (g : SourceFamily)
      → t' g ≡ advanced request.initial_year (t g) (completed_in g run.family_results)
  AfterRun t (raised e) t' =
      (g : SourceFamily) → (t' g ≡ t g) ⊎ (t' g ≡ advanced request.initial_year (t g) true)

  run_selected-AfterRun :
      (s : Selection) (w : W)
      → AreFamilies s.0
      → Ensures (run_selected request deps s) w (λ r w'. AfterRun (latest w) r (latest w'))
  unfolding run_selected run_result
  run_selected-AfterRun (selected, unknown) w (fs, same, d) =
      let after =
        run_families-AfterFamilies fs (map (failed_family_without_runtime request) unknown) w d in
      rw same (
        Ensures-bind _ _ w (λ r w'. AfterRun (latest w) r (latest w'))
          (λ e h g. (rw h at after g).0)
          (λ results h g.
            let (added, split, years, others) = rw h at after in
            rw (split, any_of-append, unknown-not-completed g unknown) (years g)))

  run-AfterRun :
      (w : W)
      → Ensures
          (run_production_e2e_year_orchestrator request deps)
          w
          (λ r w'. AfterRun (latest w) r (latest w'))
  unfolding run_production_e2e_year_orchestrator
  run-AfterRun w = elim (Bool-cases (ltb request.initial_year 1)) [
    | inl bad ↦ rw bad (λ g. inl refl)
    | inr good ↦ rw good (
        run_selected-AfterRun (normalize_source_families request.enabled_source_families) w
          (normalize_source_families-IsSelection request.enabled_source_families).families)
  ]

-- When a run returns its result, every family's latest ingested year has moved to the next target
-- year if one of its results is completed, and is what it was if none is. The boundaries are those
-- of a ledger of years.
pub years-after-run :
    {W O : Type 0} (request : RunRequest) (deps : Dependencies W O) (latest : W → Years)
    (ledger : IsLedger deps latest) (w : W) (run : RunResult O)
    → (run_production_e2e_year_orchestrator request deps w).0 ≡ ok run
    → (g : SourceFamily)
    → latest (run_production_e2e_year_orchestrator request deps w).1 g
      ≡ advanced request.initial_year (latest w g) (completed_in g run.family_results)
years-after-run request deps latest ledger w run h =
    rw h at (run-AfterRun request deps latest ledger w)

-- A year `next` that follows the latest one: the initial year if there is none yet, and otherwise one
-- more than it.
abbrev pub Follows : ℕ → Option ℕ → Option ℕ → Type 0
Follows initial none next = next ≡ some initial
Follows initial (some y) next = next ≡ some (y + 1)

next_year-Follows :
    (initial : ℕ) (latest next : Option ℕ)
    → next ≡ some (next_year latest initial)
    → Follows initial latest next
next_year-Follows initial none next h = h
next_year-Follows initial (some y) next h = h

-- However a run ends, by a result or by an exception, no family's latest ingested year has skipped a
-- year: it is what it was, or one more than it was, or the initial year if there was none.
pub years_never_skip :
    {W O : Type 0} (request : RunRequest) (deps : Dependencies W O) (latest : W → Years)
    (ledger : IsLedger deps latest) (w : W) (g : SourceFamily)
    → (latest (run_production_e2e_year_orchestrator request deps w).1 g ≡ latest w g)
      ⊎ Follows request.initial_year
          (latest w g)
          (latest (run_production_e2e_year_orchestrator request deps w).1 g)
years_never_skip {O} request deps latest ledger w g =
    go (run_production_e2e_year_orchestrator request deps w).0
      (run-AfterRun request deps latest ledger w)
  where
    step :
        (latest (run_production_e2e_year_orchestrator request deps w).1 g ≡ latest w g)
          ⊎ (latest (run_production_e2e_year_orchestrator request deps w).1 g
              ≡ some (next_year (latest w g) request.initial_year))
        → (latest (run_production_e2e_year_orchestrator request deps w).1 g ≡ latest w g)
          ⊎ Follows request.initial_year
              (latest w g)
              (latest (run_production_e2e_year_orchestrator request deps w).1 g)
    step (inl same) = inl same
    step (inr next) = inr (next_year-Follows request.initial_year (latest w g) _ next)

    go :
        (r : Result (RunResult O))
        → AfterRun request deps latest ledger
            (latest w)
            r
            (latest (run_production_e2e_year_orchestrator request deps w).1)
        → (latest (run_production_e2e_year_orchestrator request deps w).1 g ≡ latest w g)
          ⊎ Follows request.initial_year
              (latest w g)
              (latest (run_production_e2e_year_orchestrator request deps w).1 g)
    go (ok run) h = elim (Bool-cases (completed_in g run.family_results)) [
      | inl done ↦ step (inr (rw done at (h g)))
      | inr left ↦ inl (rw left at (h g))
    ]
    go (raised e) h = step (h g)
