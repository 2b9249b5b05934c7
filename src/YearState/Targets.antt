-- ===== src/YearState/Targets.antt =====
-- The next year that the repository gives is the orchestrator's target year.
use carbon_ops_parser.Prelude.{ℕ, Option, none, some, ◌≡◌, refl, ◌∙◌, ap}
use carbon_ops_parser.Exec.{Result, ok, raised}
use carbon_ops_parser.Exec.Ensures.{Ensures, Ensures-bind}
use carbon_ops_parser.Catalog.{SourceFamily, value, coerce-value}
use carbon_ops_parser.Year.Select.{next_year}
use carbon_ops_parser.YearState.{
  Connection, SourceFamilyYearState, next_from, latest_of, latest_ingested_year, next_target_year,
  get_year_state,
}
use carbon_ops_parser.YearState.Database.{MaxYears, IsDatabase}
use carbon_ops_parser.YearState.Latest.{years_in, latest_of-IsRead, latest_ingested_year-IsRead}

next_from-next_year :
    (latest : Option ℕ) (initial : ℕ) → next_from latest initial ≡ next_year latest initial
next_from-next_year none initial = refl
next_from-next_year (some latest) initial = refl

module _ {C : Type 0} (connection : Connection C) (rows : C → MaxYears)
    (database : IsDatabase C connection rows) where
  -- The target year of the family, read with no change.
  abbrev pub IsTarget : ℕ → SourceFamily → C → Result ℕ → C → Type 0
  IsTarget initial f c (ok year) c' =
      (year ≡ next_year (years_in (rows c) f) initial) × (rows c' ≡ rows c)
  IsTarget initial f c (raised e) c' = rows c' ≡ rows c

  -- The state of the family, read with no change.
  abbrev pub IsState : ℕ → SourceFamily → C → Result SourceFamilyYearState → C → Type 0
  IsState initial f c (ok state) c' =
      (state.source_family ≡ f)
      × (state.latest_year ≡ years_in (rows c) f)
      × (state.next_year ≡ next_year (years_in (rows c) f) initial)
      × (rows c' ≡ rows c)
  IsState initial f c (raised e) c' = rows c' ≡ rows c

  -- On a law-abiding database, `next_target_year` changes no rows, and the year it returns is the one
  -- that the orchestrator selects for the family's latest year: the year after it, or the initial
  -- year if there is none.
  pub next_target_year-IsTarget :
      (initial : ℕ) (f : SourceFamily) (c : C)
      → Ensures (next_target_year connection initial (value f)) c (IsTarget initial f c)
  next_target_year-IsTarget initial f c =
      let read = latest_ingested_year-IsRead connection rows database f c in
      unfold next_target_year in
      Ensures-bind (latest_ingested_year connection (value f)) _ c (IsTarget initial f c)
        (λ e h. rw h at read)
        (λ year h.
          let (is, same) = rw h at read in
          (next_from-next_year year initial ∙ ap (λ y. next_year y initial) is, same))

  -- On a law-abiding database, `get_year_state` changes no rows, and returns the family with its
  -- latest year and the year that the orchestrator selects after it.
  pub get_year_state-IsState :
      (initial : ℕ) (f : SourceFamily) (c : C)
      → Ensures (get_year_state connection initial (value f)) c (IsState initial f c)
  unfolding get_year_state
  get_year_state-IsState initial f c =
      let read = latest_of-IsRead connection rows database f c in
      rw (coerce-value f) (
        Ensures-bind (latest_of connection f) _ c (IsState initial f c) (λ e h. rw h at read)
          (λ year h.
            let (is, same) = rw h at read in
            (refl, is, next_from-next_year year initial ∙ ap (λ y. next_year y initial) is, same)))
