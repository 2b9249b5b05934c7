-- ===== src/YearState/Latest.antt =====
-- The repository reads and records the latest years of a law-abiding connection.
use carbon_ops_parser.Prelude.{
  ℕ, false, Option, none, some, or_else, ltb, ◌==◌, ◌≡◌, refl, ◌∙◌, ap, fun_ext, ◌⊎◌, inl, inr,
  arith, Bool-cases,
}
use carbon_ops_parser.Exec.{Exec, Result, ok, raised}
use carbon_ops_parser.Exec.Ensures.{Ensures, Ensures-bind}
use carbon_ops_parser.Catalog.{
  SourceFamily, ghg, defra, ipcc, value, postgresql_value, coerce-value,
}
use carbon_ops_parser.Year.Ledger.{Years, set_year, IsNewYear}
use carbon_ops_parser.YearState.{
  Connection, latest_of, latest_legacy, latest_ingested_year, record_of, record_ingested_year,
  commit_if,
}
use carbon_ops_parser.YearState.Database.{MaxYears, add_year, IsDatabase}

-- The latest year of a family: under its PostgreSQL identifier, or else under the older one.
abbrev pub years_in : MaxYears → Years
years_in m f = or_else (m (postgresql_value f)) (m (value f))

-- Recording a new year sets the family's latest year, and no other family's.
pub years_in-add_year :
    (m : MaxYears) (f : SourceFamily) (y : ℕ)
    → IsNewYear (years_in m f) y
    → years_in (add_year m (postgresql_value f) y) ≡ set_year (years_in m) f y
years_in-add_year m f y fresh = fun_ext (at f fresh)
  where
    at :
        (f : SourceFamily)
        → IsNewYear (years_in m f) y
        → (g : SourceFamily)
        → years_in (add_year m (postgresql_value f) y) g ≡ set_year (years_in m) f y g
    at ghg h ghg = ground arith
    at ghg h defra = ground arith
    at ghg h ipcc = ground arith
    at defra h ghg = ground arith
    at defra h defra = ground arith
    at defra h ipcc = ground arith
    at ipcc h ghg = ground arith
    at ipcc h defra = ground arith
    at ipcc h ipcc = ground arith

legacy_differs : (f : SourceFamily) → (postgresql_value f == value f) ≡ false
legacy_differs ghg = refl
legacy_differs defra = refl
legacy_differs ipcc = refl

module _ {C : Type 0} (connection : Connection C) (rows : C → MaxYears)
    (database : IsDatabase C connection rows) where
  -- A read of the family's latest year that changes nothing.
  abbrev pub IsRead : SourceFamily → C → Result (Option ℕ) → C → Type 0
  IsRead f c (ok year) c' = (year ≡ years_in (rows c) f) × (rows c' ≡ rows c)
  IsRead f c (raised e) c' = rows c' ≡ rows c

  -- the second `SELECT`, where the first found nothing
  legacy-IsRead :
      (f : SourceFamily) (c₀ c : C)
      → none ≡ rows c₀ (postgresql_value f)
      → rows c ≡ rows c₀
      → Ensures (connection.select_max_year (value f)) c (IsRead f c₀)
  legacy-IsRead f c₀ c missing same = go (connection.select_max_year (value f) c).0 refl
    where
      go :
          (r : Result (Option ℕ))
          → (connection.select_max_year (value f) c).0 ≡ r
          → IsRead f c₀ r (connection.select_max_year (value f) c).1
      go (ok year) h = (
        database.select_value (value f) c year h
            ∙ rw (← missing) (ap (λ (m : MaxYears). m (value f)) same),
        database.select_keeps (value f) c ∙ same,
      )
      go (raised e) h = database.select_keeps (value f) c ∙ same

  latest_legacy-IsRead :
      (f : SourceFamily) (row : Option ℕ) (c₀ c : C)
      → row ≡ rows c₀ (postgresql_value f)
      → rows c ≡ rows c₀
      → Ensures (latest_legacy connection f row) c (IsRead f c₀)
  unfolding latest_legacy
  latest_legacy-IsRead f (some year) c₀ c is same = (rw (← is) refl, same)
  latest_legacy-IsRead f none c₀ c is same = rw (legacy_differs f) (legacy-IsRead f c₀ c is same)

  pub latest_of-IsRead :
      (f : SourceFamily) (c : C) → Ensures (latest_of connection f) c (IsRead f c)
  unfolding latest_of
  latest_of-IsRead f c =
      Ensures-bind (connection.select_max_year (postgresql_value f)) _ c (IsRead f c)
        (λ e h. database.select_keeps _ c)
        (λ row h.
          latest_legacy-IsRead f row c _ (database.select_value _ c row h)
            (database.select_keeps _ c))

  -- On a law-abiding database, reading a family's latest year changes no rows, and a year that is
  -- returned is the greatest one under the PostgreSQL identifier, or else under the older one.
  pub latest_ingested_year-IsRead :
      (f : SourceFamily) (c : C)
      → Ensures (latest_ingested_year connection (value f)) c (IsRead f c)
  unfolding latest_ingested_year
  latest_ingested_year-IsRead f c = rw (coerce-value f) (latest_of-IsRead f c)

  -- A recording of a year for a family.
  abbrev pub IsRecorded : SourceFamily → ℕ → C → Result (Unit {0}) → C → Type 0
  IsRecorded f y c (ok done) c' = rows c' ≡ add_year (rows c) (postgresql_value f) y
  IsRecorded f y c (raised e) c' =
      (rows c' ≡ rows c) ⊎ (rows c' ≡ add_year (rows c) (postgresql_value f) y)

  committed-IsRecorded :
      (f : SourceFamily) (y : ℕ) (c : C) (commit : Option (Exec C (Unit {0})))
      → connection.commit ≡ commit
      → (connection.upsert_year (postgresql_value f) y c).0 ≡ ok tt
      → Ensures
          (commit_if commit)
          (connection.upsert_year (postgresql_value f) y c).1
          (IsRecorded f y c)
  committed-IsRecorded f y c none is done = database.upsert_ok _ y c done
  committed-IsRecorded f y c (some commit) is done =
      go (commit (connection.upsert_year (postgresql_value f) y c).1).0 refl
    where
      go :
          (r : Result (Unit {0}))
          → (commit (connection.upsert_year (postgresql_value f) y c).1).0 ≡ r
          → Ensures commit (connection.upsert_year (postgresql_value f) y c).1 (IsRecorded f y c)
      go (ok u) h = rw h (database.commit_ok commit _ is h ∙ database.upsert_ok _ y c done)
      go (raised e) h =
          rw h (rw (← database.upsert_ok _ y c done) (database.commit_raised commit _ y c e is h))

  record_of-IsRecorded :
      (f : SourceFamily) (y : ℕ) (c : C) → Ensures (record_of connection f y) c (IsRecorded f y c)
  unfolding record_of
  record_of-IsRecorded f y c =
      Ensures-bind (connection.upsert_year (postgresql_value f) y) _ c (IsRecorded f y c)
        (λ e h. inl (database.upsert_raised _ y c e h))
        (λ u h. committed-IsRecorded f y c connection.commit refl h)

  -- On a law-abiding database, recording a year for a family adds a row under its PostgreSQL
  -- identifier; if it raises, the rows are what they were, or that row is there.
  pub record_ingested_year-IsRecorded :
      (f : SourceFamily) (y : ℕ) (c : C)
      → Ensures (record_ingested_year connection (value f) y) c (IsRecorded f y c)
  unfolding record_ingested_year
  record_ingested_year-IsRecorded f y c = elim (Bool-cases (ltb y 1)) [
    | inl bad ↦ rw bad (inl refl)
    | inr good ↦ rw (good, coerce-value f) (record_of-IsRecorded f y c)
  ]
