-- ===== src/YearState/Durable.antt =====
-- The recording of a year is committed.
use carbon_ops_parser.Prelude.{ℕ, String, some, ltb, ◌≡◌, refl, ◌∙◌, ◌⊎◌, inl, inr, Bool-cases}
use carbon_ops_parser.Exec.{Exec, PyException, Result, ok, raised}
use carbon_ops_parser.Exec.Ensures.{Ensures, Ensures-bind}
use carbon_ops_parser.Catalog.{SourceFamily, value, postgresql_value, coerce-value}
use carbon_ops_parser.YearState.{Connection, record_of, record_ingested_year}
use carbon_ops_parser.YearState.Database.{MaxYears, add_year, IsDatabase}

-- Beside `rows`, what the connection sees with its own writes, `committed` is what every other
-- connection sees. An upsert leaves it as it is; a commit makes it what the connection sees; a commit
-- that fails may have done so or not.
pub record IsDurable (C : Type 0) (connection : Connection C) (rows committed : C → MaxYears)
    : Type 0 where
  pub upsert_keeps :
      (s : String) (y : ℕ) (c : C) → committed (connection.upsert_year s y c).1 ≡ committed c
  pub commit : Exec C (Unit {0})
  pub commit_is : connection.commit ≡ some commit
  pub commit_publishes : (c : C) → (commit c).0 ≡ ok tt → committed (commit c).1 ≡ rows c
  pub commit_in_doubt :
      (c : C) (e : PyException)
      → (commit c).0 ≡ raised e
      → (committed (commit c).1 ≡ committed c) ⊎ (committed (commit c).1 ≡ rows c)

module _ {C : Type 0} (connection : Connection C) (rows committed : C → MaxYears)
    (database : IsDatabase C connection rows)
    (durable : IsDurable C connection rows committed) where
  -- A recording of a year for a family, as the connection and as the others see it.
  abbrev pub IsCommittedYear : SourceFamily → ℕ → C → Result (Unit {0}) → C → Type 0
  IsCommittedYear f y c (ok done) c' =
      (rows c' ≡ add_year (rows c) (postgresql_value f) y)
      × (committed c' ≡ add_year (rows c) (postgresql_value f) y)
  IsCommittedYear f y c (raised e) c' =
      ((rows c' ≡ rows c) ⊎ (rows c' ≡ add_year (rows c) (postgresql_value f) y))
      × ((committed c' ≡ committed c) ⊎ (committed c' ≡ add_year (rows c) (postgresql_value f) y))

  commit-IsCommittedYear :
      (f : SourceFamily) (y : ℕ) (c : C)
      → (connection.upsert_year (postgresql_value f) y c).0 ≡ ok tt
      → Ensures durable.commit
          (connection.upsert_year (postgresql_value f) y c).1
          (IsCommittedYear f y c)
  commit-IsCommittedYear f y c done = go (durable.commit c₁).0 refl
    where
      c₁ : C
      c₁ = (connection.upsert_year (postgresql_value f) y c).1

      added : rows c₁ ≡ add_year (rows c) (postgresql_value f) y
      added = database.upsert_ok (postgresql_value f) y c done

      seen :
          {m : MaxYears}
          → (m ≡ rows c) ⊎ (m ≡ rows c₁)
          → (m ≡ rows c) ⊎ (m ≡ add_year (rows c) (postgresql_value f) y)
      seen (inl same) = inl same
      seen (inr there) = inr (there ∙ added)

      published :
          {m : MaxYears}
          → (m ≡ committed c₁) ⊎ (m ≡ rows c₁)
          → (m ≡ committed c) ⊎ (m ≡ add_year (rows c) (postgresql_value f) y)
      published (inl same) = inl (same ∙ durable.upsert_keeps (postgresql_value f) y c)
      published (inr there) = inr (there ∙ added)

      go :
          (r : Result (Unit {0}))
          → (durable.commit c₁).0 ≡ r
          → Ensures durable.commit c₁ (IsCommittedYear f y c)
      go (ok u) h = rw h (
        database.commit_ok durable.commit c₁ durable.commit_is h ∙ added,
        durable.commit_publishes c₁ h ∙ added,
      )
      go (raised e) h = rw h (
        seen (database.commit_raised durable.commit (postgresql_value f) y c e durable.commit_is h),
        published (durable.commit_in_doubt c₁ e h),
      )

  record_of-IsCommittedYear :
      (f : SourceFamily) (y : ℕ) (c : C)
      → Ensures (record_of connection f y) c (IsCommittedYear f y c)
  unfolding record_of
  record_of-IsCommittedYear f y c =
      Ensures-bind (connection.upsert_year (postgresql_value f) y) _ c (IsCommittedYear f y c)
        (λ e h. (
          inl (database.upsert_raised _ y c e h),
          inl (durable.upsert_keeps (postgresql_value f) y c),
        ))
        (λ u h. rw durable.commit_is (commit-IsCommittedYear f y c h))

  -- On a law-abiding database with a commit, recording a year for a family adds a row under its
  -- PostgreSQL identifier to what the connection sees, and all that is then committed. If it raises,
  -- what the connection sees is what it was or has that row, and what is committed is what it was or
  -- what the connection saw with that row.
  pub record_ingested_year-IsCommittedYear :
      (f : SourceFamily) (y : ℕ) (c : C)
      → Ensures (record_ingested_year connection (value f) y) c (IsCommittedYear f y c)
  unfolding record_ingested_year
  record_ingested_year-IsCommittedYear f y c = elim (Bool-cases (ltb y 1)) [
    | inl bad ↦ rw bad (inl refl, inl refl)
    | inr good ↦ rw (good, coerce-value f) (record_of-IsCommittedYear f y c)
  ]
