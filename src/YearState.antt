-- ===== src/YearState.antt =====
-- persistence/postgresql_year_state_repository.py, over a connection that is given.
pub mod Database
pub mod Latest
pub mod Durable
pub mod Fills
pub mod Targets
use carbon_ops_parser.Prelude.{
  ℕ, ◌+◌, String, Bool, true, false, not, Option, none, some, ltb, ◌==◌, if◌then◌else◌,
}
use carbon_ops_parser.Exec.{Exec, Result, ok, raised, pure, raise, lift, ◌>>=◌, ◌>>◌, value_error}
use carbon_ops_parser.Catalog.{SourceFamily, value, coerce_source_family, postgresql_value}

-- The statements that the repository executes, each as an action on the connection's state:
-- `SELECT MAX(ingested_year) … WHERE source_family = %s` with its row fetched (`none` for no row or
-- NULL), the `INSERT … ON CONFLICT (source_family, ingested_year) DO UPDATE SET updated_at`, which
-- gets a fresh random id, and `commit`, which a connection may lack.
pub record Connection (C : Type 0) : Type 0 where
  pub select_max_year : String → Exec C (Option ℕ)
  pub upsert_year : String → ℕ → Exec C (Unit {0})
  pub commit : Option (Exec C (Unit {0}))

pub record SourceFamilyYearState : Type 0 where
  pub source_family : SourceFamily
  pub latest_year : Option ℕ
  pub next_year : ℕ
  pub initial_year : ℕ

-- `PostgreSQLSourceFamilyYearStateRepository.__init__`: the configured initial year, if it is one.
pub create : ℕ → Result ℕ
create initial_year =
    if ltb initial_year 1
    then raised (value_error "initial_year must be positive.")
    else ok initial_year

-- `_commit`
abbrev pub commit_if : {C : Type 0} → Option (Exec C (Unit {0})) → Exec C (Unit {0})
commit_if none = pure tt
commit_if (some commit) = commit

abbrev pub next_from : Option ℕ → ℕ → ℕ
next_from none initial_year = initial_year
next_from (some latest) initial_year = latest + 1

module _ {C : Type 0} (connection : Connection C) where
  -- the second `SELECT`, under the family's older identifier
  unfoldable pub latest_legacy : SourceFamily → Option ℕ → Exec C (Option ℕ)
  latest_legacy f (some year) = pure (some year)
  latest_legacy f none =
      if not (postgresql_value f == value f)
      then connection.select_max_year (value f)
      else pure none

  unfoldable pub latest_of : SourceFamily → Exec C (Option ℕ)
  unfolding latest_legacy
  latest_of f = do row ← connection.select_max_year (postgresql_value f); latest_legacy f row

  -- `latest_ingested_year`
  unfoldable pub latest_ingested_year : String → Exec C (Option ℕ)
  unfolding latest_of ◌>>=◌
  latest_ingested_year source_family = do f ← lift (coerce_source_family source_family); latest_of f

  -- `next_target_year`
  unfoldable pub next_target_year : ℕ → String → Exec C ℕ
  unfolding latest_ingested_year
  next_target_year initial source_family = do
    latest_year ← latest_ingested_year source_family
    pure (next_from latest_year initial)

  -- `get_year_state`
  unfoldable pub get_year_state : ℕ → String → Exec C SourceFamilyYearState
  unfolding latest_of ◌>>=◌
  get_year_state initial source_family = do
    f ← lift (coerce_source_family source_family)
    latest_year ← latest_of f
    pure (record {
      source_family = f;
      latest_year = latest_year;
      next_year = next_from latest_year initial;
      initial_year = initial;
    })

  unfoldable pub record_of : SourceFamily → ℕ → Exec C (Unit {0})
  record_of f ingested_year = do
    connection.upsert_year (postgresql_value f) ingested_year
    commit_if connection.commit

  -- `record_ingested_year`
  unfoldable pub record_ingested_year : String → ℕ → Exec C (Unit {0})
  unfolding record_of ◌>>=◌
  record_ingested_year source_family ingested_year =
      let recording : Exec C (Unit {0}) =
        lift (coerce_source_family source_family) >>= λ f. record_of f ingested_year in
      if ltb ingested_year 1
      then raise (value_error "ingested_year must be positive.")
      else recording
