-- ===== src/Year/Ledger.antt =====
-- The ledger of ingested years as the orchestrator sees it: an interface that the year-state
-- repository fills, and the effect of one family's run on it.
use carbon_ops_parser.Prelude.{ℕ, ◌<◌, String, Option, none, some, ◌≡◌, ◌⊎◌, if◌then◌else◌}
use carbon_ops_parser.Exec.{Result, ok, raised, Exec}
use carbon_ops_parser.Catalog.{SourceFamily, value, postgresql_value, same_family}
use carbon_ops_parser.Row.{OutputBatch}
use carbon_ops_parser.Year.Types.{
  DiscoveryRequest, DiscoveryResult, DownloadedArtifact, FamilyResult,
}
use carbon_ops_parser.Year.Select.{next_year}
use carbon_ops_parser.Year.Boundary.{SourceFamilyAdapter, Dependencies}
use carbon_ops_parser.Year.Run.{is_completed}

-- The latest ingested year of each family.
abbrev pub Years : Type 0
Years = SourceFamily → Option ℕ

-- One family's latest year is set.
abbrev pub set_year : Years → SourceFamily → ℕ → Years
set_year years f y = λ g. if same_family f g then some y else years g

-- A year above the latest one, or any year if there is none.
abbrev pub IsNewYear : Option ℕ → ℕ → Type 0
IsNewYear none y = Unit
IsNewYear (some latest) y = latest < y

module _ {W O : Type 0} (deps : Dependencies W O) where
  -- What the orchestrator relies on: the repository reads and records the latest years, and no
  -- other boundary changes them. A recording that raises may still have taken effect.
  pub record IsLedger (latest : W → Years) : Type 0 where
    pub read_value :
        (f : SourceFamily) (w : W) (year : Option ℕ)
        → (deps.latest_ingested_year (value f) w).0 ≡ ok year
        → year ≡ latest w f
    pub read_keeps :
        (f : SourceFamily) (w : W) → latest (deps.latest_ingested_year (value f) w).1 ≡ latest w
    pub record_ok :
        (f : SourceFamily) (y : ℕ) (w : W)
        → IsNewYear (latest w f) y
        → (deps.record_ingested_year (value f) y w).0 ≡ ok tt
        → latest (deps.record_ingested_year (value f) y w).1 ≡ set_year (latest w) f y
    pub record_raised :
        (f : SourceFamily) (y : ℕ) (w : W)
        → IsNewYear (latest w f) y
        → (latest (deps.record_ingested_year (value f) y w).1 ≡ latest w)
          ⊎ (latest (deps.record_ingested_year (value f) y w).1 ≡ set_year (latest w) f y)
    pub discover_keeps :
        (family : String) (adapter : SourceFamilyAdapter W O) (r : DiscoveryRequest) (w : W)
        → deps.source_adapters family ≡ some adapter
        → latest (adapter.discover_target_year r w).1 ≡ latest w
    pub download_keeps :
        (family : String) (adapter : SourceFamilyAdapter W O) (r : DiscoveryResult O) (w : W)
        → deps.source_adapters family ≡ some adapter
        → latest (adapter.download_target_year r w).1 ≡ latest w
    pub parse_keeps :
        (family : String) (parse : DownloadedArtifact O → Exec W (OutputBatch O))
        (a : DownloadedArtifact O) (w : W)
        → deps.parser_boundaries family ≡ some parse
        → latest (parse a w).1 ≡ latest w
    pub validate_keeps : (b : OutputBatch O) (w : W) → latest (deps.validate b w).1 ≡ latest w
    pub insert_keeps :
        (b : OutputBatch O) (w : W)
        → latest (deps.insert_normalized_factor_records b w).1 ≡ latest w

-- The years after a family's run that ended with a result.
abbrev pub after_result : {O : Type 0} → ℕ → Years → SourceFamily → FamilyResult O → Years
after_result initial years f r =
    if is_completed r.status then set_year years f (next_year (years f) initial) else years

-- What a family's run does to the years `t` that it started from: a completed run advances the
-- family by one year, any other result leaves the years alone, and so does an exception, unless
-- it came from the recording itself.
abbrev pub Advances :
    {O : Type 0} → ℕ → Years → SourceFamily → Result (FamilyResult O) → Years → Type 0
Advances initial t f (ok r) t' =
    (r.source_family ≡ postgresql_value f) × (t' ≡ after_result initial t f r)
Advances initial t f (raised e) t' = (t' ≡ t) ⊎ (t' ≡ set_year t f (next_year (t f) initial))
