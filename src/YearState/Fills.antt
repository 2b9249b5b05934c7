-- ===== src/YearState/Fills.antt =====
-- The repository fills the orchestrator's interface for a ledger of years.
use carbon_ops_parser.Prelude.{ℕ, String, Option, some, ◌≡◌, ◌∙◌, ap, ◌⊎◌, inl, inr}
use carbon_ops_parser.Exec.{Exec, Result, ok, raised}
use carbon_ops_parser.Catalog.{SourceFamily}
use carbon_ops_parser.Row.{OutputBatch}
use carbon_ops_parser.Year.Types.{DiscoveryRequest, DiscoveryResult, DownloadedArtifact}
use carbon_ops_parser.Year.Boundary.{SourceFamilyAdapter, Dependencies}
use carbon_ops_parser.Year.Ledger.{IsNewYear, IsLedger, set_year}
use carbon_ops_parser.YearState.{Connection, latest_ingested_year, record_ingested_year}
use carbon_ops_parser.YearState.Database.{MaxYears, IsDatabase}
use carbon_ops_parser.YearState.Latest.{
  years_in, years_in-add_year, latest_ingested_year-IsRead, record_ingested_year-IsRecorded, IsRead,
  IsRecorded,
}

-- Dependencies whose year state is the repository's.
abbrev pub with_repository : {C O : Type 0} → Connection C → Dependencies C O → Dependencies C O
with_repository connection deps = record deps {
  latest_ingested_year = latest_ingested_year connection;
  record_ingested_year = record_ingested_year connection;
}

module _ {C O : Type 0} (deps : Dependencies C O) (rows : C → MaxYears) where
  -- No boundary but the year state writes rows of years.
  pub record OthersKeep : Type 0 where
    pub discover_keeps :
        (family : String) (adapter : SourceFamilyAdapter C O) (r : DiscoveryRequest) (c : C)
        → deps.source_adapters family ≡ some adapter
        → rows (adapter.discover_target_year r c).1 ≡ rows c
    pub download_keeps :
        (family : String) (adapter : SourceFamilyAdapter C O) (r : DiscoveryResult O) (c : C)
        → deps.source_adapters family ≡ some adapter
        → rows (adapter.download_target_year r c).1 ≡ rows c
    pub parse_keeps :
        (family : String) (parse : DownloadedArtifact O → Exec C (OutputBatch O))
        (a : DownloadedArtifact O) (c : C)
        → deps.parser_boundaries family ≡ some parse
        → rows (parse a c).1 ≡ rows c
    pub validate_keeps : (b : OutputBatch O) (c : C) → rows (deps.validate b c).1 ≡ rows c
    pub insert_keeps :
        (b : OutputBatch O) (c : C) → rows (deps.insert_normalized_factor_records b c).1 ≡ rows c

module _ {C : Type 0} (connection : Connection C) (rows : C → MaxYears)
    (database : IsDatabase C connection rows) where
  read_keeps :
      (f : SourceFamily) (c : C) (r : Result (Option ℕ)) (c' : C)
      → IsRead connection rows database f c r c'
      → years_in (rows c') ≡ years_in (rows c)
  read_keeps f c (ok year) c' (value_is, same) = ap years_in same
  read_keeps f c (raised e) c' same = ap years_in same

  recorded-or-same :
      (f : SourceFamily) (y : ℕ) (c : C) (r : Result (Unit {0})) (c' : C)
      → IsNewYear (years_in (rows c) f) y
      → IsRecorded connection rows database f y c r c'
      → (years_in (rows c') ≡ years_in (rows c))
        ⊎ (years_in (rows c') ≡ set_year (years_in (rows c)) f y)
  recorded-or-same f y c (ok u) c' fresh added =
      inr (ap years_in added ∙ years_in-add_year (rows c) f y fresh)
  recorded-or-same f y c (raised e) c' fresh (inl same) = inl (ap years_in same)
  recorded-or-same f y c (raised e) c' fresh (inr added) =
      inr (ap years_in added ∙ years_in-add_year (rows c) f y fresh)

-- The year-state repository over a law-abiding database fills the orchestrator's interface for a
-- ledger of years, with the years that the database's rows give, beside any other boundaries that
-- write no rows of years.
pub with_repository-IsLedger :
    {C O : Type 0} (connection : Connection C) (deps : Dependencies C O) (rows : C → MaxYears)
    (database : IsDatabase C connection rows)
    → OthersKeep deps rows
    → IsLedger (with_repository connection deps) (λ c. years_in (rows c))
with_repository-IsLedger connection deps rows database others = record {
  read_value = λ f c year h. (rw h at (latest_ingested_year-IsRead connection rows database f c)).0;
  read_keeps = λ f c.
      read_keeps connection rows database f c _ _
        (latest_ingested_year-IsRead connection rows database f c);
  record_ok = λ f y c fresh h.
      ap years_in (rw h at (record_ingested_year-IsRecorded connection rows database f y c))
      ∙ years_in-add_year (rows c) f y fresh;
  record_raised = λ f y c fresh.
      recorded-or-same connection rows database f y c _ _ fresh
        (record_ingested_year-IsRecorded connection rows database f y c);
  discover_keeps = λ family adapter r c h. ap years_in (others.discover_keeps family adapter r c h);
  download_keeps = λ family adapter r c h. ap years_in (others.download_keeps family adapter r c h);
  parse_keeps = λ family parse a c h. ap years_in (others.parse_keeps family parse a c h);
  validate_keeps = λ b c. ap years_in (others.validate_keeps b c);
  insert_keeps = λ b c. ap years_in (others.insert_keeps b c);
}
