-- ===== src/Tests/Years.antt =====
-- A run over two enabled families and an unknown one, on a small database.
use carbon_ops_parser.Prelude.{
  ℕ, String, none, some, [], ◌∷◌, ◌==◌, ◌≡◌, refl, ◌⊎◌, lookup, contains, if◌then◌else◌, get_or,
}
use mathlib.Core.Option
use carbon_ops_parser.Catalog
use carbon_ops_parser.Exec.{Exec, ok, subscript}
use carbon_ops_parser.Exec.Ensures.{Ensures}
use carbon_ops_parser.Value.{text}
use carbon_ops_parser.Catalog.{SourceFamily, ghg, defra, coerce_source_family, postgresql_value}
use carbon_ops_parser.YearState.{
  latest_ingested_year, record_ingested_year, get_year_state, next_target_year,
}
use carbon_ops_parser.YearState.Latest.{years_in, IsRead, latest_ingested_year-IsRead}
use carbon_ops_parser.YearState.Targets.{
  IsTarget, IsState, next_target_year-IsTarget, get_year_state-IsState,
}
use carbon_ops_parser.YearState.{Connection}
use carbon_ops_parser.YearState.Database.{MaxYears, IsDatabase}
use carbon_ops_parser.YearState.Durable.{
  IsDurable, IsCommittedYear, record_ingested_year-IsCommittedYear,
}
use carbon_ops_parser.YearState.Fills.{with_repository-IsLedger}
use carbon_ops_parser.Year.Types.{FamilyStatus, YearState, FamilyResult}
use carbon_ops_parser.Year.Select.{
  normalize_source_families, select_year_state, year_state_of, source_family_aliases,
}
use carbon_ops_parser.Year.Select.Selection.{
  lookup-source_family_aliases, IsSelection, normalize_source_families-IsSelection,
}
use carbon_ops_parser.Year.Batch.{fields_with_run_id}
use carbon_ops_parser.Year.Batch.Fields.{IsSorted, last_value, fields_with_run_id_lem}
use carbon_ops_parser.Year.Boundary.{failed_family, no_progress}
use carbon_ops_parser.Year.Family.{run_source_family, missing_parser_boundary}
use carbon_ops_parser.Year.Run.{run_production_e2e_year_orchestrator}
use carbon_ops_parser.Year.Ledger.{IsLedger}
use carbon_ops_parser.Year.Progress.{advanced, completed_in, years-after-run, years_never_skip}
use carbon_ops_parser.Year.Outcome.{IsConsistent}
use carbon_ops_parser.Year.Summary.{
  IsRun, run_production_e2e_year_orchestrator-IsRun, run_source_family-IsConsistent,
}
use carbon_ops_parser.Tests.Sample.{
  Rows, max_years, connection, row, deps, stored_deps, request, start, run, connection-IsDatabase,
  deps-OthersKeep, stored-IsLedger, deps-KeepsReading,
}

-- The older identifier counts, and the year after it is next.
next_target_year_example : (next_target_year connection 2020 "ghg_protocol" start).0 ≡ ok 2023
unfolding next_target_year coerce_source_family
next_target_year_example = refl

with_repository-IsLedger_example : IsLedger stored_deps (λ c. years_in (max_years c))
with_repository-IsLedger_example =
    with_repository-IsLedger connection deps max_years connection-IsDatabase deps-OthersKeep

normalize_source_families_example :
    IsSelection
      ("ghg" ∷ "desnz" ∷ "ghg_protocol" ∷ "nobody" ∷ [])
      (normalize_source_families ("ghg" ∷ "desnz" ∷ "ghg_protocol" ∷ "nobody" ∷ []))
normalize_source_families_example =
    normalize_source_families-IsSelection ("ghg" ∷ "desnz" ∷ "ghg_protocol" ∷ "nobody" ∷ [])

fields_with_run_id_example :
    IsSorted (fields_with_run_id "run-1" row.normalized_fields)
    × ((k : String)
        → lookup k (fields_with_run_id "run-1" row.normalized_fields) ≡ (
            if "run_id" == k
            then some (get_or (last_value "run_id" row.normalized_fields) (text "run-1"))
            else last_value k row.normalized_fields))
fields_with_run_id_example = fields_with_run_id_lem "run-1" row.normalized_fields

latest_ingested_year_example :
    Ensures
      (latest_ingested_year connection "ghg")
      start
      (IsRead connection max_years connection-IsDatabase ghg start)
latest_ingested_year_example =
    latest_ingested_year-IsRead connection max_years connection-IsDatabase ghg start

-- What is committed, and what the connection sees.
abbrev Store : Type 0
Store = Rows × Rows

abbrev commit_store : Exec Store (Unit {0})
commit_store c = (ok tt, (c.1, c.1))

abbrev store : Connection Store
store = record {
  select_max_year = λ s c. (ok (max_years c.1 s), c);
  upsert_year = λ s y c. (ok tt, (c.0, (s, y) ∷ c.1));
  commit = some commit_store;
}

abbrev seen_rows : Store → MaxYears
seen_rows c = max_years c.1

abbrev committed_rows : Store → MaxYears
committed_rows c = max_years c.0

store-IsDatabase : IsDatabase Store store seen_rows
store-IsDatabase = record {
  select_value = λ s c year h. cc;
  select_keeps = λ s c. refl;
  upsert_ok = λ s y c h. refl;
  upsert_raised = λ s y c e h. absurd (cc);
  commit_ok = λ commit c h k. let e : commit_store ≡ commit = cc in rw (← e) refl;
  commit_raised =
      λ commit s y c e h k. let p : commit_store ≡ commit = cc in absurd (cc (rw (← p) at k));
}

store-IsDurable : IsDurable Store store seen_rows committed_rows
store-IsDurable = record {
  upsert_keeps = λ s y c. refl;
  commit = commit_store;
  commit_is = refl;
  commit_publishes = λ c h. refl;
  commit_in_doubt = λ c e h. absurd (cc);
}

record_ingested_year_example :
    Ensures
      (record_ingested_year store "ghg" 2023)
      (start, start)
      (IsCommittedYear store seen_rows committed_rows store-IsDatabase store-IsDurable ghg 2023
        (start, start))
record_ingested_year_example =
    record_ingested_year-IsCommittedYear store seen_rows committed_rows store-IsDatabase
      store-IsDurable ghg 2023 (start, start)

run_is : (run_production_e2e_year_orchestrator request stored_deps start).0 ≡ ok run
unfolding run_production_e2e_year_orchestrator latest_ingested_year record_ingested_year
    normalize_source_families lookup contains run_source_family subscript coerce_source_family
    select_year_state
run_is = refl

years-after-run_example :
    years_in (max_years (run_production_e2e_year_orchestrator request stored_deps start).1) ghg
    ≡ advanced 2020 (some 2022) (completed_in ghg run.family_results)
years-after-run_example =
    years-after-run request stored_deps (λ c. years_in (max_years c)) stored-IsLedger start run
      run_is ghg

years_never_skip_example :
    (years_in (max_years (run_production_e2e_year_orchestrator request stored_deps start).1) defra
      ≡ none)
    ⊎ (years_in (max_years (run_production_e2e_year_orchestrator request stored_deps start).1) defra
        ≡ some 2020)
years_never_skip_example =
    years_never_skip request stored_deps (λ c. years_in (max_years c)) stored-IsLedger start defra

run_production_e2e_year_orchestrator-IsRun_example : IsRun ℕ request run
run_production_e2e_year_orchestrator-IsRun_example =
    run_production_e2e_year_orchestrator-IsRun request stored_deps start run run_is

abbrev year_state : YearState
year_state = year_state_of "defra_desnz" "defra" none 2020

-- The family without a parser.
abbrev unparsed : FamilyResult ℕ
unparsed = failed_family year_state (missing_parser_boundary "defra_desnz" ∷ []) no_progress

unparsed-is : (run_source_family request deps "defra_desnz" start).0 ≡ ok unparsed
unfolding run_source_family subscript lookup select_year_state
unparsed-is = refl

run_source_family-IsConsistent_example :
    IsConsistent unparsed FamilyStatus.failed
    × (unparsed.insert_summary ≡ none
        → (run_source_family request deps "defra_desnz" start).1 ≡ start)
run_source_family-IsConsistent_example =
    run_source_family-IsConsistent request deps (λ c. c ≡ start) deps-KeepsReading "defra_desnz"
      start unparsed refl unparsed-is

lookup-source_family_aliases_example :
    lookup "desnz" source_family_aliases
    ≡ Option.map postgresql_value (lookup "desnz" Catalog.source_family_aliases)
lookup-source_family_aliases_example = lookup-source_family_aliases "desnz"

next_target_year-IsTarget_example :
    Ensures
      (next_target_year connection 2020 "ghg")
      start
      (IsTarget connection max_years connection-IsDatabase 2020 ghg start)
next_target_year-IsTarget_example =
    next_target_year-IsTarget connection max_years connection-IsDatabase 2020 ghg start

get_year_state-IsState_example :
    Ensures
      (get_year_state connection 2020 "ghg")
      start
      (IsState connection max_years connection-IsDatabase 2020 ghg start)
get_year_state-IsState_example =
    get_year_state-IsState connection max_years connection-IsDatabase 2020 ghg start
