-- ===== src/Tests/Cycles.antt =====
-- Cycles of the runner, on the sample's database of years.
use carbon_ops_parser.Prelude.{
  ℕ, Option, none, some, [], ◌∷◌, ◌≡◌, ◌≢◌, refl, arith, true, false, contains,
}
use carbon_ops_parser.Exec.{ok, raised, value_error, subscript}
use carbon_ops_parser.Exec.Ensures.{Ensures}
use carbon_ops_parser.Text.{is_blank}
use carbon_ops_parser.Catalog.{ghg, coerce_source_family}
use carbon_ops_parser.YearState.Latest.{years_in}
use carbon_ops_parser.YearState.{latest_ingested_year, record_ingested_year}
use carbon_ops_parser.Year.Types.{RunResult}
use carbon_ops_parser.Year.Select.{year_state_of, normalize_source_families, select_year_state}
use carbon_ops_parser.Year.Boundary.{failed_family, no_progress}
use carbon_ops_parser.Year.Family.{missing_source_adapter, run_source_family}
use carbon_ops_parser.Year.Run.{run_result}
use carbon_ops_parser.History.Records.{HistoryStatus, HistoryPersistResult, HistoryRepository}
use carbon_ops_parser.History.Repository.{history_failed}
use carbon_ops_parser.History.Validate.{validate_ingestion_run_history_command}
use carbon_ops_parser.Cycle.Command.{CycleResult, build_ingestion_run_history_command}
use carbon_ops_parser.Cycle.Command.Reportable.{
  IsReportable, build_ingestion_run_history_command_accepted,
}
use carbon_ops_parser.Cycle.History.{persist_configured_cycle_history}
use carbon_ops_parser.Cycle.History.Kept.{
  Emits, IsOutcome, persist_configured_cycle_history-IsOutcome,
}
use carbon_ops_parser.Cycle.Runner.{
  RunnerConfig, Runtime, cycle_of, run_configured_cycle_runner, runner_result,
}
use carbon_ops_parser.Cycle.Runner.Ended.{
  Ended, run_configured_cycle_runner-Ended, run_configured_cycle_runner_unlimited,
}
use carbon_ops_parser.Cycle.Runner.Years.{RuntimeKeeps, Within, years_per_cycle}
use carbon_ops_parser.Tests.Sample.{Rows, max_years, stored_deps, stored-IsLedger, start}
use carbon_ops_parser.Tests.History.{tools}

abbrev no_history : HistoryPersistResult
no_history = history_failed HistoryStatus.failed_database []

abbrev idle_repository : HistoryRepository Rows ℕ
idle_repository = record {
  provider_name = "none";
  persist_ingestion_run_history = λ command c. (ok no_history, c);
}

abbrev runtime : Runtime Rows ℕ ℕ
runtime = record {
  now = λ c. (ok 7, c);
  uuid4_hex = λ c. (ok "f00d", c);
  sleep = λ seconds c. (ok tt, c);
  emit = some (λ line c. (ok tt, c));
  is_positive = λ seconds. true;
  format_seconds = λ seconds. "1";
  redact_sensitive_text = λ s. s;
  created_table_names = [];
  missing_table_names = [];
  dependencies = stored_deps;
  history_repository = idle_repository;
}

abbrev config : Option ℕ → RunnerConfig ℕ
config limit = record {
  archive_root = "data";
  enabled_source_families = "ghg" ∷ [];
  initial_year = 2020;
  cycle_interval_seconds = 1;
  max_cycles = limit;
  allow_live_source_access = false;
}

-- Two cycles ingest two years.
two_cycles :
    years_in (max_years (run_configured_cycle_runner (config (some 2)) runtime 2 start).1) ghg
    ≡ some 2024
unfolding run_configured_cycle_runner normalize_source_families contains run_source_family subscript
    latest_ingested_year coerce_source_family select_year_state record_ingested_year
two_cycles = refl

run_configured_cycle_runner-Ended_example :
    Ensures
      (run_configured_cycle_runner (config (some 2)) runtime 2)
      start
      (λ r w'. Ended (config (some 2)) runtime 2 r)
run_configured_cycle_runner-Ended_example =
    run_configured_cycle_runner-Ended (config (some 2)) runtime 2 2 start refl (omega arith)
      (omega arith)

run_configured_cycle_runner_unlimited_example :
    (run_configured_cycle_runner (config none) runtime 3 start).0
    ≢ ok (some (runner_result (config none) runtime []))
run_configured_cycle_runner_unlimited_example =
    run_configured_cycle_runner_unlimited (config none) runtime 3 start
      (runner_result (config none) runtime []) refl

runtime-RuntimeKeeps : RuntimeKeeps Rows ℕ ℕ runtime (λ c. years_in (max_years c))
runtime-RuntimeKeeps = record {
  now = record { from = λ w. refl };
  uuid4_hex = record { from = λ w. refl };
  sleep = λ seconds. record { from = λ w. refl };
  emit = λ line. record { from = λ w. refl };
  persist = λ command. record { from = λ w. refl };
}

years_per_cycle_example :
    Within 2020 2
      (some 2022)
      (years_in (max_years (run_configured_cycle_runner (config (some 2)) runtime 2 start).1) ghg)
years_per_cycle_example =
    years_per_cycle (config (some 2)) runtime (λ c. years_in (max_years c)) stored-IsLedger
      runtime-RuntimeKeeps 2 start ghg

abbrev failed_run : RunResult ℕ
failed_run =
    run_result
      (record {
        run_id = "run-1";
        enabled_source_families = "ghg" ∷ [];
        initial_year = 2020;
        correlation_id = none;
      })
      ("ghg_protocol" ∷ [])
      (failed_family (year_state_of "ghg_protocol" "ghg" (some 2022) 2020)
          (missing_source_adapter "ghg_protocol" ∷ []) no_progress
        ∷ [])

abbrev cycle : CycleResult ℕ
cycle = cycle_of 1 "run-1" failed_run

cycle-IsReportable : IsReportable ℕ (λ s. "safe") cycle
unfolding contains is_blank run_result
cycle-IsReportable = record {
  run_id = refl;
  initial_year = omega arith;
  selected = (refl, tt);
  families = ((refl, omega arith, omega arith, ((refl, refl, refl, refl), tt)), tt);
  failures = ((refl, refl, refl, refl), tt);
}

build_ingestion_run_history_command_accepted_example :
    validate_ingestion_run_history_command tools
      (build_ingestion_run_history_command (λ s. "safe") cycle 1 2)
    ≡ []
build_ingestion_run_history_command_accepted_example =
    build_ingestion_run_history_command_accepted tools (λ fields h. ("{}", refl)) cycle 1 2
      cycle-IsReportable

abbrev broken : HistoryRepository Rows ℕ
broken = record {
  provider_name = "broken";
  persist_ingestion_run_history = λ command c. (raised (value_error "down"), c);
}

persist_configured_cycle_history-IsOutcome_example :
    Ensures
      (persist_configured_cycle_history (λ s. s) broken runtime.emit 1 2 cycle)
      start
      (Emits runtime.emit (λ kept. IsOutcome cycle kept (raised (value_error "down"))))
persist_configured_cycle_history-IsOutcome_example =
    persist_configured_cycle_history-IsOutcome (λ s. s) broken runtime.emit 1 2 cycle start
