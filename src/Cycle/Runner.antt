-- ===== src/Cycle/Runner.antt =====
-- pipeline/configured_cycle_runner.py, over a runtime that has started: the loop over the cycles, the
-- lines that it emits, and its result.
pub mod Loop
pub mod Ended
mod Keeps
pub mod Years
use mathlib.Core.Option
use carbon_ops_parser.Prelude.{
  ℕ, zero, suc, ◌+◌, String, Bool, true, false, not, Option, none, some, List, [], ◌∷◌, ◌++◌,
  any_of, ltb, ◌==◌, if◌then◌else◌,
}
use carbon_ops_parser.Exec.{Exec, pure, ◌>>=◌, ◌>>◌}
use carbon_ops_parser.Text.Number.{concat, join, show}
use carbon_ops_parser.Year.Types.{RunStatus, RunResult, RunRequest}
use carbon_ops_parser.Year.Boundary.{Dependencies}
use carbon_ops_parser.Year.Run.{run_production_e2e_year_orchestrator}
use carbon_ops_parser.History.Records.{HistoryRepository}
use carbon_ops_parser.Cycle.Command.{CycleResult}
use carbon_ops_parser.Cycle.Summary.{emit_configured_cycle_summary}
use carbon_ops_parser.Cycle.History.{persist_configured_cycle_history}

-- `ConfiguredCycleRunnerStatus`
pub data RunnerStatus : Type 0 where
  completed completed_with_failures : RunnerStatus

-- `ConfiguredCycleRunnerResult`
pub record RunnerResult (O : Type 0) : Type 0 where
  pub status : RunnerStatus
  pub cycles : List (CycleResult O)
  pub schema_created_table_names : List String
  pub schema_missing_table_names : List String

-- What the runner reads of `ConfiguredCycleRunnerConfig`; `F` is the type of floats.
pub record RunnerConfig (F : Type 0) : Type 0 where
  pub archive_root : String
  pub enabled_source_families : List String
  pub initial_year : ℕ
  pub cycle_interval_seconds : F
  pub max_cycles : Option ℕ
  pub allow_live_source_access : Bool

-- What the runner uses of the platform and of the started runtime: the clock, `uuid.uuid4().hex`,
-- `sleep`, `emit` if there is one, floats (`seconds > 0` and `f"{seconds:g}"`), the redaction of
-- texts, the names of tables from the schema's bootstrap, the boundaries of a run
-- (pipeline/configured_cycle_dependencies.py) and the history of runs.
pub record Runtime (W O F : Type 0) : Type 0 where
  pub now : Exec W O
  pub uuid4_hex : Exec W String
  pub sleep : F → Exec W (Unit {0})
  pub emit : Option (String → Exec W (Unit {0}))
  pub is_positive : F → Bool
  pub format_seconds : F → String
  pub redact_sensitive_text : String → String
  pub created_table_names : List String
  pub missing_table_names : List String
  pub dependencies : Dependencies W O
  pub history_repository : HistoryRepository W O

abbrev show_limit : Option ℕ → String
show_limit none = "None"
show_limit (some n) = show n

abbrev show_bool : Bool → String
show_bool true = "True"
show_bool false = "False"

-- `",".join(names) or "none"`
abbrev names_or_none : List String → String
names_or_none names = let joined = join "," names in if joined == "" then "none" else joined

-- `max_cycles is not None and cycle_number > max_cycles`
abbrev pub is_over : Option ℕ → ℕ → Bool
is_over none cycle_number = false
is_over (some max_cycles) cycle_number = ltb max_cycles cycle_number

abbrev pub is_run_completed : RunStatus → Bool
is_run_completed RunStatus.completed = true
is_run_completed RunStatus.completed_with_failures = false
is_run_completed RunStatus.failed = false

-- The run of one cycle.
abbrev pub cycle_request : {F : Type 0} → RunnerConfig F → String → RunRequest
cycle_request config run_id = record {
  run_id = run_id;
  enabled_source_families = config.enabled_source_families;
  initial_year = config.initial_year;
  correlation_id = none;
}

abbrev pub cycle_run_id : ℕ → String → String
cycle_run_id cycle_number hex = concat ("configured-cycle-" ∷ show cycle_number ∷ "-" ∷ hex ∷ [])

abbrev pub cycle_of : {O : Type 0} → ℕ → String → RunResult O → CycleResult O
cycle_of cycle_number run_id result = record {
  cycle_number = cycle_number;
  run_id = run_id;
  result = result;
  history_persistence_status = none;
  history_persistence_issue_count = 0;
}

abbrev pub runner_status : {O : Type 0} → List (CycleResult O) → RunnerStatus
runner_status cycles =
    if any_of (λ cycle. not (is_run_completed cycle.result.status)) cycles
    then RunnerStatus.completed_with_failures
    else RunnerStatus.completed

-- `_emit_startup_summary`
module _ {W O F : Type 0} (config : RunnerConfig F) (runtime : Runtime W O F) where
  unfoldable pub emit_startup_summary : (String → Exec W (Unit {0})) → Exec W (Unit {0})
  unfolding show ◌>>=◌
  emit_startup_summary emit = do
    emit "carbonops ingestion application started"
    emit (concat ("archive_root=" ∷ config.archive_root ∷ []))
    emit (concat ("enabled_source_families=" ∷ join "," config.enabled_source_families ∷ []))
    emit (concat ("initial_year=" ∷ show config.initial_year ∷ []))
    emit (
        concat
          ("cycle_interval_seconds=" ∷ runtime.format_seconds config.cycle_interval_seconds ∷ []))
    emit (concat ("max_cycles=" ∷ show_limit config.max_cycles ∷ []))
    emit (concat ("allow_live_source_access=" ∷ show_bool config.allow_live_source_access ∷ []))
    emit (
        concat (
          "postgresql_schema created="
          ∷ names_or_none runtime.created_table_names
          ∷ " missing="
          ∷ names_or_none runtime.missing_table_names
          ∷ []))

  abbrev pub emit_summary_if :
      Option (String → Exec W (Unit {0})) → CycleResult O → Exec W (Unit {0})
  emit_summary_if none cycle = pure tt
  emit_summary_if (some emit) cycle =
      emit_configured_cycle_summary runtime.redact_sensitive_text emit cycle

  -- One round of the loop, up to the cycle's result.
  unfoldable pub run_cycle : ℕ → Exec W (CycleResult O)
  unfolding show emit_configured_cycle_summary run_production_e2e_year_orchestrator
      persist_configured_cycle_history
  run_cycle cycle_number = do
    hex ← runtime.uuid4_hex
    started_at ← runtime.now
    result ←
        run_production_e2e_year_orchestrator (cycle_request config (cycle_run_id cycle_number hex))
          runtime.dependencies
    finished_at ← runtime.now
    emit_summary_if runtime.emit (cycle_of cycle_number (cycle_run_id cycle_number hex) result)
    persist_configured_cycle_history runtime.redact_sensitive_text runtime.history_repository
        runtime.emit started_at finished_at
        (cycle_of cycle_number (cycle_run_id cycle_number hex) result)

  -- `sleep(seconds)`, if that is positive
  abbrev pub sleep_if : Bool → Exec W (Unit {0})
  sleep_if false = pure tt
  sleep_if true = runtime.sleep config.cycle_interval_seconds

  -- The loop, for at most `rounds` rounds; `none` says that it has not ended by then.
  unfoldable pub run_cycles : ℕ → ℕ → List (CycleResult O) → Exec W (Option (List (CycleResult O)))
  unfolding run_cycle
  run_cycles zero cycle_number cycles = pure none
  run_cycles (suc rounds) cycle_number cycles =
      let again : CycleResult O → Exec W (Option (List (CycleResult O))) = λ cycle.
        sleep_if (runtime.is_positive config.cycle_interval_seconds)
        >> run_cycles rounds (cycle_number + 1) (cycles ++ cycle ∷ []) in
      if is_over config.max_cycles cycle_number
      then pure (some cycles)
      else run_cycle cycle_number >>= λ cycle.
          if is_over config.max_cycles (cycle_number + 1)
          then pure (some (cycles ++ cycle ∷ []))
          else again cycle

  abbrev pub emit_startup_if : Option (String → Exec W (Unit {0})) → Exec W (Unit {0})
  emit_startup_if none = pure tt
  emit_startup_if (some emit) = emit_startup_summary emit

  abbrev pub runner_result : List (CycleResult O) → RunnerResult O
  runner_result cycles = record {
    status = runner_status cycles;
    cycles = cycles;
    schema_created_table_names = runtime.created_table_names;
    schema_missing_table_names = runtime.missing_table_names;
  }

  -- `run_configured_cycle_runner`, for at most `rounds` rounds of the loop
  unfoldable pub run_configured_cycle_runner : ℕ → Exec W (Option (RunnerResult O))
  unfolding emit_startup_summary run_cycles
  run_configured_cycle_runner rounds = do
    emit_startup_if runtime.emit
    cycles ← run_cycles rounds 1 []
    pure (Option.map runner_result cycles)
