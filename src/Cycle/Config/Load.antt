-- ===== src/Cycle/Config/Load.antt =====
-- `load_configured_cycle_runner_config`, from the payload and the archive root on.
use Prim.Native.String
use carbon_ops_parser.Prelude.{
  arith, zero, suc, leb, ℕ, ◌≤◌, String, Bool, true, false, Option, none, some, List, [], ◌∷◌, ◌==◌,
  if◌then◌else◌, ◌≡◌, ◌≢◌, refl,
}
use carbon_ops_parser.Exec.{value_error, Result, ok, raised}
use carbon_ops_parser.Exec.Checked.{IfOk, from_ok, ◌>>=◌, Checked-bind}
use carbon_ops_parser.Text.Number.{show_int, ℤ}
use carbon_ops_parser.Text.Numeral.{parse_int-show_int}
use carbon_ops_parser.Year.Select.{normalize_source_families}
use carbon_ops_parser.Cycle.Runner.{RunnerConfig}
use carbon_ops_parser.Cycle.Config.Json.{
  Json, Members, Floats, nested_get, coalesce_config_values, str, positive_int, positive_of,
  optional_positive_int, some_int, non_negative_float, none_value, boolean, integer, float, string,
  array, mapping,
}
use carbon_ops_parser.Cycle.Config.Families.{
  enabled_source_families, enabled_source_families-AreNormalized,
}
use carbon_ops_parser.Cycle.Config.Runtime.{RuntimeConfigLoadResult}
use carbon_ops_parser.Cycle.Config.Settings.{load_postgresql_config}
use carbon_ops_parser.Cycle.Config.LiveAccess.{allow_live_source_access_value}
use carbon_ops_parser.Cycle.Config.SourceYears.{YearArtifacts, source_years_from_payload}
use carbon_ops_parser.Cycle.Config.Artifacts.{positive_int-IsPositive}

-- `ConfiguredCycleRunnerConfig`: the PostgreSQL settings, what the runner reads, and the artifacts of
-- the source years.
pub record LoadedConfig (F : Type 0) : Type 0 where
  pub postgresql_config_result : RuntimeConfigLoadResult
  pub runner : RunnerConfig F
  pub source_years : List (String × YearArtifacts)

-- The values of a configuration, in the order in which they are read.
pub record ConfigValues (F : Type 0) : Type 0 where
  pub initial_year_value : Json F
  pub interval_value : Json F
  pub max_cycles_value : Json F

-- `max_cycles if max_cycles is not None else …`
abbrev max_cycles_or : {F : Type 0} → Option ℤ → Json F → Json F
max_cycles_or none configured = configured
max_cycles_or (some n) configured = integer n

module _ {F : Type 0} (floats : Floats F) where
  unfoldable pub config_values : Json F → Option ℤ → ConfigValues F
  unfolding nested_get coalesce_config_values
  config_values payload max_cycles = record {
    initial_year_value = coalesce_config_values (
        nested_get payload ("initial_year" ∷ [])
        ∷ nested_get payload ("cycle" ∷ "initial_year" ∷ [])
        ∷ nested_get payload ("execution" ∷ "initialYear" ∷ [])
        ∷ integer (ℤ.pos 2024)
        ∷ []);
    interval_value = coalesce_config_values (
        nested_get payload ("cycle_interval_seconds" ∷ [])
        ∷ nested_get payload ("cycle" ∷ "interval_seconds" ∷ [])
        ∷ integer (ℤ.pos 0)
        ∷ []);
    max_cycles_value = max_cycles_or max_cycles (
        coalesce_config_values (
          nested_get payload ("max_cycles" ∷ [])
          ∷ nested_get payload ("cycle" ∷ "max_cycles" ∷ [])
          ∷ integer (ℤ.pos 1)
          ∷ []));
  }

  unfoldable pub load_from :
      RuntimeConfigLoadResult → String → Json F → ConfigValues F → Result (LoadedConfig F)
  unfolding ◌>>=◌ positive_int optional_positive_int enabled_source_families
      source_years_from_payload allow_live_source_access_value
  load_from postgresql archive_root payload values = do
    initial_year ← positive_int floats "initial_year" values.initial_year_value
    interval_seconds ← non_negative_float floats "cycle_interval_seconds" values.interval_value
    configured_max_cycles ← optional_positive_int floats "max_cycles" values.max_cycles_value
    families ← enabled_source_families floats payload
    years ← source_years_from_payload floats payload
    live ← allow_live_source_access_value floats payload
    ok (record {
      postgresql_config_result = postgresql;
      runner = record {
        archive_root = archive_root;
        enabled_source_families = families;
        initial_year = initial_year;
        cycle_interval_seconds = interval_seconds;
        max_cycles = configured_max_cycles;
        allow_live_source_access = live;
      };
      source_years = years;
    })

  -- `load_configured_cycle_runner_config`, after the file is read, for an archive root that is checked
  unfoldable pub load_configured_cycle_runner_config :
      Members F → String → Json F → Option ℤ → Result (LoadedConfig F)
  unfolding load_from config_values load_postgresql_config
  load_configured_cycle_runner_config environ archive_root payload max_cycles =
      load_from (load_postgresql_config floats payload environ) archive_root payload
        (config_values payload max_cycles)

-- A limit, if there is one, is at least 1.
abbrev pub IsLimit : Option ℕ → Type 0
IsLimit none = Unit
IsLimit (some m) = 1 ≤ m

-- What the runner relies on: a first year, a limit that lets it run, and families that the year
-- orchestrator takes as they are.
abbrev pub IsRunnable : {F : Type 0} → LoadedConfig F → Type 0
IsRunnable config =
    (1 ≤ config.runner.initial_year)
    × IsLimit config.runner.max_cycles
    × (config.runner.enabled_source_families ≢ [])
    × (normalize_source_families config.runner.enabled_source_families
        ≡ (config.runner.enabled_source_families, []))

some_int-IsLimit : (r : Result ℕ) → IfOk (λ y. 1 ≤ y) r → IfOk IsLimit (some_int r)
some_int-IsLimit (ok n) h = h
some_int-IsLimit (raised e) h = tt

if-IsLimit :
    (b : Bool) (r : Result (Option ℕ)) → IfOk IsLimit r → IfOk IsLimit (if b then ok none else r)
if-IsLimit true r h = tt
if-IsLimit false r h = h

module _ {F : Type 0} (floats : Floats F) where
  limit : (value : Json F) → IfOk IsLimit (some_int (positive_int floats "max_cycles" value))
  limit value = some_int-IsLimit _ (positive_int-IsPositive floats "max_cycles" value)

  optional_positive_int-IsLimit :
      (value : Json F) → IfOk IsLimit (optional_positive_int floats "max_cycles" value)
  unfolding optional_positive_int
  optional_positive_int-IsLimit none_value = tt
  optional_positive_int-IsLimit (string s) = if-IsLimit (s == "") _ (limit (string s))
  optional_positive_int-IsLimit (boolean b) = limit (boolean b)
  optional_positive_int-IsLimit (integer n) = limit (integer n)
  optional_positive_int-IsLimit (float x) = limit (float x)
  optional_positive_int-IsLimit (array xs) = limit (array xs)
  optional_positive_int-IsLimit (mapping xs) = limit (mapping xs)

  load_from-IsRunnable :
      (postgresql : RuntimeConfigLoadResult) (archive_root : String) (payload : Json F)
      (values : ConfigValues F)
      → IfOk IsRunnable (load_from floats postgresql archive_root payload values)
  unfolding load_from
  load_from-IsRunnable postgresql archive_root payload values =
      Checked-bind (positive_int floats "initial_year" values.initial_year_value) _
        (IfOk IsRunnable) (λ e. tt)
        (λ year is_year.
          Checked-bind (non_negative_float floats "cycle_interval_seconds" values.interval_value) _
            (IfOk IsRunnable) (λ e. tt)
            (λ seconds _.
              Checked-bind (optional_positive_int floats "max_cycles" values.max_cycles_value) _
                (IfOk IsRunnable) (λ e. tt)
                (λ limit is_limit.
                  Checked-bind (enabled_source_families floats payload) _ (IfOk IsRunnable)
                    (λ e. tt)
                    (λ families enabled.
                      Checked-bind (source_years_from_payload floats payload) _ (IfOk IsRunnable)
                        (λ e. tt)
                        (λ years _.
                          Checked-bind (allow_live_source_access_value floats payload) _
                            (IfOk IsRunnable) (λ e. tt)
                            (λ live _. (
                              from_ok (λ y. 1 ≤ y) _ year
                                  (positive_int-IsPositive floats "initial_year"
                                    values.initial_year_value)
                                  is_year,
                              from_ok IsLimit _ limit
                                  (optional_positive_int-IsLimit values.max_cycles_value) is_limit,
                              (enabled_source_families-AreNormalized floats payload families
                                  enabled).0,
                              (enabled_source_families-AreNormalized floats payload families
                                  enabled).1,
                            )))))))

-- A configuration that loads is one the runner can use: its first year and its limit of cycles, if it
-- has one, are at least 1, and it enables at least one family, all of which the year orchestrator
-- selects in their order, with none reported as unknown.
pub load_configured_cycle_runner_config-IsRunnable :
    {F : Type 0} (floats : Floats F) (environ : Members F) (archive_root : String)
    (payload : Json F) (max_cycles : Option ℤ) (config : LoadedConfig F)
    → load_configured_cycle_runner_config floats environ archive_root payload max_cycles ≡ ok config
    → IsRunnable config
unfolding load_configured_cycle_runner_config
load_configured_cycle_runner_config-IsRunnable floats environ archive_root payload max_cycles
      config =
    from_ok IsRunnable _ config (
      load_from-IsRunnable floats (load_postgresql_config floats payload environ) archive_root
        payload (config_values floats payload max_cycles))

-- What a field that holds an integer gives: the integer from 1 on, and an error otherwise.
abbrev pub from_one : String → ℤ → Result ℕ
from_one field_name (ℤ.pos n) =
    if leb 1 n
    then ok n
    else raised (value_error (String.◌++◌ field_name " must be a positive integer."))
from_one field_name (ℤ.negsuc n) =
    raised (value_error (String.◌++◌ field_name " must be a positive integer."))

positive_of-from_one :
    (field_name : String) (n : ℤ) → positive_of field_name (some n) ≡ from_one field_name n
positive_of-from_one field_name (ℤ.pos zero) = refl
positive_of-from_one field_name (ℤ.pos (suc n)) =
    let e : leb 1 (suc n) ≡ true = ground arith in rw e refl
positive_of-from_one field_name (ℤ.negsuc n) = refl

-- An integer in a configuration reads back as itself, also from its text, if it is at least 1; any
-- other one is refused.
pub positive_int-str :
    {F : Type 0} (floats : Floats F) (field_name : String) (n : ℤ)
    → (positive_int floats field_name (integer n) ≡ from_one field_name n)
      × (positive_int floats field_name (string (show_int n)) ≡ from_one field_name n)
unfolding positive_int str
positive_int-str floats field_name n =
    rw (parse_int-show_int n) (positive_of-from_one field_name n, positive_of-from_one field_name n)
