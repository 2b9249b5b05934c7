-- ===== src/Tests/Configs.antt =====
-- A configuration that loads, and the theorems at it.
use carbon_ops_parser.Prelude.{
  ℕ, String, true, false, Option, none, some, List, [], ◌∷◌, contains, ◌≡◌, ◌↔◌, refl, nat_eq,
}
use carbon_ops_parser.Exec.{ok}
use carbon_ops_parser.Text.Number.{ℤ, show_int}
use carbon_ops_parser.Cycle.Config.Json.{
  Json, Members, Floats, positive_int, boolean, integer, float, string, mapping, member, no_members,
}
use carbon_ops_parser.Cycle.Config.Runtime.{RuntimeConfigStatus, load_postgresql_runtime_config}
use carbon_ops_parser.Cycle.Config.Settings.{load_postgresql_config}
use carbon_ops_parser.Cycle.Config.Ready.{IsReady, load_postgresql_runtime_config_ready}
use carbon_ops_parser.Exec.Ensures.{Ensures}
use carbon_ops_parser.Cycle.Config.Archive.{Files, validated_archive_root}
use carbon_ops_parser.Cycle.Config.Directory.{AreFiles, IsRoot, validated_archive_root-IsRoot}
use carbon_ops_parser.Cycle.Config.LiveAccess.{
  allow_live_source_access_value, allow_live_source_access_value_iff,
}
use carbon_ops_parser.Cycle.Config.LiveSettings.{some_on, some_off, live_settings}
use carbon_ops_parser.Cycle.Config.SourceYears.{
  SourceYearArtifact, YearArtifacts, source_years_from_payload,
}
use carbon_ops_parser.Cycle.Config.Artifacts.{
  AreSourceYears, source_years_from_payload-AreSourceYears,
}
use carbon_ops_parser.Cycle.Config.Load.{
  LoadedConfig, load_configured_cycle_runner_config, IsRunnable,
  load_configured_cycle_runner_config-IsRunnable, positive_int-str,
}

-- Floats that are whole numbers.
abbrev whole_of : Json ℕ → Option ℕ
whole_of (integer (ℤ.pos n)) = some n
whole_of (float n) = some n
whole_of _ = none

abbrev whole : Floats ℕ
whole = record {
  str_other = λ value. "?";
  is_zero = λ n. nat_eq n 0;
  is_negative = λ n. false;
  float_of = whole_of;
}

abbrev payload : Json ℕ
payload = mapping (
    member "enabled_source_families" (string "GHG, desnz,ghg_protocol") (
      member "cycle" (mapping (member "max_cycles" (integer (ℤ.pos 3)) no_members)) (
        member "allow_live_source_access" (boolean true) (
          member "sources"
            (mapping (
              member "ipccefdb"
                (mapping (
                  member "2024" (mapping (member "path" (string " a.csv ") no_members)) no_members))
                no_members))
            no_members))))

abbrev artifact : SourceYearArtifact
artifact = record {
  year = 2024;
  artifact_url = "a.csv";
  publication_url = "a.csv";
  title = "ipcc_efdb 2024";
  version_label = "2024";
  content_type = "text/csv";
  format_hint = "csv";
}

abbrev years : List (String × YearArtifacts)
years = ("ipcc_efdb", (2024, artifact) ∷ []) ∷ []

abbrev loaded : LoadedConfig ℕ
loaded = record {
  postgresql_config_result = load_postgresql_config whole payload no_members;
  runner = record {
    archive_root = "data/raw";
    enabled_source_families = "ghg_protocol" ∷ "defra_desnz" ∷ [];
    initial_year = 2024;
    cycle_interval_seconds = 0;
    max_cycles = some 3;
    allow_live_source_access = true;
  };
  source_years = years;
}

allow_live_source_access_value_iff_example :
    (allow_live_source_access_value whole payload ≡ ok true) ↔ (
      (some_on whole (live_settings payload) ≡ true)
      × (some_off whole (live_settings payload) ≡ false))
allow_live_source_access_value_iff_example = allow_live_source_access_value_iff whole payload

source_years_from_payload-AreSourceYears_example : AreSourceYears years
unfolding source_years_from_payload
source_years_from_payload-AreSourceYears_example =
    source_years_from_payload-AreSourceYears whole payload years refl

load_configured_cycle_runner_config-IsRunnable_example : IsRunnable loaded
unfolding load_configured_cycle_runner_config
load_configured_cycle_runner_config-IsRunnable_example =
    load_configured_cycle_runner_config-IsRunnable whole no_members "data/raw" payload none loaded
      refl

positive_int-str_example :
    (positive_int whole "initial_year" (integer (ℤ.pos 2020)) ≡ ok 2020)
    × (positive_int whole "initial_year" (string (show_int (ℤ.pos 2020))) ≡ ok 2020)
positive_int-str_example = positive_int-str whole "initial_year" (ℤ.pos 2020)

abbrev settings : Members ℕ
settings =
    member "CARBONOPS_POSTGRESQL_DSN" (string "postgresql://db")
      (member "CARBONOPS_POSTGRESQL_PORT" (string "70000") no_members)

load_postgresql_runtime_config_ready_example :
    ((load_postgresql_runtime_config whole true settings).status ≡ RuntimeConfigStatus.ready)
    ↔ IsReady whole settings
load_postgresql_runtime_config_ready_example =
    load_postgresql_runtime_config_ready whole true settings

-- A file system that is a list of directories.
abbrev files : Files (List String)
files = record {
  path_of = λ text. text;
  exists = λ path w. (ok (contains path w), w);
  is_dir = λ path w. (ok (contains path w), w);
  mkdir = λ path w. (ok tt, path ∷ w);
  stat = λ path w. (ok true, w);
  is_os_error = λ e. true;
}

abbrev IsListed : String → List String → Type 0
IsListed path w = contains path w ≡ true

files-AreFiles : AreFiles files IsListed
files-AreFiles = record {
  is_dir_true = λ path w h. cc h;
  exists_keeps = λ path w h. h;
  stat_keeps = λ path w h. h;
}

abbrev root : Json ℕ
root = string "data/raw"

validated_archive_root-IsRoot_example :
    Ensures (validated_archive_root files root) ("data" ∷ []) (IsRoot IsListed)
validated_archive_root-IsRoot_example =
    validated_archive_root-IsRoot files IsListed files-AreFiles root ("data" ∷ [])
