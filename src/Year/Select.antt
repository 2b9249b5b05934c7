-- ===== src/Year/Select.antt =====
-- The source-family aliases, `_normalize_source_families` and `_select_year_state`.
pub mod Selection
use carbon_ops_parser.Prelude.{
  ℕ, ◌+◌, String, Option, none, some, List, [], ◌∷◌, ◌++◌, lookup, contains, if◌then◌else◌,
}
use carbon_ops_parser.Exec.{Result, ok, raised, subscript}
use carbon_ops_parser.Year.Types.{FailureDetail, SelectionStatus, YearState}

-- `PRODUCTION_E2E_SOURCE_FAMILIES`
abbrev pub source_families : List String
source_families = "ghg_protocol" ∷ "defra_desnz" ∷ "ipcc_efdb" ∷ []

-- `_SOURCE_FAMILY_ALIASES`
abbrev pub source_family_aliases : List (String × String)
source_family_aliases =
    ("ghg", "ghg_protocol")
    ∷ ("ghg_protocol", "ghg_protocol")
    ∷ ("defra", "defra_desnz")
    ∷ ("desnz", "defra_desnz")
    ∷ ("defra_desnz", "defra_desnz")
    ∷ ("ipcc", "ipcc_efdb")
    ∷ ("ipcc_efdb", "ipcc_efdb")
    ∷ []

-- `_YEAR_STATE_KEYS`
abbrev pub year_state_keys : List (String × String)
year_state_keys = ("ghg_protocol", "ghg") ∷ ("defra_desnz", "defra") ∷ ("ipcc_efdb", "ipcc") ∷ []

-- `_failure`
abbrev pub failure : Option String → String → String → String → Option String → FailureDetail
failure source_family stage code message field_name = record {
  source_family = source_family;
  stage = stage;
  code = code;
  message = message;
  field_name = field_name;
  severity = "error";
}

abbrev pub unknown_source_family : String → FailureDetail
unknown_source_family source_family =
    failure (some source_family) "selection" "PRODUCTION_E2E_UNKNOWN_SOURCE_FAMILY"
      "Enabled source family is not supported by this boundary."
      (some "request.enabled_source_families")

abbrev pub Selection : Type 0
Selection = List String × List (String × FailureDetail)

-- One round of the loop in `_normalize_source_families`.
unfoldable pub select_one : Selection → String → Option String → Selection
select_one (selected, failures) source_family none =
    (selected, failures ++ (source_family, unknown_source_family source_family) ∷ [])
select_one (selected, failures) source_family (some normalized) =
    (if contains normalized selected then selected else selected ++ normalized ∷ [], failures)

unfoldable pub normalize_from : Selection → List String → Selection
normalize_from acc [] = acc
normalize_from acc (source_family ∷ rest) =
    normalize_from (select_one acc source_family (lookup source_family source_family_aliases)) rest

unfoldable pub normalize_source_families : List String → Selection
unfolding normalize_from select_one
normalize_source_families requested = normalize_from ([], []) requested

-- The year after the latest ingested one, or the initial one.
abbrev pub next_year : Option ℕ → ℕ → ℕ
next_year none initial_year = initial_year
next_year (some latest) initial_year = latest + 1

abbrev pub selection_status : Option ℕ → SelectionStatus
selection_status none = SelectionStatus.initial_year_selected
selection_status (some latest) = SelectionStatus.next_year_selected

abbrev pub year_state_of : String → String → Option ℕ → ℕ → YearState
year_state_of source_family key latest_year initial_year = record {
  source_family = source_family;
  year_state_key = key;
  latest_year = latest_year;
  target_year = next_year latest_year initial_year;
  initial_year = initial_year;
  selection_status = selection_status latest_year;
}

abbrev pub with_key : String → Option ℕ → ℕ → Result String → Result YearState
with_key source_family latest_year initial_year (ok key) =
    ok (year_state_of source_family key latest_year initial_year)
with_key source_family latest_year initial_year (raised e) = raised e

unfoldable pub select_year_state : String → Option ℕ → ℕ → Result YearState
select_year_state source_family latest_year initial_year =
    with_key source_family latest_year initial_year (subscript year_state_keys source_family)
