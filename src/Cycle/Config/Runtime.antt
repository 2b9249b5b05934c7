-- ===== src/Cycle/Config/Runtime.antt =====
-- persistence/postgresql_runtime_config.py.
pub mod Issues
use carbon_ops_parser.Prelude.{
  String, Bool, true, false, not, ◌&&◌, Option, none, some, List, [], ◌∷◌, ◌++◌, ◌==◌, leb, get_or,
  if◌then◌else◌,
}
use carbon_ops_parser.Text.{strip}
use carbon_ops_parser.Text.Number.{ℤ, concat, parse_int}
use carbon_ops_parser.Cycle.Config.Json.{Json, Members, Floats, get, str, none_value, string}

-- `PostgreSQLRuntimeConfigStatus`
pub data RuntimeConfigStatus : Type 0 where
  ready blocked : RuntimeConfigStatus

-- `PostgreSQLRuntimeConfigIssue`
pub record RuntimeConfigIssue : Type 0 where
  pub code : String
  pub message : String
  pub field_name : String
  pub severity : String

-- `PostgreSQLRuntimeConfig`
pub record RuntimeConfig : Type 0 where
  pub dsn : Option String
  pub host : Option String
  pub port : ℤ
  pub database : Option String
  pub username : Option String
  pub password : Option String
  pub ssl_mode : Option String
  pub application_name : Option String
  pub initial_year : ℤ

-- `PostgreSQLRuntimeConfigLoadResult`
pub record RuntimeConfigLoadResult : Type 0 where
  pub status : RuntimeConfigStatus
  pub config : Option RuntimeConfig
  pub issues : List RuntimeConfigIssue
  pub loaded_from_environment : Bool
  pub loaded_from_explicit_values : Bool

abbrev config_issue : String → String → String → RuntimeConfigIssue
config_issue code message field_name = record {
  code = code;
  message = message;
  field_name = field_name;
  severity = "error";
}

-- `bool(value)`
abbrev pub is_given : Option String → Bool
is_given none = false
is_given (some s) = not (s == "")

-- `_append_missing_required`
abbrev pub missing_required : Option String → String → String → List RuntimeConfigIssue
missing_required value field_name code =
    if is_given value
    then []
    else config_issue code
        (concat ("PostgreSQL runtime configuration is missing " ∷ field_name ∷ "." ∷ [])) field_name
      ∷ []

-- `1 <= port <= 65535`
abbrev pub is_port : ℤ → Bool
is_port (ℤ.pos n) = leb 1 n && leb n 65535
is_port (ℤ.negsuc n) = false

-- `initial_year >= 1`
abbrev pub is_first_year : ℤ → Bool
is_first_year (ℤ.pos n) = leb 1 n
is_first_year (ℤ.negsuc n) = false

-- What `_parse_int` makes of the parsed value.
abbrev pub parsed_or : ℤ → RuntimeConfigIssue → Option ℤ → ℤ × Option RuntimeConfigIssue
parsed_or default issue none = (default, some issue)
parsed_or default issue (some n) = (n, none)

-- `[issue]` if the text is no integer, and otherwise an issue for an integer that the test refuses.
abbrev pub range_issues :
    (ℤ → Bool) → RuntimeConfigIssue → ℤ × Option RuntimeConfigIssue → List RuntimeConfigIssue
range_issues accepts issue (n, some parse_issue) = parse_issue ∷ []
range_issues accepts issue (n, none) = if accepts n then [] else issue ∷ []

abbrev port_issue : String → RuntimeConfigIssue
port_issue message =
    config_issue "POSTGRESQL_RUNTIME_CONFIG_INVALID_PORT" message "CARBONOPS_POSTGRESQL_PORT"

abbrev pub unreadable_port : RuntimeConfigIssue
unreadable_port = port_issue "PostgreSQL runtime port must be an integer between 1 and 65535."

abbrev pub unsupported_port : RuntimeConfigIssue
unsupported_port = port_issue "PostgreSQL runtime port must be between 1 and 65535."

abbrev year_issue : String → RuntimeConfigIssue
year_issue message =
    config_issue "POSTGRESQL_RUNTIME_CONFIG_INVALID_INITIAL_YEAR" message
      "CARBONOPS_POSTGRESQL_INITIAL_YEAR"

abbrev pub unreadable_year : RuntimeConfigIssue
unreadable_year = year_issue "PostgreSQL runtime initial year must be a positive integer."

abbrev pub unsupported_year : RuntimeConfigIssue
unsupported_year = year_issue "PostgreSQL runtime initial year must be positive."

-- What a connection needs if there is no DSN.
abbrev pub connection_issues : RuntimeConfig → List RuntimeConfigIssue
connection_issues config =
    if is_given config.dsn
    then []
    else missing_required config.host "CARBONOPS_POSTGRESQL_HOST"
        "POSTGRESQL_RUNTIME_CONFIG_MISSING_HOST"
      ++ (missing_required config.database "CARBONOPS_POSTGRESQL_DATABASE"
            "POSTGRESQL_RUNTIME_CONFIG_MISSING_DATABASE"
          ++ (missing_required config.username "CARBONOPS_POSTGRESQL_USERNAME"
                "POSTGRESQL_RUNTIME_CONFIG_MISSING_USERNAME"
              ++ missing_required config.password "CARBONOPS_POSTGRESQL_PASSWORD"
                  "POSTGRESQL_RUNTIME_CONFIG_MISSING_PASSWORD"))

abbrev pub load_result : Bool → RuntimeConfig → List RuntimeConfigIssue → RuntimeConfigLoadResult
load_result from_environment config [] = record {
  status = RuntimeConfigStatus.ready;
  config = some config;
  issues = [];
  loaded_from_environment = from_environment;
  loaded_from_explicit_values = not from_environment;
}
load_result from_environment config (issue ∷ issues) = record {
  status = RuntimeConfigStatus.blocked;
  config = none;
  issues = issue ∷ issues;
  loaded_from_environment = from_environment;
  loaded_from_explicit_values = not from_environment;
}

-- `value is None or value == ""`
abbrev pub is_absent : {F : Type 0} → Json F → Bool
is_absent none_value = true
is_absent (string s) = s == ""
is_absent _ = false

-- `mapping.get(key)`, with `None` for a key that is missing
abbrev pub value_of : {F : Type 0} → Members F → String → Json F
value_of source key = get_or (get key source) none_value

-- `_optional_text`
unfoldable pub optional_config_text : {F : Type 0} → Json F → Option String
unfolding strip
optional_config_text (string s) = if strip s == "" then none else some (strip s)
optional_config_text _ = none

module _ {F : Type 0} (floats : Floats F) where
  -- `_parse_int`
  unfoldable pub parse_config_int : ℤ → RuntimeConfigIssue → Json F → ℤ × Option RuntimeConfigIssue
  unfolding parse_int str
  parse_config_int default issue value =
      if is_absent value
      then (default, none)
      else parsed_or default issue (parse_int (str floats value))

  unfoldable pub parsed_port : Members F → ℤ × Option RuntimeConfigIssue
  unfolding get parse_config_int
  parsed_port source =
      parse_config_int (ℤ.pos 5432) unreadable_port (value_of source "CARBONOPS_POSTGRESQL_PORT")

  unfoldable pub parsed_year : Members F → ℤ × Option RuntimeConfigIssue
  unfolding get parse_config_int
  parsed_year source =
      parse_config_int (ℤ.pos 2024) unreadable_year
        (value_of source "CARBONOPS_POSTGRESQL_INITIAL_YEAR")

  unfoldable pub config_of : Members F → RuntimeConfig
  unfolding get optional_config_text parsed_port parsed_year
  config_of source = record {
    dsn = optional_config_text (value_of source "CARBONOPS_POSTGRESQL_DSN");
    host = optional_config_text (value_of source "CARBONOPS_POSTGRESQL_HOST");
    port = (parsed_port source).0;
    database = optional_config_text (value_of source "CARBONOPS_POSTGRESQL_DATABASE");
    username = optional_config_text (value_of source "CARBONOPS_POSTGRESQL_USERNAME");
    password = optional_config_text (value_of source "CARBONOPS_POSTGRESQL_PASSWORD");
    ssl_mode = optional_config_text (value_of source "CARBONOPS_POSTGRESQL_SSL_MODE");
    application_name =
        optional_config_text (value_of source "CARBONOPS_POSTGRESQL_APPLICATION_NAME");
    initial_year = (parsed_year source).0;
  }

  unfoldable pub config_issues : Members F → List RuntimeConfigIssue
  unfolding config_of parsed_port parsed_year
  config_issues source =
      range_issues is_port unsupported_port (parsed_port source)
      ++ (range_issues is_first_year unsupported_year (parsed_year source)
          ++ connection_issues (config_of source))

  -- `load_postgresql_runtime_config`
  unfoldable pub load_postgresql_runtime_config : Bool → Members F → RuntimeConfigLoadResult
  unfolding config_of config_issues
  load_postgresql_runtime_config loaded_from_environment source =
      load_result loaded_from_environment (config_of source) (config_issues source)
