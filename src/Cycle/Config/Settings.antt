-- ===== src/Cycle/Config/Settings.antt =====
-- `_load_postgresql_config`: the PostgreSQL settings of a payload or of the environment.
use carbon_ops_parser.Prelude.{true, false, Option, none, some, [], ◌∷◌}
use carbon_ops_parser.Cycle.Config.Json.{
  Json, Members, Floats, as_mapping, get, nested_get, or_value, member, no_members,
}
use carbon_ops_parser.Cycle.Config.Runtime.{
  RuntimeConfigLoadResult, value_of, load_postgresql_runtime_config,
}

module _ {F : Type 0} (floats : Floats F) where
  -- `values` of `_load_postgresql_config`
  unfoldable pub postgresql_values : Json F → Members F → Members F
  unfolding get nested_get
  postgresql_values payload source = member "CARBONOPS_POSTGRESQL_DSN" (value_of source "dsn") (
      member "CARBONOPS_POSTGRESQL_HOST" (value_of source "host") (
        member "CARBONOPS_POSTGRESQL_PORT" (value_of source "port") (
          member "CARBONOPS_POSTGRESQL_DATABASE" (value_of source "database") (
            member "CARBONOPS_POSTGRESQL_USERNAME" (value_of source "username") (
              member "CARBONOPS_POSTGRESQL_PASSWORD" (value_of source "password") (
                member "CARBONOPS_POSTGRESQL_SSL_MODE"
                  (or_value floats (value_of source "ssl_mode") (value_of source "sslMode"))
                  (member "CARBONOPS_POSTGRESQL_APPLICATION_NAME"
                    (or_value floats (value_of source "application_name")
                      (value_of source "applicationName"))
                    (member "CARBONOPS_POSTGRESQL_INITIAL_YEAR"
                      (or_value floats
                        (or_value floats (value_of source "initial_year")
                          (value_of source "initialYear"))
                        (nested_get payload ("initial_year" ∷ [])))
                      no_members))))))))

  abbrev postgresql_from :
      Json F → Members F → Option (Members F) → Option (Members F) → RuntimeConfigLoadResult
  postgresql_from payload environ (some postgresql) database =
      load_postgresql_runtime_config floats false (postgresql_values payload postgresql)
  postgresql_from payload environ none (some database) =
      load_postgresql_runtime_config floats false (postgresql_values payload database)
  postgresql_from payload environ none none = load_postgresql_runtime_config floats true environ

  -- `_load_postgresql_config`, with the environment that is given or the process's own
  unfoldable pub load_postgresql_config : Json F → Members F → RuntimeConfigLoadResult
  unfolding load_postgresql_runtime_config postgresql_values nested_get
  load_postgresql_config payload environ =
      postgresql_from payload environ (as_mapping (nested_get payload ("postgresql" ∷ [])))
        (as_mapping (nested_get payload ("database" ∷ [])))
