-- ===== src/Cycle/Config/Ready.antt =====
-- When a PostgreSQL configuration is ready.
use carbon_ops_parser.Prelude.{
  or_iff, ℕ, ◌≤◌, get_or, ◌==◌, ◌⊎◌, Bool, true, false, ◌&&◌, Option, none, some, [], append_iff,
  Bool-cases, ◌≡◌, ◌↔◌, inl, inr, refl, arith,
}
use carbon_ops_parser.Text.Number.{ℤ, parse_int}
use carbon_ops_parser.Cycle.Config.Json.{
  Json, Members, Floats, str, get, none_value, boolean, integer, float, string, array, mapping,
}
use carbon_ops_parser.Text.{strip}
use carbon_ops_parser.Cycle.Config.Runtime.{
  RuntimeConfigStatus, RuntimeConfigIssue, optional_config_text, is_given, is_port, unreadable_port,
  unsupported_port, unreadable_year, unsupported_year, is_first_year, range_issues, is_absent,
  value_of, parse_config_int, parsed_port, parsed_year, config_of, config_issues,
  load_postgresql_runtime_config,
}
use carbon_ops_parser.Cycle.Config.Runtime.Issues.{
  passes, is_accepted, is_connectable, range_issues_iff, load_result-ready, connection_issues_iff,
}

-- Text of a setting, other than white space.
abbrev pub IsText : {F : Type 0} → Option (Json F) → Type 0
IsText (some (string s)) = (strip s == "") ≡ false
IsText _ = ⊥

-- A setting that is missing, `null` or empty.
abbrev pub IsUnset : {F : Type 0} → Option (Json F) → Type 0
IsUnset none = Unit
IsUnset (some none_value) = Unit
IsUnset (some (string s)) = (s == "") ≡ true
IsUnset _ = ⊥

module _ {F : Type 0} (floats : Floats F) where
  -- A setting that is the text of an integer from `low` to `high`, or from `low` on.
  abbrev pub IsBetween : ℕ → ℕ → Option (Json F) → Type 0
  IsBetween low high none = ⊥
  IsBetween low high (some value) =
      (n : ℕ) × (parse_int (str floats value) ≡ some (ℤ.pos n)) × (low ≤ n) × (n ≤ high)

  abbrev pub IsFrom : ℕ → Option (Json F) → Type 0
  IsFrom low none = ⊥
  IsFrom low (some value) = (n : ℕ) × (parse_int (str floats value) ≡ some (ℤ.pos n)) × (low ≤ n)

  -- What a configuration needs.
  pub record IsReady (source : Members F) : Type 0 where
    pub port :
        IsUnset (get "CARBONOPS_POSTGRESQL_PORT" source)
        ⊎ IsBetween 1 65535 (get "CARBONOPS_POSTGRESQL_PORT" source)
    pub initial_year :
        IsUnset (get "CARBONOPS_POSTGRESQL_INITIAL_YEAR" source)
        ⊎ IsFrom 1 (get "CARBONOPS_POSTGRESQL_INITIAL_YEAR" source)
    pub connection :
        IsText (get "CARBONOPS_POSTGRESQL_DSN" source)
        ⊎ (IsText (get "CARBONOPS_POSTGRESQL_HOST" source)
            × IsText (get "CARBONOPS_POSTGRESQL_DATABASE" source)
            × IsText (get "CARBONOPS_POSTGRESQL_USERNAME" source)
            × IsText (get "CARBONOPS_POSTGRESQL_PASSWORD" source))

  is_port_iff :
      (o : Option ℤ)
      → (passes is_port o ≡ true) ↔ ((n : ℕ) × (o ≡ some (ℤ.pos n)) × (1 ≤ n) × (n ≤ 65535))
  is_port_iff none = ((λ h. absurd (cc h)), λ (n, e, l, r). absurd (cc e))
  is_port_iff (some (ℤ.pos n)) = (
    λ h. (n, refl, ground arith, ground arith),
    λ (m, e, l, r). let p : n ≡ m = cc e in ground arith,
  )
  is_port_iff (some (ℤ.negsuc n)) = ((λ h. absurd (cc h)), λ (m, e, l, r). absurd (cc e))

  is_first_year_iff :
      (o : Option ℤ) → (passes is_first_year o ≡ true) ↔ ((n : ℕ) × (o ≡ some (ℤ.pos n)) × (1 ≤ n))
  is_first_year_iff none = ((λ h. absurd (cc h)), λ (n, e, l). absurd (cc e))
  is_first_year_iff (some (ℤ.pos n)) =
      (λ h. (n, refl, ground arith), λ (m, e, l). let p : n ≡ m = cc e in ground arith)
  is_first_year_iff (some (ℤ.negsuc n)) = ((λ h. absurd (cc h)), λ (m, e, l). absurd (cc e))

  is_absent_iff : (o : Option (Json F)) → (is_absent (get_or o none_value) ≡ true) ↔ IsUnset o
  is_absent_iff none = ((λ h. tt), λ h. refl)
  is_absent_iff (some none_value) = ((λ h. tt), λ h. refl)
  is_absent_iff (some (string s)) = ((λ h. h), λ h. h)
  is_absent_iff (some (boolean b)) = ((λ h. absurd (cc h)), λ h. absurd h)
  is_absent_iff (some (integer n)) = ((λ h. absurd (cc h)), λ h. absurd h)
  is_absent_iff (some (float x)) = ((λ h. absurd (cc h)), λ h. absurd h)
  is_absent_iff (some (array xs)) = ((λ h. absurd (cc h)), λ h. absurd h)
  is_absent_iff (some (mapping xs)) = ((λ h. absurd (cc h)), λ h. absurd h)

  is_given_iff :
      (o : Option (Json F))
      → (is_given (optional_config_text (get_or o none_value)) ≡ true) ↔ IsText o
  unfolding optional_config_text
  is_given_iff none = ((λ h. absurd (cc h)), λ h. absurd h)
  is_given_iff (some none_value) = ((λ h. absurd (cc h)), λ h. absurd h)
  is_given_iff (some (string s)) = elim (Bool-cases (strip s == "")) [
    | inl blank ↦ rw blank ((λ h. absurd (cc h)), λ h. absurd (cc h))
    | inr filled ↦ rw (filled, filled) ((λ h. refl), λ h. refl)
  ]
  is_given_iff (some (boolean b)) = ((λ h. absurd (cc h)), λ h. absurd h)
  is_given_iff (some (integer n)) = ((λ h. absurd (cc h)), λ h. absurd h)
  is_given_iff (some (float x)) = ((λ h. absurd (cc h)), λ h. absurd h)
  is_given_iff (some (array xs)) = ((λ h. absurd (cc h)), λ h. absurd h)
  is_given_iff (some (mapping xs)) = ((λ h. absurd (cc h)), λ h. absurd h)

  accepted_port :
      (o : Option (Json F))
      → (is_accepted floats is_port (get_or o none_value) ≡ true)
        ↔ (IsUnset o ⊎ IsBetween 1 65535 o)
  accepted_port none = ((λ h. inl tt), λ h. refl)
  accepted_port (some value) = or_iff (is_absent_iff (some value)) (is_port_iff _)

  accepted_year :
      (o : Option (Json F))
      → (is_accepted floats is_first_year (get_or o none_value) ≡ true) ↔ (IsUnset o ⊎ IsFrom 1 o)
  accepted_year none = ((λ h. inl tt), λ h. refl)
  accepted_year (some value) = or_iff (is_absent_iff (some value)) (is_first_year_iff _)

  and_iff :
      {a b c d : Bool} {P Q R S : Type 0}
      → (a ≡ true) ↔ P
      → (b ≡ true) ↔ Q
      → (c ≡ true) ↔ R
      → (d ≡ true) ↔ S
      → ((a && b && c && d) ≡ true) ↔ (P × Q × R × S)
  and_iff {a} {b} {c} {d} (f, f') (g, g') (h, h') (k, k') = (
    λ e. (f (ground arith), g (ground arith), h (ground arith), k (ground arith)),
    λ (p, q, r, s). ground (arith, f' p, g' q, h' r, k' s),
  )

  is_connectable_iff :
      (source : Members F)
      → (is_connectable (config_of floats source) ≡ true) ↔ (
          IsText (get "CARBONOPS_POSTGRESQL_DSN" source)
          ⊎ (IsText (get "CARBONOPS_POSTGRESQL_HOST" source)
              × IsText (get "CARBONOPS_POSTGRESQL_DATABASE" source)
              × IsText (get "CARBONOPS_POSTGRESQL_USERNAME" source)
              × IsText (get "CARBONOPS_POSTGRESQL_PASSWORD" source)))
  unfolding config_of
  is_connectable_iff source = or_iff (is_given_iff (get "CARBONOPS_POSTGRESQL_DSN" source)) (
      and_iff (is_given_iff (get "CARBONOPS_POSTGRESQL_HOST" source))
        (is_given_iff (get "CARBONOPS_POSTGRESQL_DATABASE" source))
        (is_given_iff (get "CARBONOPS_POSTGRESQL_USERNAME" source))
        (is_given_iff (get "CARBONOPS_POSTGRESQL_PASSWORD" source)))

  parse_config_int_iff :
      (accepts : ℤ → Bool) (default : ℤ) (range parse : RuntimeConfigIssue) (value : Json F)
      → accepts default ≡ true
      → (range_issues accepts range (parse_config_int floats default parse value) ≡ [])
        ↔ (is_accepted floats accepts value ≡ true)
  unfolding parse_config_int
  parse_config_int_iff accepts default range parse value d = elim (Bool-cases (is_absent value)) [
    | inl absent ↦ rw (absent, d) ((λ h. refl), λ h. refl)
    | inr present ↦
        rw present (range_issues_iff accepts default range parse (parse_int (str floats value)))
  ]

  config_issues_iff :
      (source : Members F)
      → (config_issues floats source ≡ []) ↔ (
          (is_accepted floats is_port (value_of source "CARBONOPS_POSTGRESQL_PORT") ≡ true)
          × ((is_accepted floats is_first_year (value_of source "CARBONOPS_POSTGRESQL_INITIAL_YEAR")
                ≡ true)
              × (is_connectable (config_of floats source) ≡ true)))
  unfolding config_issues parsed_port parsed_year
  config_issues_iff source =
      append_iff
        (parse_config_int_iff is_port (ℤ.pos 5432) unsupported_port unreadable_port
          (value_of source "CARBONOPS_POSTGRESQL_PORT") refl)
        (append_iff
          (parse_config_int_iff is_first_year (ℤ.pos 2024) unsupported_year unreadable_year
            (value_of source "CARBONOPS_POSTGRESQL_INITIAL_YEAR") refl)
          (connection_issues_iff (config_of floats source)))

  -- A PostgreSQL configuration is ready exactly when its port is unset or an integer from 1 to 65535,
  -- its initial year is unset or an integer from 1 on, and it has a text for the DSN or else for the
  -- host, the database, the user name and the password.
  pub load_postgresql_runtime_config_ready :
      (from_environment : Bool) (source : Members F)
      → ((load_postgresql_runtime_config floats from_environment source).status
          ≡ RuntimeConfigStatus.ready)
        ↔ IsReady source
  unfolding load_postgresql_runtime_config
  load_postgresql_runtime_config_ready from_environment source =
      let (f, g) =
        load_result-ready from_environment (config_of floats source)
          (config_issues floats source) in
      let (h, k) = config_issues_iff source in
      let port = accepted_port (get "CARBONOPS_POSTGRESQL_PORT" source) in
      let year = accepted_year (get "CARBONOPS_POSTGRESQL_INITIAL_YEAR" source) in
      let connection = is_connectable_iff source in
      (
        λ r.
            let (p, (y, c)) = h (f r) in
            record { port = port.0 p; initial_year = year.0 y; connection = connection.0 c },
        λ a. g (k (port.1 a.port, (year.1 a.initial_year, connection.1 a.connection))),
      )
