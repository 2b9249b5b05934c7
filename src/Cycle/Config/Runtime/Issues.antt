-- ===== src/Cycle/Config/Runtime/Issues.antt =====
-- When the checks of a PostgreSQL configuration find no issue.
use carbon_ops_parser.Prelude.{
  String, Bool, true, false, ◌&&◌, ◌||◌, Option, none, some, List, [], ◌∷◌, append_iff, Bool-cases,
  ◌≡◌, ◌↔◌, inl, inr, refl, arith,
}
use carbon_ops_parser.Text.Number.{ℤ, parse_int}
use carbon_ops_parser.Cycle.Config.Json.{Json, Floats, str}
use carbon_ops_parser.Cycle.Config.Runtime.{
  RuntimeConfigStatus, RuntimeConfigIssue, RuntimeConfig, is_given, missing_required, parsed_or,
  range_issues, connection_issues, load_result, is_absent,
}

abbrev pub passes : (ℤ → Bool) → Option ℤ → Bool
passes accepts none = false
passes accepts (some n) = accepts n

-- A value that is absent, or the text of an integer that the test accepts.
abbrev pub is_accepted : {F : Type 0} → Floats F → (ℤ → Bool) → Json F → Bool
is_accepted floats accepts value = is_absent value || passes accepts (parse_int (str floats value))

-- A DSN, or all that a connection needs without one.
abbrev pub is_connectable : RuntimeConfig → Bool
is_connectable c =
    is_given c.dsn
    || (is_given c.host && is_given c.database && is_given c.username && is_given c.password)

pub range_issues_iff :
    (accepts : ℤ → Bool) (default : ℤ) (range parse : RuntimeConfigIssue) (o : Option ℤ)
    → (range_issues accepts range (parsed_or default parse o) ≡ []) ↔ (passes accepts o ≡ true)
range_issues_iff accepts default range parse none = ((λ h. absurd (cc h)), λ h. absurd (cc h))
range_issues_iff accepts default range parse (some n) = elim (Bool-cases (accepts n)) [
  | inl good ↦ rw good ((λ h. refl), λ h. refl)
  | inr bad ↦ rw bad ((λ h. absurd (cc h)), λ h. absurd (cc h))
]

missing_required_iff :
    (value : Option String) (field_name code : String)
    → (missing_required value field_name code ≡ []) ↔ (is_given value ≡ true)
missing_required_iff value field_name code = elim (Bool-cases (is_given value)) [
  | inl given ↦ rw given ((λ h. refl), λ h. refl)
  | inr missing ↦ rw missing ((λ h. absurd (cc h)), λ h. absurd (cc h))
]

pub load_result-ready :
    (b : Bool) (config : RuntimeConfig) (issues : List RuntimeConfigIssue)
    → ((load_result b config issues).status ≡ RuntimeConfigStatus.ready) ↔ (issues ≡ [])
load_result-ready b config [] = ((λ h. refl), λ h. refl)
load_result-ready b config (issue ∷ issues) = ((λ h. absurd (cc h)), λ h. absurd (cc h))

through_and :
    {A : Type 0} {a b c d : Bool}
    → A ↔ ((a ≡ true) × ((b ≡ true) × ((c ≡ true) × (d ≡ true))))
    → A ↔ ((a && b && c && d) ≡ true)
through_and {a} {b} {c} {d} (f, g) =
    (λ x. let (p, (q, (r, s))) = f x in ground arith, λ h. g (ground arith))

pub connection_issues_iff :
    (c : RuntimeConfig) → (connection_issues c ≡ []) ↔ (is_connectable c ≡ true)
connection_issues_iff c = elim (Bool-cases (is_given c.dsn)) [
  | inl given ↦ rw given ((λ h. refl), λ h. refl)
  | inr missing ↦ rw missing (
      through_and (
        append_iff
          (missing_required_iff c.host "CARBONOPS_POSTGRESQL_HOST"
            "POSTGRESQL_RUNTIME_CONFIG_MISSING_HOST")
          (append_iff
            (missing_required_iff c.database "CARBONOPS_POSTGRESQL_DATABASE"
              "POSTGRESQL_RUNTIME_CONFIG_MISSING_DATABASE")
            (append_iff
              (missing_required_iff c.username "CARBONOPS_POSTGRESQL_USERNAME"
                "POSTGRESQL_RUNTIME_CONFIG_MISSING_USERNAME")
              (missing_required_iff c.password "CARBONOPS_POSTGRESQL_PASSWORD"
                "POSTGRESQL_RUNTIME_CONFIG_MISSING_PASSWORD")))))
]
