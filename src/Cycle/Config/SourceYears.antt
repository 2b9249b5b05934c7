-- ===== src/Cycle/Config/SourceYears.antt =====
-- `_source_years_from_payload`: the artifacts of the configured source years.
use carbon_ops_parser.Prelude.{
  ℕ, String, Option, none, some, List, [], ◌∷◌, ◌==◌, insert, get_or, nat_eq, if◌then◌else◌,
}
use carbon_ops_parser.Exec.{Result, ok, raised, value_error}
use carbon_ops_parser.Exec.Checked.{◌>>=◌}
use carbon_ops_parser.Text.{strip}
use carbon_ops_parser.Text.Number.{concat, show}
use carbon_ops_parser.Cycle.Config.Json.{
  Json, Members, Floats, as_mapping, get, nested_get, str, or_value, positive_int, none_value,
  string, mapping, member, no_members,
}
use carbon_ops_parser.Cycle.Config.Families.{source_family_alias}

-- `ConfiguredSourceYearArtifact`
pub record SourceYearArtifact : Type 0 where
  pub year : ℕ
  pub artifact_url : String
  pub publication_url : String
  pub title : String
  pub version_label : String
  pub content_type : String
  pub format_hint : String

abbrev pub YearArtifacts : Type 0
YearArtifacts = List (ℕ × SourceYearArtifact)

-- `years[year] = artifact`
unfoldable pub insert_year : ℕ → SourceYearArtifact → YearArtifacts → YearArtifacts
insert_year year artifact [] = (year, artifact) ∷ []
insert_year year artifact ((y, a) ∷ years) =
    if nat_eq y year then (y, artifact) ∷ years else (y, a) ∷ insert_year year artifact years

-- `raw_entry if isinstance(raw_entry, Mapping) else {}`
abbrev pub members_of : {F : Type 0} → Json F → Members F
members_of raw_entry = get_or (as_mapping raw_entry) no_members

abbrev pub or_error : {A : Type 0} → Option A → String → Result A
or_error none text = raised (value_error text)
or_error (some a) text = ok a

-- `except ValueError as exc: raise ValueError(text)` around `_positive_int`, which raises nothing else
abbrev pub with_text : {A : Type 0} → Result A → String → Result A
with_text (ok a) text = ok a
with_text (raised e) text = raised (value_error text)

module _ {F : Type 0} (floats : Floats F) where
  -- `entry.get(key) or … or default`
  unfoldable pub first_value : Members F → List String → Json F → Json F
  unfolding get
  first_value entry [] default = default
  first_value entry (key ∷ keys) default =
      or_value floats (get_or (get key entry) none_value) (first_value entry keys default)

  unfoldable pub text_value : Members F → List String → String → String
  unfolding first_value str
  text_value entry keys default = str floats (first_value entry keys (string default))

  -- `artifact_url` of an entry
  unfoldable pub artifact_url_of : Members F → String
  unfolding text_value strip
  artifact_url_of entry = strip (
      text_value entry ("artifact_url" ∷ "artifactUrl" ∷ "path" ∷ "local_path" ∷ "localPath" ∷ [])
        "")

  unfoldable pub artifact_of : String → ℕ → String → Members F → SourceYearArtifact
  unfolding text_value show
  artifact_of family year artifact_url entry = record {
    year = year;
    artifact_url = artifact_url;
    publication_url = text_value entry ("publication_url" ∷ "publicationUrl" ∷ []) artifact_url;
    title = text_value entry ("title" ∷ []) (concat (family ∷ " " ∷ show year ∷ []));
    version_label = text_value entry ("version_label" ∷ "versionLabel" ∷ []) (show year);
    content_type = text_value entry ("content_type" ∷ "contentType" ∷ []) "text/csv";
    format_hint = text_value entry ("format_hint" ∷ "formatHint" ∷ []) "csv";
  }

  abbrev pub checked_artifact : String → ℕ → String → Members F → Result SourceYearArtifact
  checked_artifact family year artifact_url entry =
      if artifact_url == ""
      then raised (
          value_error
            (concat ("source_years." ∷ family ∷ "." ∷ show year ∷ " requires artifact_url." ∷ [])))
      else ok (artifact_of family year artifact_url entry)

  -- one round of the loop over the years of a family
  unfoldable pub year_entry : String → String → Json F → Result SourceYearArtifact
  unfolding ◌>>=◌ positive_int artifact_url_of artifact_of
  year_entry family raw_year raw_entry = do
    year ←
        with_text (positive_int floats "source_year" (string raw_year))
          (concat ("source_years." ∷ family ∷ " year key must be a positive integer." ∷ []))
    checked_artifact family year (artifact_url_of (members_of raw_entry)) (members_of raw_entry)

  -- the loop over the years of a family
  unfoldable pub family_years : String → YearArtifacts → Members F → Result YearArtifacts
  unfolding ◌>>=◌ year_entry insert_year
  family_years family years no_members = ok years
  family_years family years (member raw_year raw_entry entries) = do
    artifact ← year_entry family raw_year raw_entry
    family_years family (insert_year artifact.year artifact years) entries

  -- `_extract_years_payload`
  unfoldable pub extract_years_payload : Json F → Json F
  unfolding first_value
  extract_years_payload (mapping members) =
      first_value members ("years" ∷ "source_years" ∷ []) (mapping members)
  extract_years_payload raw_value = raw_value

  abbrev pub years_of : String → Option (Members F) → Result YearArtifacts
  years_of family (some members) = family_years family [] members
  years_of family none =
      raised
        (value_error (concat ("source_years." ∷ family ∷ " must be an object keyed by year." ∷ [])))

  -- the loop over the families
  unfoldable pub all_years :
      List (String × YearArtifacts) → Members F → Result (List (String × YearArtifacts))
  unfolding ◌>>=◌ source_family_alias family_years extract_years_payload insert
  all_years result no_members = ok result
  all_years result (member raw_family raw_years families) = do
    family ←
        or_error (source_family_alias raw_family)
          (concat ("Unsupported source family in source_years: " ∷ raw_family ∷ "." ∷ []))
    years ← years_of family (as_mapping (extract_years_payload raw_years))
    all_years (insert family years result) families

  abbrev pub years_from : Option (Members F) → Result (List (String × YearArtifacts))
  years_from (some members) = all_years [] members
  years_from none = raised (value_error "source_years must be an object keyed by source family.")

  -- `source_year_payload`
  unfoldable pub source_year_payload : Json F → Json F
  unfolding nested_get
  source_year_payload payload =
      or_value floats
        (or_value floats
          (or_value floats (nested_get payload ("source_years" ∷ []))
            (nested_get payload ("sourceYears" ∷ [])))
          (nested_get payload ("sources" ∷ [])))
        (mapping no_members)

  -- `_source_years_from_payload`
  unfoldable pub source_years_from_payload : Json F → Result (List (String × YearArtifacts))
  unfolding all_years source_year_payload
  source_years_from_payload payload = years_from (as_mapping (source_year_payload payload))
