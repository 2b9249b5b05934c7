-- ===== src/Cycle/Config/Artifacts.antt =====
-- What the configured source years hold.
use carbon_ops_parser.Prelude.{
  ℕ, zero, suc, ◌≤◌, String, false, Option, none, some, List, [], ◌∷◌, ◌==◌, insert, nat_eq, All,
  Bool-cases, ◌≡◌, inl, inr, refl, arith,
}
use carbon_ops_parser.Exec.{Result, ok, raised}
use carbon_ops_parser.Exec.Checked.{IfOk, from_ok, Checked-bind}
use carbon_ops_parser.Text.Number.{ℤ, parse_int}
use carbon_ops_parser.Cycle.Config.Json.{
  Json, Members, Floats, as_mapping, str, positive_int, positive_of, string, member, no_members,
}
use carbon_ops_parser.Cycle.Config.Families.{
  source_family_alias, IsCanonical, source_family_alias-IsCanonical,
}
use carbon_ops_parser.Cycle.Config.SourceYears.{
  SourceYearArtifact, YearArtifacts, insert_year, with_text, or_error, artifact_of, artifact_url_of,
  members_of, checked_artifact, year_entry, family_years, extract_years_payload, years_of,
  all_years, years_from, source_year_payload, source_years_from_payload,
}

-- An artifact with a year from 1 on, and a place to read it from.
abbrev pub IsArtifact : SourceYearArtifact → Type 0
IsArtifact a = (1 ≤ a.year) × ((a.artifact_url == "") ≡ false)

-- Each artifact stands at its own year.
abbrev pub AreArtifacts : YearArtifacts → Type 0
AreArtifacts = All (λ e. (e.1.year ≡ e.0) × IsArtifact e.1)

-- Each family has its canonical name.
abbrev pub AreSourceYears : List (String × YearArtifacts) → Type 0
AreSourceYears = All (λ e. IsCanonical e.0 × AreArtifacts e.1)

insert_year-AreArtifacts :
    (artifact : SourceYearArtifact) (years : YearArtifacts)
    → IsArtifact artifact
    → AreArtifacts years
    → AreArtifacts (insert_year artifact.year artifact years)
unfolding insert_year
insert_year-AreArtifacts artifact [] h hs = ((refl, h), hs)
insert_year-AreArtifacts artifact ((y, a) ∷ years) h (k, hs) =
    elim (Bool-cases (nat_eq y artifact.year)) [
      | inl same ↦ rw same ((ground arith, h), hs)
      | inr new ↦ rw new (k, insert_year-AreArtifacts artifact years h hs)
    ]

insert-AreSourceYears :
    (family : String) (years : YearArtifacts) (result : List (String × YearArtifacts))
    → IsCanonical family
    → AreArtifacts years
    → AreSourceYears result
    → AreSourceYears (insert family years result)
unfolding insert
insert-AreSourceYears family years [] c h hs = ((c, h), hs)
insert-AreSourceYears family years ((f, ys) ∷ result) c h (k, hs) =
    elim (Bool-cases (f == family)) [
      | inl same ↦ rw same ((k.0, h), hs)
      | inr new ↦ rw new (k, insert-AreSourceYears family years result c h hs)
    ]

positive_of-IsPositive : (name : String) (n : Option ℤ) → IfOk (λ y. 1 ≤ y) (positive_of name n)
positive_of-IsPositive name none = tt
positive_of-IsPositive name (some (ℤ.pos zero)) = tt
positive_of-IsPositive name (some (ℤ.pos (suc n))) = omega arith
positive_of-IsPositive name (some (ℤ.negsuc n)) = tt

with_text-ok :
    {A : Type 0} (P : A → Type 0) (r : Result A) (text : String)
    → IfOk P r
    → IfOk P (with_text r text)
with_text-ok P (ok a) text h = h
with_text-ok P (raised e) text h = tt

or_error-some :
    {A : Type 0} (o : Option A) (text : String) (a : A) → or_error o text ≡ ok a → o ≡ some a
or_error-some none text a e = absurd (cc e)
or_error-some (some b) text a e = cc e

module _ {F : Type 0} (floats : Floats F) where
  pub positive_int-IsPositive :
      (name : String) (value : Json F) → IfOk (λ y. 1 ≤ y) (positive_int floats name value)
  unfolding positive_int
  positive_int-IsPositive name value = positive_of-IsPositive name (parse_int (str floats value))

  checked_artifact-IsArtifact :
      (family : String) (year : ℕ) (url : String) (entry : Members F)
      → 1 ≤ year
      → IfOk IsArtifact (checked_artifact floats family year url entry)
  unfolding artifact_of
  checked_artifact-IsArtifact family year url entry h = elim (Bool-cases (url == "")) [
    | inl blank ↦ rw blank tt
    | inr given ↦ rw given (h, given)
  ]

  year_entry-IsArtifact :
      (family raw_year : String) (raw_entry : Json F)
      → IfOk IsArtifact (year_entry floats family raw_year raw_entry)
  unfolding year_entry
  year_entry-IsArtifact family raw_year raw_entry =
      Checked-bind _ _ (IfOk IsArtifact) (λ e. tt)
        (λ year e.
          checked_artifact-IsArtifact family year (artifact_url_of floats (members_of raw_entry))
            (members_of raw_entry)
            (from_ok (λ y. 1 ≤ y) _ year
              (with_text-ok (λ y. 1 ≤ y) _ _
                (positive_int-IsPositive "source_year" (string raw_year)))
              e))

  family_years-AreArtifacts :
      (family : String) (years : YearArtifacts) (entries : Members F)
      → AreArtifacts years
      → IfOk AreArtifacts (family_years floats family years entries)
  unfolding family_years
  family_years-AreArtifacts family years no_members h = h
  family_years-AreArtifacts family years (member raw_year raw_entry entries) h =
      Checked-bind (year_entry floats family raw_year raw_entry) _ (IfOk AreArtifacts) (λ e. tt)
        (λ a e. family_years-AreArtifacts family (insert_year a.year a years) entries (
          insert_year-AreArtifacts a years
            (from_ok IsArtifact _ a (year_entry-IsArtifact family raw_year raw_entry) e) h))

  years_of-AreArtifacts :
      (family : String) (o : Option (Members F)) → IfOk AreArtifacts (years_of floats family o)
  years_of-AreArtifacts family none = tt
  years_of-AreArtifacts family (some members) = family_years-AreArtifacts family [] members tt

  all_years-AreSourceYears :
      (result : List (String × YearArtifacts)) (families : Members F)
      → AreSourceYears result
      → IfOk AreSourceYears (all_years floats result families)
  unfolding all_years
  all_years-AreSourceYears result no_members h = h
  all_years-AreSourceYears result (member raw_family raw_years families) h =
      Checked-bind (or_error (source_family_alias raw_family) _) _ (IfOk AreSourceYears) (λ e. tt)
        (λ family e.
          Checked-bind
            (years_of floats family (as_mapping (extract_years_payload floats raw_years))) _
            (IfOk AreSourceYears) (λ e'. tt)
            (λ years e'. all_years-AreSourceYears (insert family years result) families (
              insert-AreSourceYears family years result
                (source_family_alias-IsCanonical raw_family family (or_error-some _ _ family e))
                (from_ok AreArtifacts _ years
                  (years_of-AreArtifacts family
                    (as_mapping (extract_years_payload floats raw_years)))
                  e')
                h)))

  years_from-AreSourceYears : (o : Option (Members F)) → IfOk AreSourceYears (years_from floats o)
  years_from-AreSourceYears none = tt
  years_from-AreSourceYears (some members) = all_years-AreSourceYears [] members tt

-- In the source years of a configuration that loads, each family has its canonical name, and each
-- artifact stands at its own year, from 1 on, with a URL that is not empty.
pub source_years_from_payload-AreSourceYears :
    {F : Type 0} (floats : Floats F) (payload : Json F) (years : List (String × YearArtifacts))
    → source_years_from_payload floats payload ≡ ok years
    → AreSourceYears years
unfolding source_years_from_payload
source_years_from_payload-AreSourceYears floats payload years =
    from_ok AreSourceYears _ years
      (years_from-AreSourceYears floats (as_mapping (source_year_payload floats payload)))
