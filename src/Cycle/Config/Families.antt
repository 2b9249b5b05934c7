-- ===== src/Cycle/Config/Families.antt =====
-- `_enabled_source_families` and `_allow_live_source_access_value`.
use Prim.Native.String.{char_at}
use carbon_ops_parser.Prelude.{
  String, false, Option, none, some, List, [], ◌∷◌, ◌++◌, map, lookup, contains, All, ◌==◌,
  if◌then◌else◌, Bool-cases, ◌≡◌, ◌≢◌, inl, inr, refl, ◌∙◌,
}
use carbon_ops_parser.Exec.{Result, ok, raised, value_error}
use carbon_ops_parser.Text.{strip, lower}
use carbon_ops_parser.Text.Number.{concat, split_char}
use carbon_ops_parser.Year.Select.{
  Selection, source_families, normalize_source_families, normalize_from, select_one,
  source_family_aliases,
}
use carbon_ops_parser.Cycle.Config.Json.{
  Json, Elements, Floats, nested_get, str, or_value, string, array, element, no_elements,
}

-- the table of `_source_family_alias`
abbrev pub config_aliases : List (String × String)
config_aliases =
    ("ghg", "ghg_protocol")
    ∷ ("ghg_protocol", "ghg_protocol")
    ∷ ("ghgprotocol", "ghg_protocol")
    ∷ ("defra", "defra_desnz")
    ∷ ("desnz", "defra_desnz")
    ∷ ("defra_desnz", "defra_desnz")
    ∷ ("defradesnz", "defra_desnz")
    ∷ ("ipcc", "ipcc_efdb")
    ∷ ("ipcc_efdb", "ipcc_efdb")
    ∷ ("ipccefdb", "ipcc_efdb")
    ∷ []

-- `_source_family_alias`
unfoldable pub source_family_alias : String → Option String
unfolding strip lower lookup
source_family_alias value = lookup (lower (strip value)) config_aliases

abbrev with_family : String → Option String → (String → Result (List String)) → Result (List String)
with_family raw_value none next =
    raised (value_error (concat ("Unsupported enabled source family: " ∷ raw_value ∷ "." ∷ [])))
with_family raw_value (some family) next = next family

-- `if family not in selected: selected.append(family)`
abbrev pub add_family : List String → String → List String
add_family selected family = if contains family selected then selected else selected ++ family ∷ []

-- The loop of `_enabled_source_families`, over the texts of the raw values.
unfoldable pub enabled_from : List String → List String → Result (List String)
unfolding source_family_alias contains
enabled_from selected [] = ok selected
enabled_from selected (raw_value ∷ rest) =
    with_family raw_value (source_family_alias raw_value)
      (λ family. enabled_from (add_family selected family) rest)

-- `tuple(selected) or CONFIGURED_CYCLE_SOURCE_FAMILIES`
abbrev or_all_families : Result (List String) → Result (List String)
or_all_families (ok []) = ok source_families
or_all_families (ok (family ∷ families)) = ok (family ∷ families)
or_all_families (raised e) = raised e

module _ {F : Type 0} (floats : Floats F) where
  unfoldable pub texts_of : Elements F → List String
  unfolding str
  texts_of no_elements = []
  texts_of (element value values) = str floats value ∷ texts_of values

  -- `raw_values` of `_enabled_source_families`
  unfoldable pub raw_families : Json F → List String
  unfolding texts_of split_char strip
  raw_families (string s) = map strip (split_char (char_at "," 0) s)
  raw_families (array values) = texts_of values
  raw_families _ = source_families

  -- `configured`
  unfoldable pub configured_families : Json F → Json F
  unfolding nested_get
  configured_families payload =
      or_value floats
        (or_value floats (nested_get payload ("enabled_source_families" ∷ []))
          (nested_get payload ("enabledSourceFamilies" ∷ [])))
        (nested_get payload ("sources_enabled" ∷ []))

  -- `_enabled_source_families`
  unfoldable pub enabled_source_families : Json F → Result (List String)
  unfolding enabled_from raw_families configured_families
  enabled_source_families payload =
      or_all_families (enabled_from [] (raw_families (configured_families payload)))

-- A configured alias gives a name that the year orchestrator takes as it is.
abbrev pub IsCanonical : String → Type 0
IsCanonical family = lookup family source_family_aliases ≡ some family

some-IsCanonical : (v w : String) → some v ≡ some w → IsCanonical v → IsCanonical w
unfolding lookup
some-IsCanonical v w e c = let p : v ≡ w = cc e in rw p at c

lookup-IsCanonical :
    (s : String) (d : List (String × String))
    → All (λ e. IsCanonical e.1) d
    → (family : String) → lookup s d ≡ some family
    → IsCanonical family
unfolding lookup
lookup-IsCanonical s [] h family e = absurd (cc e)
lookup-IsCanonical s ((k, v) ∷ d) (c, h) family e = elim (Bool-cases (k == s)) [
  | inl t ↦ some-IsCanonical v family (rw t at e) c
  | inr n ↦ lookup-IsCanonical s d h family (rw n at e)
]

pub source_family_alias-IsCanonical :
    (s family : String) → source_family_alias s ≡ some family → IsCanonical family
unfolding source_family_alias lookup
source_family_alias-IsCanonical s family =
    lookup-IsCanonical (lower (strip s)) config_aliases
      (refl, (refl, (refl, (refl, (refl, (refl, (refl, (refl, (refl, (refl, tt)))))))))) family

-- The year orchestrator takes the names as they are.
abbrev AreNormalized : List String → Type 0
AreNormalized fs = normalize_source_families fs ≡ (fs, [])

normalize-snoc :
    (acc : Selection) (xs : List String) (f : String)
    → normalize_from acc (xs ++ f ∷ [])
      ≡ select_one (normalize_from acc xs) f (lookup f source_family_aliases)
unfolding normalize_from
normalize-snoc acc [] f = refl
normalize-snoc acc (x ∷ xs) f =
    normalize-snoc (select_one acc x (lookup x source_family_aliases)) xs f

snoc-AreNormalized :
    (fs : List String) (f : String)
    → contains f fs ≡ false
    → IsCanonical f
    → AreNormalized fs
    → AreNormalized (fs ++ f ∷ [])
unfolding normalize_source_families select_one
snoc-AreNormalized fs f n c h = normalize-snoc ([], []) fs f ∙ rw (c, h, n)

add-AreNormalized :
    (fs : List String) (f : String)
    → IsCanonical f
    → AreNormalized fs
    → AreNormalized (if contains f fs then fs else fs ++ f ∷ [])
add-AreNormalized fs f c h = elim (Bool-cases (contains f fs)) [
  | inl t ↦ rw t h
  | inr n ↦ rw n (snoc-AreNormalized fs f n c h)
]

-- What the loop gives: names the orchestrator takes as they are, or an exception.
abbrev HoldNormalized : Result (List String) → Type 0
HoldNormalized (ok fs) = AreNormalized fs
HoldNormalized (raised e) = Unit

with_family-HoldNormalized :
    (raw : String) (o : Option String) (next : String → Result (List String))
    → ((family : String) → o ≡ some family → HoldNormalized (next family))
    → HoldNormalized (with_family raw o next)
with_family-HoldNormalized raw none next h = tt
with_family-HoldNormalized raw (some family) next h = h family refl

enabled_from-HoldNormalized :
    (selected raws : List String)
    → AreNormalized selected
    → HoldNormalized (enabled_from selected raws)
unfolding enabled_from
enabled_from-HoldNormalized selected [] h = h
enabled_from-HoldNormalized selected (raw ∷ raws) h =
    with_family-HoldNormalized raw (source_family_alias raw)
      (λ family. enabled_from (add_family selected family) raws)
      (λ family e.
        enabled_from-HoldNormalized (add_family selected family) raws
          (add-AreNormalized selected family (source_family_alias-IsCanonical raw family e) h))

or_all_families-IsNormalized :
    (r : Result (List String)) (fs : List String)
    → HoldNormalized r
    → or_all_families r ≡ ok fs
    → (fs ≢ []) × AreNormalized fs
unfolding normalize_source_families normalize_from select_one contains lookup
or_all_families-IsNormalized (ok []) fs h e =
    let p : source_families ≡ fs = cc e in rw (← p) ((λ q. absurd (cc q)), refl)
or_all_families-IsNormalized (ok (f ∷ gs)) fs h e =
    let p : f ∷ gs ≡ fs = cc e in rw (← p) ((λ q. absurd (cc q)), h)
or_all_families-IsNormalized (raised x) fs h e = absurd (cc e)

empty-AreNormalized : AreNormalized []
unfolding normalize_source_families normalize_from
empty-AreNormalized = refl

-- The enabled families of a configuration that loads are never none, and the year orchestrator's
-- `_normalize_source_families` selects them all in their order and reports none of them as unknown.
pub enabled_source_families-AreNormalized :
    {F : Type 0} (floats : Floats F) (payload : Json F) (families : List String)
    → enabled_source_families floats payload ≡ ok families
    → (families ≢ []) × (normalize_source_families families ≡ (families, []))
unfolding enabled_source_families
enabled_source_families-AreNormalized floats payload families =
    or_all_families-IsNormalized _ families (
      enabled_from-HoldNormalized [] (raw_families floats (configured_families floats payload))
        empty-AreNormalized)
