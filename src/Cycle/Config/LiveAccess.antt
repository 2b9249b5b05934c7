-- ===== src/Cycle/Config/LiveAccess.antt =====
-- `_allow_live_source_access_value`.
use carbon_ops_parser.Prelude.{
  String, Bool, true, false, not, ◌||◌, Option, none, some, List, [], ◌∷◌, map, any_of,
  if◌then◌else◌, ◌≡◌, ◌↔◌, refl, arith, ap, ◌∙◌,
}
use carbon_ops_parser.Exec.{Result, ok, raised, value_error}
use carbon_ops_parser.Text.Number.{concat, join}
use carbon_ops_parser.Cycle.Config.Json.{Json, Floats, nested_lookup, bool_value}
use carbon_ops_parser.Cycle.Config.LiveSettings.{
  some_on, some_off, bool_value-switches_on, live_settings, nested_lookup-setting,
  nested_lookup-setting_of,
}

-- `_LIVE_SOURCE_ACCESS_CONFIG_KEYS`
abbrev pub live_source_access_keys : List (List String)
live_source_access_keys =
    ("allow_live_source_access" ∷ [])
    ∷ ("allowLiveSourceAccess" ∷ [])
    ∷ ("live_source_access" ∷ "enabled" ∷ [])
    ∷ ("liveSourceAccess" ∷ "enabled" ∷ [])
    ∷ ("real_source_smoke" ∷ "allow_live_source_access" ∷ [])
    ∷ ("realSourceSmoke" ∷ "allowLiveSourceAccess" ∷ [])
    ∷ []

abbrev same_bool : Bool → Bool → Bool
same_bool true b = b
same_bool false b = not b

-- What `_allow_live_source_access_value` makes of `resolved_values`.
abbrev agreed_value : List (String × Bool) → Result Bool
agreed_value [] = ok false
agreed_value ((key, value) ∷ resolved) =
    if any_of (λ e. not (same_bool value e.1)) resolved
    then raised (
        value_error (
          concat (
            "Conflicting live source access settings were provided: "
            ∷ join ", " (key ∷ map (λ e. e.0) resolved)
            ∷ "."
            ∷ [])))
    else ok value

agreed_value_iff :
    (resolved : List (String × Bool))
    → (agreed_value resolved ≡ ok true) ↔ (
        (any_of (λ e. same_bool true e.1) resolved ≡ true)
        × (any_of (λ e. same_bool false e.1) resolved ≡ false))
agreed_value_iff [] = ((λ h. absurd (cc h)), λ (h, k). absurd (cc h))
agreed_value_iff ((key, true) ∷ resolved) = ((λ h. (refl, ground arith)), λ (h, k). ground arith)
agreed_value_iff ((key, false) ∷ resolved) = ((λ h. absurd (ground arith)), λ (h, k). absurd (cc k))

module _ {F : Type 0} (floats : Floats F) where
  abbrev add_found : List String → Option (Json F) → List (String × Bool) → List (String × Bool)
  add_found key_path none resolved = resolved
  add_found key_path (some value) resolved = (join "." key_path, bool_value floats value) ∷ resolved

  -- the loop that collects `resolved_values`
  unfoldable pub resolved_values : Json F → List (List String) → List (String × Bool)
  unfolding nested_lookup bool_value
  resolved_values payload [] = []
  resolved_values payload (key_path ∷ key_paths) =
      add_found key_path (nested_lookup key_path payload) (resolved_values payload key_paths)

  -- `_allow_live_source_access_value`
  unfoldable pub allow_live_source_access_value : Json F → Result Bool
  unfolding resolved_values
  allow_live_source_access_value payload =
      agreed_value (resolved_values payload live_source_access_keys)

  -- Whether a value is found and reads as `b`.
  abbrev reads : Bool → Option (Json F) → Bool
  reads b none = false
  reads b (some value) = same_bool b (bool_value floats value)

  any_of-add_found :
      (b : Bool) (key_path : List String) (o : Option (Json F)) (resolved : List (String × Bool))
      → any_of (λ e. same_bool b e.1) (add_found key_path o resolved)
        ≡ (reads b o || any_of (λ e. same_bool b e.1) resolved)
  any_of-add_found b key_path none resolved = refl
  any_of-add_found b key_path (some value) resolved = refl

  any_of-resolved_values :
      (b : Bool) (payload : Json F) (key_paths : List (List String))
      → any_of (λ e. same_bool b e.1) (resolved_values payload key_paths)
        ≡ any_of (reads b) (map (λ key_path. nested_lookup key_path payload) key_paths)
  unfolding resolved_values
  any_of-resolved_values b payload [] = refl
  any_of-resolved_values b payload (key_path ∷ key_paths) = ground (
    arith,
    any_of-add_found b key_path (nested_lookup key_path payload)
        (resolved_values payload key_paths),
    any_of-resolved_values b payload key_paths,
  )

  any_of-some_on :
      (settings : List (Option (Json F))) → any_of (reads true) settings ≡ some_on floats settings
  any_of-some_on [] = refl
  any_of-some_on (none ∷ settings) = any_of-some_on settings
  any_of-some_on (some value ∷ settings) =
      rw (bool_value-switches_on floats value, any_of-some_on settings) refl

  any_of-some_off :
      (settings : List (Option (Json F))) → any_of (reads false) settings ≡ some_off floats settings
  any_of-some_off [] = refl
  any_of-some_off (none ∷ settings) = any_of-some_off settings
  any_of-some_off (some value ∷ settings) =
      rw (bool_value-switches_on floats value, any_of-some_off settings) refl

  looked_up-live_settings :
      (payload : Json F)
      → map (λ key_path. nested_lookup key_path payload) live_source_access_keys
        ≡ live_settings payload
  looked_up-live_settings payload =
      rw
        (
          nested_lookup-setting "allow_live_source_access" payload,
          nested_lookup-setting "allowLiveSourceAccess" payload,
          nested_lookup-setting_of "live_source_access" "enabled" payload,
          nested_lookup-setting_of "liveSourceAccess" "enabled" payload,
          nested_lookup-setting_of "real_source_smoke" "allow_live_source_access" payload,
          nested_lookup-setting_of "realSourceSmoke" "allowLiveSourceAccess" payload,
        )
        refl

  any_of-live_settings :
      (b : Bool) (payload : Json F)
      → any_of (λ e. same_bool b e.1) (resolved_values payload live_source_access_keys)
        ≡ any_of (reads b) (live_settings payload)
  any_of-live_settings b payload =
      any_of-resolved_values b payload live_source_access_keys
      ∙ ap (any_of (reads b)) (looked_up-live_settings payload)

  -- Live access to the sources is allowed exactly when, of the six settings, one that is there
  -- switches it on and none that is there switches it off; a `null`, a `false` and a text that does
  -- not say yes switch it off.
  pub allow_live_source_access_value_iff :
      (payload : Json F)
      → (allow_live_source_access_value payload ≡ ok true) ↔ (
          (some_on floats (live_settings payload) ≡ true)
          × (some_off floats (live_settings payload) ≡ false))
  unfolding allow_live_source_access_value
  allow_live_source_access_value_iff payload =
      rw
        (
          ← any_of-some_on (live_settings payload),
          ← any_of-some_off (live_settings payload),
          ← any_of-live_settings true payload,
          ← any_of-live_settings false payload,
        )
        (agreed_value_iff (resolved_values payload live_source_access_keys))
