-- ===== src/Cycle/Config/LiveSettings.antt =====
-- The settings of `_allow_live_source_access_value` as a payload gives them, and what they say.
use carbon_ops_parser.Prelude.{
  String, Bool, false, not, ◌||◌, Option, none, some, List, [], ◌∷◌, contains, ◌==◌, if◌then◌else◌,
  ◌≡◌, refl, arith,
}
use carbon_ops_parser.Text.Number.{show_int}
use carbon_ops_parser.Text.{strip, lower}
use carbon_ops_parser.Cycle.Config.Json.{
  Json, Floats, nested_lookup, bool_value, str, none_value, boolean, integer, float, string, array,
  mapping, Members, no_members, member, get, and_lookup,
}

module _ {F : Type 0} where
  -- The value of the first member with the name, if there is one.
  abbrev pub member_of : String → Members F → Option (Json F)
  member_of name no_members = none
  member_of name (member k value members) =
      let rest = member_of name members in if k == name then some value else rest

  -- A setting of the payload, and one of a group of the payload; `none` for one that is not there.
  abbrev pub setting : String → Json F → Option (Json F)
  setting name (mapping members) = member_of name members
  setting name _ = none

  abbrev pub setting_of : String → Option (Json F) → Option (Json F)
  setting_of name none = none
  setting_of name (some group) = setting name group

  -- The six settings.
  abbrev pub live_settings : Json F → List (Option (Json F))
  live_settings payload =
      setting "allow_live_source_access" payload
      ∷ setting "allowLiveSourceAccess" payload
      ∷ setting_of "enabled" (setting "live_source_access" payload)
      ∷ setting_of "enabled" (setting "liveSourceAccess" payload)
      ∷ setting_of "allow_live_source_access" (setting "real_source_smoke" payload)
      ∷ setting_of "allowLiveSourceAccess" (setting "realSourceSmoke" payload)
      ∷ []

  get-member_of : (name : String) (members : Members F) → get name members ≡ member_of name members
  unfolding get
  get-member_of name no_members = refl
  get-member_of name (member k value members) = rw (get-member_of name members) refl

  nested_lookup-cons :
      (name : String) (names : List String) (payload : Json F)
      → nested_lookup (name ∷ names) payload
        ≡ and_lookup (setting name payload) (nested_lookup names)
  unfolding nested_lookup
  nested_lookup-cons name names none_value = refl
  nested_lookup-cons name names (boolean b) = refl
  nested_lookup-cons name names (integer n) = refl
  nested_lookup-cons name names (float x) = refl
  nested_lookup-cons name names (string t) = refl
  nested_lookup-cons name names (array xs) = refl
  nested_lookup-cons name names (mapping members) = rw (get-member_of name members) refl

  and_lookup-nil : (o : Option (Json F)) → and_lookup o (nested_lookup []) ≡ o
  unfolding nested_lookup
  and_lookup-nil none = refl
  and_lookup-nil (some value) = refl

  pub nested_lookup-setting :
      (name : String) (payload : Json F) → nested_lookup (name ∷ []) payload ≡ setting name payload
  nested_lookup-setting name payload =
      rw (nested_lookup-cons name [] payload) (and_lookup-nil (setting name payload))

  and_lookup-setting_of :
      (name : String) (o : Option (Json F))
      → and_lookup o (nested_lookup (name ∷ [])) ≡ setting_of name o
  and_lookup-setting_of name none = refl
  and_lookup-setting_of name (some group) = nested_lookup-setting name group

  pub nested_lookup-setting_of :
      (group name : String) (payload : Json F)
      → nested_lookup (group ∷ name ∷ []) payload ≡ setting_of name (setting group payload)
  nested_lookup-setting_of group name payload =
      rw (nested_lookup-cons group (name ∷ []) payload)
        (and_lookup-setting_of name (setting group payload))

module _ {F : Type 0} (floats : Floats F) where
  -- Whether a text says yes.
  abbrev pub says_yes : String → Bool
  says_yes text =
      let word = lower (strip text) in
      "1" == word || "true" == word || "yes" == word || "y" == word || "on" == word

  -- Whether a value switches live access on: `true`, or a value whose text says yes. A `null`, `false`
  -- and any other value switch it off.
  abbrev pub switches_on : Json F → Bool
  switches_on (boolean b) = b
  switches_on none_value = false
  switches_on (string s) = says_yes s
  switches_on (integer n) = says_yes (show_int n)
  switches_on value = says_yes (floats.str_other value)

  -- Some of the settings that are there switches live access on, and some of them off.
  abbrev pub some_on : List (Option (Json F)) → Bool
  some_on [] = false
  some_on (none ∷ settings) = some_on settings
  some_on (some value ∷ settings) = switches_on value || some_on settings

  abbrev pub some_off : List (Option (Json F)) → Bool
  some_off [] = false
  some_off (none ∷ settings) = some_off settings
  some_off (some value ∷ settings) = not (switches_on value) || some_off settings

  says_yes-contains :
      (text : String)
      → contains (lower (strip text)) ("1" ∷ "true" ∷ "yes" ∷ "y" ∷ "on" ∷ []) ≡ says_yes text
  unfolding contains
  says_yes-contains text = ground arith

  pub bool_value-switches_on : (value : Json F) → bool_value floats value ≡ switches_on value
  unfolding bool_value str
  bool_value-switches_on none_value = refl
  bool_value-switches_on (boolean b) = refl
  bool_value-switches_on (integer n) = says_yes-contains (show_int n)
  bool_value-switches_on (float x) = says_yes-contains (floats.str_other (float x))
  bool_value-switches_on (string s) = says_yes-contains s
  bool_value-switches_on (array xs) = says_yes-contains (floats.str_other (array xs))
  bool_value-switches_on (mapping xs) = says_yes-contains (floats.str_other (mapping xs))
