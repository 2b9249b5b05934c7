-- ===== src/Cycle/Config/Json.antt =====
-- What `json.loads` returns, and the helpers of configured_cycle_config.py that read it.
use carbon_ops_parser.Prelude.{
  ℕ, zero, suc, String, Bool, true, false, not, Option, none, some, List, [], ◌∷◌, contains, get_or,
  ◌==◌, if◌then◌else◌,
}
use carbon_ops_parser.Exec.{Result, ok, raised, value_error}
use carbon_ops_parser.Text.{strip, lower}
use carbon_ops_parser.Text.Number.{ℤ, concat, show_int, parse_int}

-- `F` is the type of floats.
mutual
  pub data Json (F : Type 0) : Type 0 where
    none_value : Json F
    boolean : Bool → Json F
    integer : ℤ → Json F
    float : F → Json F
    string : String → Json F
    array : Elements F → Json F
    mapping : Members F → Json F

  pub data Elements (F : Type 0) : Type 0 where
    no_elements : Elements F
    element : Json F → Elements F → Elements F

  pub data Members (F : Type 0) : Type 0 where
    no_members : Members F
    member : String → Json F → Members F → Members F

-- Python's operations on floats and containers: `str(value)` of a float, a list or a dictionary,
-- whether a float is zero or negative, and `float(value)` with `none` for a `TypeError` or a
-- `ValueError`.
pub record Floats (F : Type 0) : Type 0 where
  pub str_other : Json F → String
  pub is_zero : F → Bool
  pub is_negative : F → Bool
  pub float_of : Json F → Option F

module _ {F : Type 0} where
  -- `mapping.get(key)`
  unfoldable pub get : String → Members F → Option (Json F)
  get key no_members = none
  get key (member k v members) = if k == key then some v else get key members

  -- the value, if it is a `Mapping`
  abbrev pub as_mapping : Json F → Option (Members F)
  as_mapping (mapping members) = some members
  as_mapping _ = none

  -- `_nested_get`
  unfoldable pub nested_get : Json F → List String → Json F
  unfolding get
  nested_get current [] = current
  nested_get (mapping members) (key ∷ keys) = nested_get (get_or (get key members) none_value) keys
  nested_get _ (key ∷ keys) = none_value

  abbrev lookup_in : Option (Members F) → String → Option (Json F)
  lookup_in (some members) key = get key members
  lookup_in none key = none

  abbrev pub and_lookup : Option (Json F) → (Json F → Option (Json F)) → Option (Json F)
  and_lookup none f = none
  and_lookup (some v) f = f v

  -- `_nested_lookup`, with `none` for a value that is not found
  unfoldable pub nested_lookup : List String → Json F → Option (Json F)
  unfolding get
  nested_lookup [] current = some current
  nested_lookup (key ∷ keys) current =
      and_lookup (lookup_in (as_mapping current) key) (nested_lookup keys)

  -- `_coalesce_config_values`
  unfoldable pub coalesce_config_values : List (Json F) → Json F
  coalesce_config_values [] = none_value
  coalesce_config_values (none_value ∷ values) = coalesce_config_values values
  coalesce_config_values (value ∷ values) = value

abbrev positive_error : String → Result ℕ
positive_error field_name =
    raised (value_error (concat (field_name ∷ " must be a positive integer." ∷ [])))

abbrev pub positive_of : String → Option ℤ → Result ℕ
positive_of field_name (some (ℤ.pos (suc n))) = ok (suc n)
positive_of field_name _ = positive_error field_name

abbrev pub some_int : Result ℕ → Result (Option ℕ)
some_int (ok n) = ok (some n)
some_int (raised e) = raised e

module _ {F : Type 0} (floats : Floats F) where
  -- `str(value)`
  unfoldable pub str : Json F → String
  unfolding show_int
  str none_value = "None"
  str (boolean true) = "True"
  str (boolean false) = "False"
  str (integer n) = show_int n
  str (string s) = s
  str value = floats.str_other value

  -- `bool(value)`
  abbrev pub truthy : Json F → Bool
  truthy none_value = false
  truthy (boolean b) = b
  truthy (integer (ℤ.pos zero)) = false
  truthy (integer _) = true
  truthy (float x) = not (floats.is_zero x)
  truthy (string s) = not (s == "")
  truthy (array no_elements) = false
  truthy (array _) = true
  truthy (mapping no_members) = false
  truthy (mapping _) = true

  -- `a or b`
  abbrev pub or_value : Json F → Json F → Json F
  or_value a b = if truthy a then a else b

  -- `_positive_int`
  unfoldable pub positive_int : String → Json F → Result ℕ
  unfolding str parse_int
  positive_int field_name value = positive_of field_name (parse_int (str value))

  -- `_optional_positive_int`
  unfoldable pub optional_positive_int : String → Json F → Result (Option ℕ)
  unfolding positive_int
  optional_positive_int field_name none_value = ok none
  optional_positive_int field_name (string s) =
      let parsed = some_int (positive_int field_name (string s)) in
      if s == "" then ok none else parsed
  optional_positive_int field_name value = some_int (positive_int field_name value)

  abbrev float_error : String → Result F
  float_error field_name =
      raised (value_error (concat (field_name ∷ " must be a non-negative number." ∷ [])))

  abbrev non_negative : String → Option F → Result F
  non_negative field_name none = float_error field_name
  non_negative field_name (some x) = if floats.is_negative x then float_error field_name else ok x

  -- `_non_negative_float`
  abbrev pub non_negative_float : String → Json F → Result F
  non_negative_float field_name value = non_negative field_name (floats.float_of value)

  -- `_bool_value`
  unfoldable pub bool_value : Json F → Bool
  unfolding str strip lower contains
  bool_value (boolean b) = b
  bool_value none_value = false
  bool_value value = contains (lower (strip (str value))) ("1" ∷ "true" ∷ "yes" ∷ "y" ∷ "on" ∷ [])
