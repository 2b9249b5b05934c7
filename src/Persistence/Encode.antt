-- ===== src/Persistence/Encode.antt =====
-- What the writer does with the values of fields: `str`, `==`, JSON and SHA-256 on objects that are
-- given, and the helpers `_field`, `_text_or_none` and `_stable_digest` over them.
use carbon_ops_parser.Prelude.{
  String, Bool, true, false, ◌&&◌, Option, none, some, List, [], ◌∷◌, lookup, nat_eq, ◌==◌, length,
  if◌then◌else◌,
}
use carbon_ops_parser.Exec.{Result, ok, raised}
use carbon_ops_parser.Text.{strip}
use carbon_ops_parser.Text.Number.{concat, join}
use carbon_ops_parser.Value.{Value, null, text, object}

-- Python's operations on the objects other than `None` and texts, and the standard library's
-- functions: `json.dumps(_json_safe(object), sort_keys=True, separators=(",", ":"))`, which raises on
-- an object that has no JSON form, `json.dumps(text)`, and `sha256(text.encode()).hexdigest()`.
pub record Encoding (O : Type 0) : Type 0 where
  pub str : O → String
  pub same_object : O → O → Bool
  pub json_object : O → Result String
  pub json_text : String → String
  pub sha256_hexdigest : String → String

-- `text or None`
abbrev pub non_empty : String → Option String
non_empty s = if s == "" then none else some s

-- `a or b`, where the empty text is falsy
abbrev pub truthy_or : Option String → Option String → Option String
truthy_or none b = b
truthy_or (some a) b = if a == "" then b else some a

-- `a or default`
abbrev pub text_or : Option String → String → String
text_or none default = default
text_or (some a) default = if a == "" then default else a

abbrev field_or : {O : Type 0} → Option (Value O) → Value O → Value O
field_or none rest = rest
field_or (some value) rest = value

-- `_field`: the value of the first name that the fields have, or `None`
unfoldable pub field : {O : Type 0} → List (String × Value O) → List String → Value O
unfolding lookup
field fields [] = null
field fields (name ∷ names) = field_or (lookup name fields) (field fields names)

abbrev cons_result : Result String → Result (List String) → Result (List String)
cons_result (ok s) (ok rest) = ok (s ∷ rest)
cons_result (ok s) (raised e) = raised e
cons_result (raised e) rest = raised e

abbrev map_result : {A B : Type 0} → (A → B) → Result A → Result B
map_result f (ok a) = ok (f a)
map_result f (raised e) = raised e

module _ {O : Type 0} (encoding : Encoding O) where
  -- `_text_or_none`
  unfoldable pub text_or_none : Value O → Option String
  unfolding strip
  text_or_none null = none
  text_or_none (text s) = non_empty (strip s)
  text_or_none (object o) = non_empty (strip (encoding.str o))

  -- `_text_or_none(_field(fields, *names))`
  unfoldable pub text_field : List (String × Value O) → List String → Option String
  unfolding text_or_none field
  text_field fields names = text_or_none (field fields names)

  abbrev json_value : Value O → Result String
  json_value null = ok "null"
  json_value (text s) = ok (encoding.json_text s)
  json_value (object o) = encoding.json_object o

  abbrev json_values : List (Value O) → Result (List String)
  json_values [] = ok []
  json_values (v ∷ vs) = cons_result (json_value v) (json_values vs)

  -- `_stable_digest`, and `_record_checksum`
  unfoldable pub stable_digest : List (Value O) → Result String
  stable_digest values =
      map_result (λ parts. encoding.sha256_hexdigest (concat ("[" ∷ join "," parts ∷ "]" ∷ [])))
        (json_values values)

  -- `==` on values; a text is no other object
  abbrev pub same_value : Value O → Value O → Bool
  same_value null null = true
  same_value (text s) (text t) = s == t
  same_value (object a) (object b) = encoding.same_object a b
  same_value _ _ = false

  abbrev same_found : Option (Value O) → Value O → Bool
  same_found none v = false
  same_found (some w) v = same_value v w

  abbrev all_found : List (String × Value O) → List (String × Value O) → Bool
  all_found [] e = true
  all_found ((k, v) ∷ d) e = same_found (lookup k e) v && all_found d e

  -- `==` on dictionaries
  unfoldable pub same_dict : List (String × Value O) → List (String × Value O) → Bool
  unfolding lookup
  same_dict d e = nat_eq (length d) (length e) && all_found d e
