-- ===== src/History/Metadata.antt =====
-- `_json_safe_redacted` and `_is_sensitive_metadata_key` of persistence/ingestion_run_history.py: the
-- metadata of a history record, made safe for JSON.
pub mod Redacted
use Prim.Native.String.{char_at}
use carbon_ops_parser.Prelude.{
  String, Bool, ◌||◌, List, [], ◌∷◌, map, contains, if◌then◌else◌, ◌≡◌, refl, true, false,
}
use carbon_ops_parser.Text.{text_lt, strip, lower, replace_char, remove_char}
use carbon_ops_parser.Text.Number.{ℤ}

-- Python objects, as far as the function tells them apart: a `Decimal` by its `str()` and a
-- `datetime` by its `isoformat()`. The keys of mappings are texts.
mutual
  pub data Object (O : Type 0) : Type 0 where
    null : Object O
    text : String → Object O
    number : ℤ → Object O
    decimal : String → Object O
    moment : String → Object O
    mapping : Fields O → Object O
    sequence : Items O → Object O
    other : O → Object O

  pub data Fields (O : Type 0) : Type 0 where
    end : Fields O
    entry : String → Object O → Fields O → Fields O

  pub data Items (O : Type 0) : Type 0 where
    nil : Items O
    cons : Object O → Items O → Items O

-- `_REDACTED_VALUE`
abbrev pub redacted_value : String
redacted_value = "***"

-- `_SENSITIVE_METADATA_KEYS`
abbrev pub sensitive_metadata_keys : List String
sensitive_metadata_keys =
    "password" ∷ "passwd" ∷ "pwd" ∷ "token" ∷ "secret" ∷ "key" ∷ "api_key" ∷ "apikey" ∷ "access_key"
    ∷ "accesskey" ∷ "private_key" ∷ "privatekey" ∷ "dsn" ∷ "connection_string" ∷ "connectionstring"
    ∷ "connection_uri" ∷ "connectionuri" ∷ "database_url" ∷ "databaseurl" ∷ []

-- `key.replace("_", "")`
abbrev compact : String → String
compact key = remove_char (char_at "_" 0) key

-- `_SENSITIVE_COMPACT_METADATA_KEYS`
abbrev sensitive_compact_metadata_keys : List String
sensitive_compact_metadata_keys = map compact sensitive_metadata_keys

-- `_is_sensitive_metadata_key`
unfoldable pub is_sensitive_metadata_key : String → Bool
unfolding strip lower replace_char remove_char contains
is_sensitive_metadata_key key =
    let normalized = replace_char (char_at "-" 0) (char_at "_" 0) (lower (strip key)) in
    contains normalized sensitive_metadata_keys
    || contains (compact normalized) sensitive_compact_metadata_keys

module _ {O : Type 0} where
  -- A field at its place among fields that are sorted by key.
  unfoldable pub put_field : String → Object O → Fields O → Fields O
  put_field k v end = entry k v end
  put_field k v (entry j w fields) =
      if text_lt j k then entry j w (put_field k v fields) else entry k v (entry j w fields)

-- `_json_safe_redacted`. The fields of a mapping come sorted by key.
module _ {O : Type 0} (redact_sensitive_text : String → String) where
  unfoldable mutual
    unfolding put_field

    pub json_safe_redacted : Object O → Object O
    json_safe_redacted null = null
    json_safe_redacted (text s) = text (redact_sensitive_text s)
    json_safe_redacted (number n) = number n
    json_safe_redacted (decimal s) = text s
    json_safe_redacted (moment s) = text s
    json_safe_redacted (mapping fields) = mapping (redacted_fields fields)
    json_safe_redacted (sequence items) = sequence (redacted_items items)
    json_safe_redacted (other o) = other o

    pub redacted_fields : Fields O → Fields O
    redacted_fields end = end
    redacted_fields (entry key item fields) =
        let safe = json_safe_redacted item in
        put_field key (if is_sensitive_metadata_key key then text redacted_value else safe)
          (redacted_fields fields)

    pub redacted_items : Items O → Items O
    redacted_items nil = nil
    redacted_items (cons item items) = cons (json_safe_redacted item) (redacted_items items)

is_sensitive_metadata_key_example : is_sensitive_metadata_key " API-Key" ≡ true
unfolding is_sensitive_metadata_key
is_sensitive_metadata_key_example = refl

plain_metadata_key_example : is_sensitive_metadata_key "completed_family_count" ≡ false
unfolding is_sensitive_metadata_key
plain_metadata_key_example = refl
