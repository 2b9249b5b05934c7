-- ===== src/History/Metadata/Redacted.antt =====
-- What `_json_safe_redacted` leaves in the metadata of a history record.
use mathlib.Core.Option
use carbon_ops_parser.Prelude.{
  String, true, false, Option, none, some, ◌==◌, eq_iff, ◌≡◌, inl, inr, refl, ◌∙◌, Bool-cases,
  if◌then◌else◌, arith,
}
use carbon_ops_parser.Text.{text_lt, text_lt_irrefl, text_lt_asymm}
use carbon_ops_parser.History.Metadata.{
  Object, null, text, number, decimal, moment, mapping, sequence, other, Fields, end, entry, Items,
  nil, cons, redacted_value, is_sensitive_metadata_key, put_field, json_safe_redacted,
  redacted_fields, redacted_items,
}

-- The value of the first field with the key.
abbrev pub find : {O : Type 0} → String → Fields O → Option (Object O)
find k end = none
find k (entry j v fields) = if j == k then some v else find k fields

-- The first of the sorted fields is not below the key.
abbrev IsBelow : {O : Type 0} → String → Fields O → Type 0
IsBelow k end = Unit
IsBelow k (entry j v fields) = text_lt j k ≡ false

module _ {O : Type 0} (P : String → Type 0) where
  -- `P` holds of the texts that dates and decimals render to.
  abbrev mutual
    pub Renders : Object O → Type 0
    Renders (decimal s) = P s
    Renders (moment s) = P s
    Renders (mapping fields) = FieldsRender fields
    Renders (sequence items) = ItemsRender items
    Renders _ = Unit

    pub FieldsRender : Fields O → Type 0
    FieldsRender end = Unit
    FieldsRender (entry k v fields) = Renders v × FieldsRender fields

    pub ItemsRender : Items O → Type 0
    ItemsRender nil = Unit
    ItemsRender (cons v items) = Renders v × ItemsRender items

  -- At any depth: no date or decimal is left, `P` holds of every text, the fields are sorted, and a
  -- field with a sensitive key has the redacted value.
  abbrev mutual
    pub IsRedacted : Object O → Type 0
    IsRedacted (text s) = P s
    IsRedacted (decimal s) = ⊥
    IsRedacted (moment s) = ⊥
    IsRedacted (mapping fields) = AreRedacted fields
    IsRedacted (sequence items) = ItemsRedacted items
    IsRedacted _ = Unit

    pub AreRedacted : Fields O → Type 0
    AreRedacted end = Unit
    AreRedacted (entry k v fields) =
        (is_sensitive_metadata_key k ≡ true → v ≡ text redacted_value)
        × IsRedacted v
        × IsBelow k fields
        × AreRedacted fields

    pub ItemsRedacted : Items O → Type 0
    ItemsRedacted nil = Unit
    ItemsRedacted (cons v items) = IsRedacted v × ItemsRedacted items

  -- A field goes in behind a key that is not above it.
  put_field-IsBelow :
      (i k : String) (v : Object O) (fields : Fields O)
      → text_lt k i ≡ false
      → IsBelow i fields
      → IsBelow i (put_field k v fields)
  unfolding put_field
  put_field-IsBelow i k v end h below = h
  put_field-IsBelow i k v (entry j w fields) h below = elim (Bool-cases (text_lt j k)) [
    | inl yes' ↦ rw yes' below
    | inr no' ↦ rw no' h
  ]

  put_field-AreRedacted :
      (k : String) (v : Object O) (fields : Fields O)
      → (is_sensitive_metadata_key k ≡ true → v ≡ text redacted_value)
      → IsRedacted v
      → AreRedacted fields
      → AreRedacted (put_field k v fields)
  unfolding put_field
  put_field-AreRedacted k v end hidden safe rest = (hidden, safe, tt, tt)
  put_field-AreRedacted k v (entry j w fields) hidden safe (hidden', safe', below, rest) =
      elim (Bool-cases (text_lt j k)) [
        | inl yes' ↦ rw yes' (
          hidden',
          safe',
          put_field-IsBelow j k v fields (text_lt_asymm j k yes') below,
          put_field-AreRedacted k v fields hidden safe rest,
        )
        | inr no' ↦ rw no' (hidden, safe, no', (hidden', safe', below, rest))
      ]

module _ {O : Type 0} (redact_sensitive_text : String → String) (P : String → Type 0)
    (redacts : (s : String) → P (redact_sensitive_text s)) (hides : P redacted_value) where
  mutual
    unfolding redacted_fields

    json_safe_redacted-IsRedacted_lem :
        (v : Object O) → Renders P v → IsRedacted P (json_safe_redacted redact_sensitive_text v)
    json_safe_redacted-IsRedacted_lem null h = tt
    json_safe_redacted-IsRedacted_lem (text s) h = redacts s
    json_safe_redacted-IsRedacted_lem (number n) h = tt
    json_safe_redacted-IsRedacted_lem (decimal s) h = h
    json_safe_redacted-IsRedacted_lem (moment s) h = h
    json_safe_redacted-IsRedacted_lem (mapping fields) h = redacted_fields-AreRedacted fields h
    json_safe_redacted-IsRedacted_lem (sequence items) h = redacted_items-ItemsRedacted items h
    json_safe_redacted-IsRedacted_lem (other o) h = tt

    redacted_fields-AreRedacted :
        (fields : Fields O)
        → FieldsRender P fields
        → AreRedacted P (redacted_fields redact_sensitive_text fields)
    redacted_fields-AreRedacted end h = tt
    redacted_fields-AreRedacted (entry k v fields) (h, hs) =
        let rest = redacted_fields-AreRedacted fields hs in
        let safe = json_safe_redacted-IsRedacted_lem v h in
        elim (Bool-cases (is_sensitive_metadata_key k)) [
          | inl yes' ↦ rw yes' (put_field-AreRedacted P k _ _ (λ e. refl) hides rest)
          | inr no' ↦ rw no' (put_field-AreRedacted P k _ _ (λ e. absurd (cc)) safe rest)
        ]

    redacted_items-ItemsRedacted :
        (items : Items O)
        → ItemsRender P items
        → ItemsRedacted P (redacted_items redact_sensitive_text items)
    redacted_items-ItemsRedacted nil h = tt
    redacted_items-ItemsRedacted (cons v items) (h, hs) =
        (json_safe_redacted-IsRedacted_lem v h, redacted_items-ItemsRedacted items hs)

module _ {O : Type 0} (redact_sensitive_text : String → String) where
  find-put_field :
      (k j : String) (v : Object O) (fields : Fields O)
      → find j (put_field k v fields) ≡ (if k == j then some v else find j fields)
  unfolding put_field
  find-put_field k j v end = refl
  find-put_field k j v (entry i w fields) =
      ground (arith, eq_iff k j, eq_iff i j, text_lt_irrefl k, find-put_field k j v fields)

  -- What is stored for the value of a key.
  abbrev pub stored : String → Object O → Object O
  stored k v =
      if is_sensitive_metadata_key k
      then text redacted_value
      else json_safe_redacted redact_sensitive_text v

  find-redacted_fields :
      (k : String) (fields : Fields O)
      → find k (redacted_fields redact_sensitive_text fields)
        ≡ Option.map (stored k) (find k fields)
  unfolding redacted_fields
  find-redacted_fields k end = refl
  find-redacted_fields k (entry j v fields) =
      find-put_field j k (stored j v) (redacted_fields redact_sensitive_text fields)
      ∙ ground (arith, eq_iff j k, find-redacted_fields k fields)

-- For every predicate that holds of each redacted text, of the redacted value and of the texts of
-- the dates and decimals, it holds of every text in the redacted metadata, at any depth; no date or
-- decimal is left; every mapping is sorted by key; every sensitive key has the redacted value. Every
-- key keeps its place in the look-up: what is found under it is the redacted value if the key is
-- sensitive, and else the redacted form of what was there, and no key is added.
pub redacted_fields-IsRedacted :
    {O : Type 0} (redact_sensitive_text : String → String) (P : String → Type 0)
    → ((s : String) → P (redact_sensitive_text s))
    → P redacted_value
    → (fields : Fields O) → FieldsRender P fields
    → AreRedacted P (redacted_fields redact_sensitive_text fields)
      × ((k : String)
          → find k (redacted_fields redact_sensitive_text fields)
            ≡ Option.map (stored redact_sensitive_text k) (find k fields))
redacted_fields-IsRedacted redact P redacts hides fields h = (
  redacted_fields-AreRedacted redact P redacts hides fields h,
  λ k. find-redacted_fields redact k fields,
)
