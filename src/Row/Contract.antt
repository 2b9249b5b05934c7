-- ===== src/Row/Contract.antt =====
-- `validate_parser_normalized_output_row` and `validate_parser_normalized_output_batch`. The fields
-- have the types that they are declared with, so the checks of the types always pass and are left
-- out; the registry is the one of parsers/adapter_registry_contract.py.
use carbon_ops_parser.Prelude.{
  ℕ, zero, suc, ◌+◌, String, Option, none, some, List, [], ◌∷◌, ◌++◌, map, ◌==◌, lookup,
  if◌then◌else◌,
}
use carbon_ops_parser.Text.{is_blank}
use carbon_ops_parser.Text.Number.{concat, show}
use carbon_ops_parser.Value.{Value}
use carbon_ops_parser.Issue.{Issue, error_issue}
use carbon_ops_parser.Row.{OutputRow, OutputBatch}

-- The registry's source families with their parser keys.
abbrev pub parser_keys : List (String × String)
parser_keys =
    ("ghg_protocol", "ghg_protocol_phase1_parser")
    ∷ ("defra_desnz", "defra_desnz_phase1_parser")
    ∷ ("ipcc_efdb", "ipcc_efdb_phase1_parser")
    ∷ []

-- `_validate_required_text`
abbrev required_text : String → String → String → String → List Issue
required_text value field_name code message =
    if is_blank value then error_issue code message field_name ∷ [] else []

-- `_validate_optional_text`
abbrev optional_text : Option String → String → String → String → List Issue
optional_text none field_name code message = []
optional_text (some value) field_name code message = required_text value field_name code message

-- `_validate_positive_int`
abbrev positive_int : Option ℕ → String → String → String → List Issue
positive_int none field_name code message = []
positive_int (some zero) field_name code message = error_issue code message field_name ∷ []
positive_int (some (suc n)) field_name code message = []

abbrev text_items : ℕ → List String → String → String → String → List Issue
text_items position [] field_name code message = []
text_items position (value ∷ values) field_name code message =
    required_text value (concat (field_name ∷ "[" ∷ show position ∷ "]" ∷ [])) code message
    ++ text_items (position + 1) values field_name code message

abbrev field_keys : {O : Type 0} → ℕ → List (String × Value O) → List Issue
field_keys position [] = []
field_keys position ((key, value) ∷ fields) =
    required_text key (concat ("normalized_fields[" ∷ show position ∷ "].key" ∷ []))
      "PARSER_NORMALIZED_ROW_BLANK_FIELD_KEY" "normalized field keys must be non-empty strings."
    ++ field_keys (position + 1) fields

-- `_validate_normalized_fields`
abbrev normalized_fields_issues : {O : Type 0} → List (String × Value O) → List Issue
normalized_fields_issues [] =
    error_issue "PARSER_NORMALIZED_ROW_MISSING_FIELDS"
      "normalized_fields must be a non-empty tuple of field pairs." "normalized_fields"
    ∷ []
normalized_fields_issues (item ∷ fields) = field_keys 1 (item ∷ fields)

abbrev in_row : ℕ → Issue → Issue
in_row position issue =
    error_issue issue.code issue.message
      (concat ("rows[" ∷ show position ∷ "]." ∷ issue.field_name ∷ []))

module _ {O : Type 0} where
  -- `_validate_registry_alignment`, at the descriptor of the row's source family
  abbrev registry_alignment : OutputRow O → Option String → List Issue
  registry_alignment row none =
      error_issue "PARSER_NORMALIZED_ROW_UNKNOWN_SOURCE_FAMILY"
        "source_family must match a registered Phase 1 parser adapter." "source_family"
      ∷ []
  registry_alignment row (some parser_key) =
      (if row.source_key == row.source_family
        then []
        else error_issue "PARSER_NORMALIZED_ROW_SOURCE_KEY_MISMATCH"
            "source_key must match the registered source_family." "source_key"
          ∷ [])
      ++ (if row.parser_key == parser_key
          then []
          else error_issue "PARSER_NORMALIZED_ROW_PARSER_KEY_MISMATCH"
              "parser_key must match the registered parser adapter." "parser_key"
            ∷ [])

  -- `validate_parser_normalized_output_row(row).issues`
  unfoldable pub validate_parser_normalized_output_row : OutputRow O → List Issue
  unfolding is_blank lookup
  validate_parser_normalized_output_row row =
      required_text row.source_family "source_family" "PARSER_NORMALIZED_ROW_MISSING_SOURCE_FAMILY"
        "source_family must be a non-empty string."
      ++ required_text row.source_key "source_key" "PARSER_NORMALIZED_ROW_MISSING_SOURCE_KEY"
          "source_key must be a non-empty string."
      ++ required_text row.parser_key "parser_key" "PARSER_NORMALIZED_ROW_MISSING_PARSER_KEY"
          "parser_key must be a non-empty string."
      ++ required_text row.artifact_reference "artifact_reference"
          "PARSER_NORMALIZED_ROW_MISSING_ARTIFACT_REFERENCE"
          "artifact_reference must be a non-empty string."
      ++ required_text row.row_id "row_id" "PARSER_NORMALIZED_ROW_MISSING_ROW_ID"
          "row_id must be a non-empty string."
      ++ normalized_fields_issues row.normalized_fields
      ++ positive_int row.source_row_number "source_row_number"
          "PARSER_NORMALIZED_ROW_INVALID_SOURCE_ROW_NUMBER"
          "source_row_number must be a positive integer when provided."
      ++ positive_int row.reporting_year "reporting_year"
          "PARSER_NORMALIZED_ROW_INVALID_REPORTING_YEAR"
          "reporting_year must be a positive integer when provided."
      ++ optional_text row.artifact_identifier "artifact_identifier"
          "PARSER_NORMALIZED_ROW_BLANK_ARTIFACT_IDENTIFIER"
          "artifact_identifier must be non-empty when provided."
      ++ text_items 1 row.warnings "warnings" "PARSER_NORMALIZED_ROW_BLANK_WARNING"
          "warnings must contain only non-empty strings."
      ++ text_items 1 row.errors "errors" "PARSER_NORMALIZED_ROW_BLANK_ERROR"
          "errors must contain only non-empty strings."
      ++ registry_alignment row (lookup row.source_family parser_keys)

  abbrev validate_rows : ℕ → List (OutputRow O) → List Issue
  validate_rows position [] = []
  validate_rows position (row ∷ rows) =
      map (in_row position) (validate_parser_normalized_output_row row)
      ++ validate_rows (position + 1) rows

  -- `validate_parser_normalized_output_batch(batch).issues`
  unfoldable pub validate_parser_normalized_output_batch : OutputBatch O → List Issue
  unfolding validate_parser_normalized_output_row
  validate_parser_normalized_output_batch batch = validate_rows 1 batch.rows
