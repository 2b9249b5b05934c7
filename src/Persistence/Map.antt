-- ===== src/Persistence/Map.antt =====
-- `_map_row`: one row of a parsed batch as a master and a detail record.
use carbon_ops_parser.Prelude.{
  ℕ, String, Bool, Option, none, some, List, [], ◌∷◌, lookup, dict_from, or_else,
}
use carbon_ops_parser.Exec.{Result, ok}
use carbon_ops_parser.Exec.Checked.{◌>>=◌}
use carbon_ops_parser.Text.{strip, lower}
use carbon_ops_parser.Text.Number.{concat, first, show, year_from_text}
use carbon_ops_parser.Value.{Value, text, of_option}
use carbon_ops_parser.Issue.{Issue, error_issue}
use carbon_ops_parser.Catalog.{SourceFamily, value, source_family_aliases}
use carbon_ops_parser.Row.{OutputRow}
use carbon_ops_parser.Year.Batch.{set_default}
use carbon_ops_parser.Persistence.Records.{SourceFamilyMasterRecord, SourceFamilyDetailRecord}
use carbon_ops_parser.Persistence.Encode.{
  Encoding, truthy_or, text_or, text_or_none, text_field, stable_digest,
}

-- `_PersistenceRow`
pub record PersistenceRow (O : Type 0) : Type 0 where
  pub source_family : String
  pub source_id : String
  pub row_id : String
  pub fields : List (String × Value O)
  pub artifact_reference : Option String
  pub artifact_checksum_sha256 : Option String
  pub source_row_number : Option ℕ
  pub honor_explicit_master_external_key : Bool

-- `_MappedRow`, in the two forms that `_map_row` returns: both records and no issues, or issues alone.
pub data MappedRow (O : Type 0) : Type 0 where
  mapped : SourceFamilyMasterRecord O → SourceFamilyDetailRecord O → MappedRow O
  unmapped : List Issue → MappedRow O

-- `_source_family`
unfoldable pub source_family_of : String → Option SourceFamily
unfolding lower strip lookup
source_family_of value = lookup (lower (strip value)) source_family_aliases

-- `f"records[{position}].{field_name}"`
abbrev pub record_field : ℕ → String → String
record_field position field_name = concat ("records[" ∷ show position ∷ "]." ∷ field_name ∷ [])

abbrev pub missing_value : ℕ → String → Option String → List Issue
missing_value position field_name none =
    error_issue "PARSED_FACTOR_PERSISTENCE_MISSING_REQUIRED_FIELD"
      "parsed factor persistence requires a non-empty value." (record_field position field_name)
    ∷ []
missing_value position field_name (some found) = []

module _ {O : Type 0} (encoding : Encoding O) where
  -- `_row_from_normalized_row`
  unfoldable pub row_from_normalized_row : OutputRow O → PersistenceRow O
  unfolding text_field set_default dict_from
  row_from_normalized_row row =
      let fields =
        set_default "parser_key" (text row.parser_key) (dict_from [] row.normalized_fields) in
      record {
        source_family = row.source_family;
        source_id = row.source_key;
        row_id = row.row_id;
        fields = fields;
        artifact_reference = some row.artifact_reference;
        artifact_checksum_sha256 =
            text_field encoding fields ("source_checksum_sha256" ∷ "checksum_sha256" ∷ []);
        source_row_number = row.source_row_number;
        honor_explicit_master_external_key = Bool.true;
      }

  abbrev document_from : PersistenceRow O → Option String → Option String → Result (Option String)
  document_from row none none = ok none
  document_from row reference checksum = do
    digest ← stable_digest encoding (
        text row.source_family ∷ text row.source_id ∷ of_option reference ∷ of_option checksum ∷ [])
    ok (some (concat ("source_document_" ∷ first 24 digest ∷ [])))

  abbrev document_or : Option String → Result (Option String) → Result (Option String)
  document_or none computed = computed
  document_or (some found) computed = ok (some found)

  -- `_source_document_id`
  unfoldable pub source_document_id_of : PersistenceRow O → Option String → Result (Option String)
  unfolding text_or_none text_field stable_digest
  source_document_id_of row explicit =
      document_or
        (or_else (text_or_none encoding (of_option explicit))
          (text_field encoding row.fields ("source_document_id" ∷ [])))
        (document_from row
          (truthy_or
            (text_field encoding row.fields
              ("provenance_artifact_reference" ∷ "artifact_reference" ∷ []))
            row.artifact_reference)
          (text_field encoding row.fields
            ("provenance_checksum_value" ∷ "source_checksum_sha256" ∷ [])))

  abbrev version_year : Option String → Option String
  version_year none = none
  version_year (some source_version) = year_from_text source_version

  -- `_master_source_year_text`
  unfoldable pub master_source_year_text : PersistenceRow O → String
  unfolding text_field year_from_text
  master_source_year_text row =
      text_or
        (or_else
          (text_field encoding row.fields
            ("source_artifact_year" ∷ "artifact_year" ∷ "reporting_year" ∷ []))
          (or_else (version_year (text_field encoding row.fields ("source_version" ∷ [])))
            (text_field encoding row.fields ("source_year" ∷ []))))
        "unknown-year"

  -- `_default_master_external_key`
  unfoldable pub default_master_external_key : PersistenceRow O → String
  unfolding text_field master_source_year_text
  default_master_external_key row = concat (
      master_source_year_text row
      ∷ ":"
      ∷ text_or (text_field encoding row.fields ("source_version" ∷ [])) "unknown-version"
      ∷ ":"
      ∷ text_or
          (truthy_or row.artifact_reference (
            text_field encoding row.fields (
              "source_artifact_reference" ∷ "artifact_reference" ∷ "provenance_artifact_reference"
              ∷ [])))
          "artifact-unavailable"
      ∷ ":"
      ∷ text_or
          (truthy_or row.artifact_checksum_sha256 (
            text_field encoding row.fields
              ("source_checksum_sha256" ∷ "checksum_sha256" ∷ "provenance_checksum_value" ∷ [])))
          "checksum-unavailable"
      ∷ [])

  abbrev with_gas : String → String → Option String → String
  with_gas factor_id factor_unit none = concat (factor_id ∷ ":" ∷ factor_unit ∷ [])
  with_gas factor_id factor_unit (some gas) =
      concat (factor_id ∷ ":" ∷ factor_unit ∷ ":" ∷ gas ∷ [])

  -- `_default_detail_external_key`
  unfoldable pub default_detail_external_key : PersistenceRow O → String
  unfolding text_field
  default_detail_external_key row =
      with_gas (text_or (text_field encoding row.fields ("factor_id" ∷ [])) row.row_id)
        (text_or (text_field encoding row.fields ("factor_unit" ∷ "unit" ∷ [])) "unknown-unit")
        (text_field encoding row.fields ("greenhouse_gas" ∷ "gas" ∷ []))
