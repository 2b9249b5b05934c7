-- ===== src/Persistence/MapRow.antt =====
-- `_map_row`: one row of a parsed batch as a master and a detail record, or as issues.
use carbon_ops_parser.Prelude.{
  ℕ, String, Bool, true, false, Option, none, some, List, [], ◌∷◌, ◌++◌,
}
use carbon_ops_parser.Exec.{Result, ok}
use carbon_ops_parser.Exec.Checked.{◌>>=◌}
use carbon_ops_parser.Text.Number.{ℤ, concat, first, parse_int}
use carbon_ops_parser.Value.{Value, text, of_option}
use carbon_ops_parser.Issue.{Issue, error_issue}
use carbon_ops_parser.Catalog.{SourceFamily, value}
use carbon_ops_parser.Persistence.Records.{SourceFamilyMasterRecord, SourceFamilyDetailRecord}
use carbon_ops_parser.Persistence.Encode.{
  Encoding, truthy_or, text_or, field, text_or_none, text_field, stable_digest,
}
use carbon_ops_parser.Persistence.Map.{
  PersistenceRow, MappedRow, mapped, unmapped, source_family_of, record_field, missing_value,
  source_document_id_of, master_source_year_text, default_master_external_key,
  default_detail_external_key,
}

-- The writer's arguments that are the same for every row.
pub record Options : Type 0 where
  pub source_document_id : Option String
  pub lifecycle_status : String
  pub timestamp_label : String

-- The texts that both records are made from.
pub record Identity : Type 0 where
  pub source_family : SourceFamily
  pub source_document_id : Option String
  pub master_external_key : String
  pub detail_external_key : String
  pub master_id : String
  pub detail_id : String
  pub source_year : ℤ

abbrev missing_source_year : ℕ → Issue
missing_source_year position =
    error_issue "PARSED_FACTOR_PERSISTENCE_MISSING_REQUIRED_FIELD"
      "parsed factor persistence requires a source_year value."
      (record_field position "source_year")

abbrev unsupported_source_family : ℕ → Issue
unsupported_source_family position =
    error_issue "PARSED_FACTOR_PERSISTENCE_UNSUPPORTED_SOURCE_FAMILY"
      "source_family must map to GHG, DEFRA/DESNZ, or IPCC." (record_field position "source_family")

-- `f"{source_family.value}_{kind}_{digest[:16]}"`
abbrev record_id : SourceFamily → String → String → String
record_id f kind digest = concat (value f ∷ "_" ∷ kind ∷ "_" ∷ first 16 digest ∷ [])

abbrev pub unless_issues : {O : Type 0} → List Issue → Result (MappedRow O) → Result (MappedRow O)
unless_issues [] rest = rest
unless_issues (issue ∷ issues) rest = ok (unmapped (issue ∷ issues))

module _ {O : Type 0} (encoding : Encoding O) (options : Options) (row : PersistenceRow O) where
  abbrev factor_value_field : Value O
  factor_value_field = field row.fields ("factor_value" ∷ "value" ∷ [])

  abbrev factor_unit_field : Value O
  factor_unit_field = field row.fields ("factor_unit" ∷ "unit" ∷ [])

  abbrev text_at : String → Option String
  text_at name = text_field encoding row.fields (name ∷ [])

  abbrev make_master : Identity → String → SourceFamilyMasterRecord O
  make_master identity checksum = record {
    source_family = identity.source_family;
    source_family_master_id = identity.master_id;
    source_year = identity.source_year;
    source_version = text_or (text_at "source_version") "unknown";
    source_release = text_at "source_release";
    source_document_id = text_or identity.source_document_id "";
    ingestion_run_id = text_at "ingestion_run_id";
    run_id = text_at "run_id";
    master_external_key = identity.master_external_key;
    status = options.lifecycle_status;
    artifact_reference = row.artifact_reference;
    artifact_checksum_sha256 = truthy_or row.artifact_checksum_sha256 (
        text_field encoding row.fields
          ("provenance_checksum_value" ∷ "source_checksum_sha256" ∷ []));
    archive_reference = text_at "archive_reference";
    archive_checksum_sha256 = text_at "archive_checksum_sha256";
    effective_from = text_at "effective_from";
    effective_to = text_at "effective_to";
    record_checksum_sha256 = checksum;
    metadata =
        ("parser_key", of_option (text_at "parser_key"))
        ∷ ("source_document_id", of_option identity.source_document_id)
        ∷ [];
    created_at = options.timestamp_label;
    updated_at = options.timestamp_label;
  }

  abbrev make_detail : Identity → String → SourceFamilyDetailRecord O
  make_detail identity checksum = record {
    source_family = identity.source_family;
    source_family_detail_id = identity.detail_id;
    source_family_master_id = identity.master_id;
    detail_external_key = identity.detail_external_key;
    source_row_number = row.source_row_number;
    factor_id = text_at "factor_id";
    factor_name = text_at "factor_name";
    factor_value = text_or (text_or_none encoding factor_value_field) "";
    factor_unit = text_or (text_or_none encoding factor_unit_field) "";
    status = options.lifecycle_status;
    record_checksum_sha256 = checksum;
    raw_fields = row.fields;
    normalized_fields = row.fields;
    created_at = options.timestamp_label;
    updated_at = options.timestamp_label;
  }

  -- Both records, with their checksums.
  unfoldable pub map_identity : Identity → Result (MappedRow O)
  map_identity identity = do
    master_checksum ← stable_digest encoding (
        text "master"
        ∷ text (value identity.source_family)
        ∷ of_option identity.source_document_id
        ∷ text identity.master_external_key
        ∷ text options.lifecycle_status
        ∷ [])
    detail_checksum ← stable_digest encoding (
        text "detail"
        ∷ text (value identity.source_family)
        ∷ text identity.master_id
        ∷ text identity.detail_external_key
        ∷ factor_value_field
        ∷ factor_unit_field
        ∷ [])
    ok (mapped (make_master identity master_checksum) (make_detail identity detail_checksum))

  abbrev explicit_key : Bool → Option String
  explicit_key true = text_at "master_external_key"
  explicit_key false = none

  -- The explicit id of the detail record, or one from the digest of its keys.
  abbrev detail_id_or : SourceFamily → String → String → Option String → Result String
  detail_id_or f master_id detail_key (some explicit) = ok explicit
  detail_id_or f master_id detail_key none = do
    digest ← stable_digest encoding (text (value f) ∷ text master_id ∷ text detail_key ∷ [])
    ok (record_id f "detail" digest)

  unfoldable pub map_year :
      ℕ
      → SourceFamily
      → Option String
      → String
      → String
      → String
      → String
      → Option ℤ
      → Result (MappedRow O)
  unfolding map_identity
  map_year position f document master_key detail_key master_id detail_id none =
      ok (unmapped (missing_source_year position ∷ []))
  map_year position f document master_key detail_key master_id detail_id (some year) =
      map_identity (record {
        source_family = f;
        source_document_id = document;
        master_external_key = master_key;
        detail_external_key = detail_key;
        master_id = master_id;
        detail_id = detail_id;
        source_year = year;
      })

  -- From the look-ups of the keys on, for a row with no issues so far.
  unfoldable pub map_keys : ℕ → SourceFamily → Option String → Result (MappedRow O)
  unfolding map_year
  map_keys position f document =
      let master_key =
        text_or (explicit_key row.honor_explicit_master_external_key)
          (default_master_external_key encoding row) in
      let detail_key =
        text_or (text_at "detail_external_key") (default_detail_external_key encoding row) in
      do
        digest ← stable_digest encoding (text (value f) ∷ text master_key ∷ [])
        let master_id = record_id f "master" digest
        detail_id ← detail_id_or f master_id detail_key (text_at "source_family_detail_id")
        map_year position f document master_key detail_key master_id detail_id
            (parse_int (master_source_year_text encoding row))

  unfoldable pub map_document : ℕ → SourceFamily → Option String → Result (MappedRow O)
  unfolding map_keys
  map_document position f document =
      unless_issues
        (missing_value position "source_document_id" (text_or_none encoding (of_option document))
          ++ missing_value position "factor_value" (text_or_none encoding factor_value_field)
          ++ missing_value position "factor_unit" (text_or_none encoding factor_unit_field))
        (map_keys position f document)

  unfoldable pub map_family : ℕ → Option SourceFamily → Result (MappedRow O)
  unfolding map_document
  map_family position none = ok (unmapped (unsupported_source_family position ∷ []))
  map_family position (some f) = do
    document ← source_document_id_of encoding row options.source_document_id
    map_document position f document

  -- `_map_row`
  unfoldable pub map_row : ℕ → Result (MappedRow O)
  unfolding map_family source_family_of source_document_id_of default_master_external_key
      default_detail_external_key master_source_year_text text_field text_or_none field
      stable_digest parse_int ◌>>=◌
  map_row position = map_family position (source_family_of row.source_family)
