-- ===== src/Persistence/Statements.antt =====
-- The statements of the repository with their parameters: postgresql_source_family_ids.py,
-- postgresql_source_family_parameters.py and postgresql_source_family_upserts.py. The SQL texts are
-- constants, one for each kind of statement and each family's tables.
use carbon_ops_parser.Prelude.{ℕ, String, Option, none, some, List, [], ◌∷◌, map}
use carbon_ops_parser.Exec.{Result, ok}
use carbon_ops_parser.Exec.Checked.{◌>>=◌}
use carbon_ops_parser.Text.Number.{ℤ, concat, join, show_int}
use carbon_ops_parser.Value.{Value, null, text, object}
use carbon_ops_parser.Catalog.{SourceFamily, postgresql_value}
use carbon_ops_parser.Year.Batch.{sorted_items}
use carbon_ops_parser.Persistence.Records.{SourceFamilyMasterRecord, SourceFamilyDetailRecord}
use carbon_ops_parser.Persistence.Encode.{truthy_or, text_or}

-- The standard library's functions on the parameters: `json.dumps(text)`,
-- `json.dumps(json_safe(object), …)` and `str(Decimal(text))`, which may raise, and
-- `str(uuid5(NAMESPACE_URL, text))`.
pub record ParameterEncoding (O : Type 0) : Type 0 where
  pub json_text : String → String
  pub json_object : O → Result String
  pub decimal_text : String → Result String
  pub uuid5 : String → String

pub data Parameter : Type 0 where
  null_parameter : Parameter
  text_parameter : String → Parameter
  number_parameter : ℤ → Parameter

pub data Statement : Type 0 where
  -- `INSERT INTO ingestion_runs … ON CONFLICT (ingestion_run_id) DO NOTHING`
  insert_ingestion_run : List Parameter → Statement
  -- `INSERT INTO source_documents … ON CONFLICT (…) DO NOTHING`
  insert_source_document : List Parameter → Statement
  -- `master_insert_sql` and `detail_insert_sql`, which return a row if they insert one
  insert_master : SourceFamily → List Parameter → Statement
  insert_detail : SourceFamily → List Parameter → Statement

abbrev optional_text : Option String → Parameter
optional_text none = null_parameter
optional_text (some s) = text_parameter s

abbrev optional_number : Option ℕ → Parameter
optional_number none = null_parameter
optional_number (some n) = number_parameter (ℤ.pos n)

-- `source = record.ingestion_run_id or record.run_id`, or the family, year and version
abbrev run_source : String → ℤ → String → Option String → String
run_source family year version none = concat (family ∷ ":" ∷ show_int year ∷ ":" ∷ version ∷ [])
run_source family year version (some source) = source

module _ {O : Type 0} (encoding : ParameterEncoding O) where
  -- `_stable_uuid`
  unfoldable pub stable_uuid : List String → String
  stable_uuid values =
      encoding.uuid5 (concat ("[" ∷ join "," (map encoding.json_text values) ∷ "]" ∷ []))

  unfoldable pub source_document_uuid : SourceFamilyMasterRecord O → String
  unfolding stable_uuid
  source_document_uuid r =
      stable_uuid ("source_document" ∷ postgresql_value r.source_family ∷ r.source_document_id ∷ [])

  -- `ingestion_run_uuid`, which is never `None`
  unfoldable pub ingestion_run_uuid : SourceFamilyMasterRecord O → String
  unfolding stable_uuid show_int
  ingestion_run_uuid r = stable_uuid (
      "ingestion_run"
      ∷ postgresql_value r.source_family
      ∷ run_source (postgresql_value r.source_family) r.source_year r.source_version
          (truthy_or r.ingestion_run_id r.run_id)
      ∷ [])

  unfoldable pub master_uuid : SourceFamily → String → String
  unfolding stable_uuid
  master_uuid f master_id = stable_uuid ("master" ∷ postgresql_value f ∷ master_id ∷ [])

  unfoldable pub detail_uuid : SourceFamily → String → String
  unfolding stable_uuid
  detail_uuid f detail_id = stable_uuid ("detail" ∷ postgresql_value f ∷ detail_id ∷ [])

  abbrev json_value : Value O → Result String
  json_value null = ok "null"
  json_value (text s) = ok (encoding.json_text s)
  json_value (object o) = encoding.json_object o

  abbrev json_items : List (String × Value O) → Result (List String)
  json_items [] = ok []
  json_items ((k, v) ∷ items) = do
    payload ← json_value v
    rest ← json_items items
    ok (concat (encoding.json_text k ∷ ":" ∷ payload ∷ []) ∷ rest)

  -- `json_payload`
  unfoldable pub json_payload : List (String × Value O) → Result String
  unfolding sorted_items ◌>>=◌
  json_payload fields = do
    items ← json_items (sorted_items fields)
    ok (concat ("{" ∷ join "," items ∷ "}" ∷ []))

  unfoldable pub master_parameters : SourceFamilyMasterRecord O → Result (List Parameter)
  unfolding json_payload master_uuid source_document_uuid ingestion_run_uuid
  master_parameters r = do
    metadata ← json_payload r.metadata
    ok (
        text_parameter (master_uuid r.source_family r.source_family_master_id)
        ∷ text_parameter (postgresql_value r.source_family)
        ∷ number_parameter r.source_year
        ∷ text_parameter r.source_version
        ∷ optional_text r.source_release
        ∷ text_parameter (source_document_uuid r)
        ∷ text_parameter (ingestion_run_uuid r)
        ∷ optional_text r.run_id
        ∷ text_parameter r.master_external_key
        ∷ text_parameter r.status
        ∷ optional_text r.artifact_reference
        ∷ optional_text r.artifact_checksum_sha256
        ∷ optional_text r.archive_reference
        ∷ optional_text r.archive_checksum_sha256
        ∷ optional_text r.effective_from
        ∷ optional_text r.effective_to
        ∷ text_parameter r.record_checksum_sha256
        ∷ text_parameter metadata
        ∷ [])

  unfoldable pub detail_parameters : SourceFamilyDetailRecord O → Result (List Parameter)
  unfolding json_payload master_uuid detail_uuid
  detail_parameters r = do
    factor_value ← encoding.decimal_text r.factor_value
    raw_fields ← json_payload r.raw_fields
    normalized_fields ← json_payload r.normalized_fields
    ok (
        text_parameter (detail_uuid r.source_family r.source_family_detail_id)
        ∷ text_parameter (master_uuid r.source_family r.source_family_master_id)
        ∷ text_parameter r.detail_external_key
        ∷ optional_number r.source_row_number
        ∷ optional_text r.factor_id
        ∷ optional_text r.factor_name
        ∷ text_parameter factor_value
        ∷ text_parameter r.factor_unit
        ∷ text_parameter r.status
        ∷ text_parameter r.record_checksum_sha256
        ∷ text_parameter raw_fields
        ∷ text_parameter normalized_fields
        ∷ [])

  -- The statement of `ensure_ingestion_run`
  unfoldable pub ensure_ingestion_run : SourceFamilyMasterRecord O → Statement
  unfolding ingestion_run_uuid
  ensure_ingestion_run r =
      insert_ingestion_run (text_parameter (ingestion_run_uuid r) ∷ text_parameter "completed" ∷ [])

  -- The statement of `ensure_source_document`
  unfoldable pub ensure_source_document : SourceFamilyMasterRecord O → Statement
  unfolding ingestion_run_uuid source_document_uuid
  ensure_source_document r = insert_source_document (
      text_parameter (source_document_uuid r)
      ∷ text_parameter (ingestion_run_uuid r)
      ∷ text_parameter (postgresql_value r.source_family)
      ∷ text_parameter (text_or r.artifact_reference r.source_document_id)
      ∷ text_parameter (text_or r.artifact_checksum_sha256 "checksum-unavailable")
      ∷ text_parameter "downloaded"
      ∷ [])
