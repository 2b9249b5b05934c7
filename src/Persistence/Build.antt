-- ===== src/Persistence/Build.antt =====
-- `build_parsed_factor_persistence_command`: the rows of a batch as master and detail records, each
-- once. The dictionaries of the code are lists of their values, whose keys are in the records.
pub mod Matched
pub mod Records
pub mod Submittable
use carbon_ops_parser.Prelude.{
  ℕ, ◌+◌, String, Bool, true, false, ◌&&◌, Option, none, some, List, [], ◌∷◌, ◌++◌, ◌==◌, map,
  nat_eq, find_by, if◌then◌else◌,
}
use carbon_ops_parser.Exec.{Result, ok}
use carbon_ops_parser.Exec.Checked.{◌>>=◌}
use carbon_ops_parser.Text.Number.{same_int}
use carbon_ops_parser.Issue.{Issue, error_issue}
use carbon_ops_parser.Catalog.{same_family}
use carbon_ops_parser.Row.{OutputRow, OutputBatch}
use carbon_ops_parser.Row.Contract.{validate_parser_normalized_output_batch}
use carbon_ops_parser.Persistence.Records.{SourceFamilyMasterRecord, SourceFamilyDetailRecord}
use carbon_ops_parser.Persistence.Validate.{
  master_key, detail_master_key, same_key, validate_source_family_repository_inputs,
}
use carbon_ops_parser.Persistence.Encode.{Encoding, same_dict}
use carbon_ops_parser.Persistence.Map.{
  PersistenceRow, MappedRow, mapped, unmapped, record_field, row_from_normalized_row,
}
use carbon_ops_parser.Persistence.MapRow.{Options, map_row}

-- `ParsedFactorPersistenceCommand`, which is also what the loop over the rows builds up.
pub record Command (O : Type 0) : Type 0 where
  pub master_records : List (SourceFamilyMasterRecord O)
  pub detail_records : List (SourceFamilyDetailRecord O)
  pub skipped_duplicate_count : ℕ
  pub issues : List Issue

abbrev pub same_optional : {A : Type 0} → (A → A → Bool) → Option A → Option A → Bool
same_optional same none none = true
same_optional same (some a) (some b) = same a b
same_optional same none (some b) = false
same_optional same (some a) none = false

abbrev pub duplicate_master_conflict : ℕ → Issue
duplicate_master_conflict position =
    error_issue "PARSED_FACTOR_PERSISTENCE_DUPLICATE_MASTER_CONFLICT"
      "duplicate source-family master identity maps to different record content."
      (record_field position "source_family_master_id")

abbrev pub duplicate_detail_conflict : ℕ → Issue
duplicate_detail_conflict position =
    error_issue "PARSED_FACTOR_PERSISTENCE_DUPLICATE_DETAIL_CONFLICT"
      "duplicate factor identity maps to different detail record content."
      (record_field position "detail_external_key")

abbrev no_records_issue : Issue
no_records_issue = record {
  code = "PARSED_FACTOR_PERSISTENCE_NO_RECORDS";
  message = "parsed output must include records before persistence.";
  field_name = "records";
  severity = "warning";
}

module _ {O : Type 0} where
  -- The key of a detail record: the key of its master record and its external key.
  abbrev pub same_detail_key : SourceFamilyDetailRecord O → SourceFamilyDetailRecord O → Bool
  same_detail_key a b =
      same_key (detail_master_key a) (detail_master_key b)
      && a.detail_external_key == b.detail_external_key

  abbrev pub same_master_key : SourceFamilyMasterRecord O → SourceFamilyMasterRecord O → Bool
  same_master_key a b = same_key (master_key a) (master_key b)

  -- The command with what the repository's validation finds in its records.
  unfoldable pub with_repository_issues : Command O → Command O
  unfolding validate_source_family_repository_inputs
  with_repository_issues c = record c {
    issues =
        c.issues
        ++ validate_source_family_repository_inputs "parsed_factor_persistence_command"
            c.master_records c.detail_records;
  }

  abbrev pub empty_command : List Issue → Command O
  empty_command issues = record {
    master_records = [];
    detail_records = [];
    skipped_duplicate_count = 0;
    issues = issues;
  }

module _ {O : Type 0} (encoding : Encoding O) where
  -- `==` on master records, field by field
  unfoldable pub same_master : SourceFamilyMasterRecord O → SourceFamilyMasterRecord O → Bool
  unfolding same_dict
  same_master a b =
      same_family a.source_family b.source_family
      && a.source_family_master_id == b.source_family_master_id
      && same_int a.source_year b.source_year
      && a.source_version == b.source_version
      && same_optional ◌==◌ a.source_release b.source_release
      && a.source_document_id == b.source_document_id
      && same_optional ◌==◌ a.ingestion_run_id b.ingestion_run_id
      && same_optional ◌==◌ a.run_id b.run_id
      && a.master_external_key == b.master_external_key
      && a.status == b.status
      && same_optional ◌==◌ a.artifact_reference b.artifact_reference
      && same_optional ◌==◌ a.artifact_checksum_sha256 b.artifact_checksum_sha256
      && same_optional ◌==◌ a.archive_reference b.archive_reference
      && same_optional ◌==◌ a.archive_checksum_sha256 b.archive_checksum_sha256
      && same_optional ◌==◌ a.effective_from b.effective_from
      && same_optional ◌==◌ a.effective_to b.effective_to
      && a.record_checksum_sha256 == b.record_checksum_sha256
      && same_dict encoding a.metadata b.metadata
      && a.created_at == b.created_at
      && a.updated_at == b.updated_at

  -- `==` on detail records, field by field
  unfoldable pub same_detail : SourceFamilyDetailRecord O → SourceFamilyDetailRecord O → Bool
  unfolding same_dict
  same_detail a b =
      same_family a.source_family b.source_family
      && a.source_family_detail_id == b.source_family_detail_id
      && a.source_family_master_id == b.source_family_master_id
      && a.detail_external_key == b.detail_external_key
      && same_optional nat_eq a.source_row_number b.source_row_number
      && same_optional ◌==◌ a.factor_id b.factor_id
      && same_optional ◌==◌ a.factor_name b.factor_name
      && a.factor_value == b.factor_value
      && a.factor_unit == b.factor_unit
      && a.status == b.status
      && a.record_checksum_sha256 == b.record_checksum_sha256
      && same_dict encoding a.raw_fields b.raw_fields
      && same_dict encoding a.normalized_fields b.normalized_fields
      && a.created_at == b.created_at
      && a.updated_at == b.updated_at

  abbrev place_master_at :
      ℕ → SourceFamilyMasterRecord O → Command O → Option (SourceFamilyMasterRecord O) → Command O
  place_master_at position m c none = record c { master_records = c.master_records ++ m ∷ [] }
  place_master_at position m c (some existing) =
      if same_master existing m
      then c
      else record c { issues = c.issues ++ duplicate_master_conflict position ∷ [] }

  -- The part of a round that is about the master record.
  unfoldable pub place_master : ℕ → SourceFamilyMasterRecord O → Command O → Command O
  unfolding same_master
  place_master position m c =
      place_master_at position m c (find_by (same_master_key m) c.master_records)

  abbrev place_detail_at :
      ℕ → SourceFamilyDetailRecord O → Command O → Option (SourceFamilyDetailRecord O) → Command O
  place_detail_at position d c none = record c { detail_records = c.detail_records ++ d ∷ [] }
  place_detail_at position d c (some existing) =
      if same_detail existing d
      then record c { skipped_duplicate_count = c.skipped_duplicate_count + 1 }
      else record c { issues = c.issues ++ duplicate_detail_conflict position ∷ [] }

  -- The part of a round that is about the detail record.
  unfoldable pub place_detail : ℕ → SourceFamilyDetailRecord O → Command O → Command O
  unfolding same_detail
  place_detail position d c =
      place_detail_at position d c (find_by (same_detail_key d) c.detail_records)

  -- A round of the loop, for a row that is mapped already.
  unfoldable pub place_row : ℕ → MappedRow O → Command O → Command O
  unfolding place_master place_detail
  place_row position (unmapped issues) c = record c { issues = c.issues ++ issues }
  place_row position (mapped m d) c = place_detail position d (place_master position m c)

  -- The loop over the rows, from a position on.
  unfoldable pub place_rows : Options → ℕ → List (PersistenceRow O) → Command O → Result (Command O)
  unfolding place_row map_row
  place_rows options position [] c = ok c
  place_rows options position (row ∷ rows) c = do
    mapped_row ← map_row encoding options row position
    place_rows options (position + 1) rows (place_row position mapped_row c)

  unfoldable pub build_rows : Options → List (OutputRow O) → List Issue → Result (Command O)
  unfolding place_rows with_repository_issues row_from_normalized_row ◌>>=◌
  build_rows options [] [] = ok (empty_command (no_records_issue ∷ []))
  build_rows options rows shape_issues = do
    c ←
        place_rows options 1 (map (row_from_normalized_row encoding) rows)
          (empty_command shape_issues)
    ok (with_repository_issues c)

  -- `build_parsed_factor_persistence_command`, at a normalized output batch
  unfoldable pub build_parsed_factor_persistence_command :
      Options → OutputBatch O → Result (Command O)
  unfolding build_rows validate_parser_normalized_output_batch
  build_parsed_factor_persistence_command options batch =
      build_rows options batch.rows (validate_parser_normalized_output_batch batch)
