-- ===== src/Persistence/Records.antt =====
-- The records and results of source_family_repository.py.
use carbon_ops_parser.Prelude.{ℕ, String, Option, List}
use carbon_ops_parser.Exec.{Exec}
use carbon_ops_parser.Value.{Value}
use carbon_ops_parser.Text.Number.{ℤ}
use carbon_ops_parser.Issue.{Issue}
use carbon_ops_parser.Catalog.{SourceFamily}

pub data PersistStatus : Type 0 where
  declared failed_validation failed_database : PersistStatus

pub record SourceFamilyMasterRecord (O : Type 0) : Type 0 where
  pub source_family : SourceFamily
  pub source_family_master_id : String
  pub source_year : ℤ
  pub source_version : String
  pub source_release : Option String
  pub source_document_id : String
  pub ingestion_run_id : Option String
  pub run_id : Option String
  pub master_external_key : String
  pub status : String
  pub artifact_reference : Option String
  pub artifact_checksum_sha256 : Option String
  pub archive_reference : Option String
  pub archive_checksum_sha256 : Option String
  pub effective_from : Option String
  pub effective_to : Option String
  pub record_checksum_sha256 : String
  pub metadata : List (String × Value O)
  pub created_at : String
  pub updated_at : String

pub record SourceFamilyDetailRecord (O : Type 0) : Type 0 where
  pub source_family : SourceFamily
  pub source_family_detail_id : String
  pub source_family_master_id : String
  pub detail_external_key : String
  pub source_row_number : Option ℕ
  pub factor_id : Option String
  pub factor_name : Option String
  pub factor_value : String
  pub factor_unit : String
  pub status : String
  pub record_checksum_sha256 : String
  pub raw_fields : List (String × Value O)
  pub normalized_fields : List (String × Value O)
  pub created_at : String
  pub updated_at : String

pub record PersistResult : Type 0 where
  pub provider_name : String
  pub status : PersistStatus
  pub persisted_master_count : ℕ
  pub persisted_detail_count : ℕ
  pub skipped_master_count : ℕ
  pub skipped_detail_count : ℕ
  pub validation_failure_count : ℕ
  pub issues : List Issue

-- `SourceFamilyRepository`
pub record SourceFamilyRepository (W O : Type 0) : Type 0 where
  pub provider_name : String
  pub persist_source_family_records :
      List (SourceFamilyMasterRecord O) → List (SourceFamilyDetailRecord O) → Exec W PersistResult
