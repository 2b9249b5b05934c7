-- ===== src/Persistence/Validate.antt =====
-- `validate_source_family_repository_inputs`. The fields have the types that they are declared
-- with, so the checks of the types themselves always pass and are left out.
pub mod Accepted
use carbon_ops_parser.Prelude.{
  ℕ, ◌+◌, String, Bool, not, ◌&&◌, List, [], ◌∷◌, ◌++◌, ◌==◌, any_of, if◌then◌else◌,
}
use carbon_ops_parser.Text.{is_blank}
use carbon_ops_parser.Text.Number.{concat, show}
use carbon_ops_parser.Issue.{Issue, error_issue}
use carbon_ops_parser.Catalog.{SourceFamily, same_family}
use carbon_ops_parser.Persistence.Records.{SourceFamilyMasterRecord, SourceFamilyDetailRecord}

-- A key of a master record: `(source_family, source_family_master_id)`.
abbrev pub MasterKey : Type 0
MasterKey = SourceFamily × String

abbrev pub same_key : MasterKey → MasterKey → Bool
same_key (f, i) (g, j) = same_family f g && i == j

abbrev pub missing_required_field : String → Issue
missing_required_field field_name =
    error_issue "SOURCE_FAMILY_REPOSITORY_MISSING_REQUIRED_FIELD"
      "required fields must be non-empty strings." field_name

-- `_append_required_string_issue`, for the fields of a record
unfoldable pub required_issues : String → List (String × String) → List Issue
required_issues prefix [] = []
required_issues prefix ((field_name, value) ∷ fields) =
    (if is_blank value then missing_required_field (concat (prefix ∷ field_name ∷ [])) ∷ [] else [])
    ++ required_issues prefix fields

abbrev pub detail_master_not_declared : String → Issue
detail_master_not_declared field_name =
    error_issue "SOURCE_FAMILY_REPOSITORY_DETAIL_MASTER_NOT_DECLARED"
      "detail record source_family_master_id must reference a declared master record for the same source family."
      field_name

abbrev pub master_prefix : ℕ → String
master_prefix index = concat ("master_records[" ∷ show index ∷ "]." ∷ [])

abbrev pub detail_prefix : ℕ → String
detail_prefix index = concat ("detail_records[" ∷ show index ∷ "]." ∷ [])

abbrev pub provider_issues : String → List Issue
provider_issues provider_name =
    if is_blank provider_name
    then error_issue "SOURCE_FAMILY_REPOSITORY_MISSING_PROVIDER_NAME"
        "provider_name must be a non-empty string." "provider_name"
      ∷ []
    else []

module _ {O : Type 0} where
  abbrev pub required_master_fields : SourceFamilyMasterRecord O → List (String × String)
  required_master_fields r =
      ("source_family_master_id", r.source_family_master_id)
      ∷ ("source_version", r.source_version)
      ∷ ("source_document_id", r.source_document_id)
      ∷ ("master_external_key", r.master_external_key)
      ∷ ("status", r.status)
      ∷ ("record_checksum_sha256", r.record_checksum_sha256)
      ∷ ("created_at", r.created_at)
      ∷ ("updated_at", r.updated_at)
      ∷ []

  abbrev pub required_detail_fields : SourceFamilyDetailRecord O → List (String × String)
  required_detail_fields r =
      ("source_family_detail_id", r.source_family_detail_id)
      ∷ ("source_family_master_id", r.source_family_master_id)
      ∷ ("detail_external_key", r.detail_external_key)
      ∷ ("factor_value", r.factor_value)
      ∷ ("factor_unit", r.factor_unit)
      ∷ ("status", r.status)
      ∷ ("record_checksum_sha256", r.record_checksum_sha256)
      ∷ ("created_at", r.created_at)
      ∷ ("updated_at", r.updated_at)
      ∷ []

  -- The key of the master record, and the key that a detail record refers to.
  abbrev pub master_key : SourceFamilyMasterRecord O → MasterKey
  master_key r = (r.source_family, r.source_family_master_id)

  abbrev pub detail_master_key : SourceFamilyDetailRecord O → MasterKey
  detail_master_key r = (r.source_family, r.source_family_master_id)

  -- `_validate_master_record`
  unfoldable pub validate_master_record : ℕ → SourceFamilyMasterRecord O → List Issue
  unfolding required_issues
  validate_master_record index r = required_issues (master_prefix index) (required_master_fields r)

  unfoldable pub validate_masters : ℕ → List (SourceFamilyMasterRecord O) → List Issue
  validate_masters index [] = []
  validate_masters index (r ∷ rs) =
      validate_master_record index r ++ validate_masters (index + 1) rs

  -- `master_keys`: the keys of the records whose id is not blank.
  unfoldable pub master_keys : List (SourceFamilyMasterRecord O) → List MasterKey
  master_keys [] = []
  master_keys (r ∷ rs) =
      let rest = master_keys rs in
      if is_blank r.source_family_master_id then rest else master_key r ∷ rest

  -- The check of `_validate_detail_record` that the master record is declared.
  abbrev pub undeclared_issues : List MasterKey → ℕ → SourceFamilyDetailRecord O → List Issue
  undeclared_issues keys index r =
      if not (is_blank r.source_family_master_id)
        && not (any_of (same_key (detail_master_key r)) keys)
      then detail_master_not_declared
          (concat ("detail_records[" ∷ show index ∷ "].source_family_master_id" ∷ []))
        ∷ []
      else []

  -- `_validate_detail_record`
  unfoldable pub validate_detail_record :
      List MasterKey → ℕ → SourceFamilyDetailRecord O → List Issue
  unfolding required_issues
  validate_detail_record keys index r =
      required_issues (detail_prefix index) (required_detail_fields r)
      ++ undeclared_issues keys index r

  unfoldable pub validate_details :
      List MasterKey → ℕ → List (SourceFamilyDetailRecord O) → List Issue
  validate_details keys index [] = []
  validate_details keys index (r ∷ rs) =
      validate_detail_record keys index r ++ validate_details keys (index + 1) rs

  -- `validate_source_family_repository_inputs(…).issues`
  unfoldable pub validate_source_family_repository_inputs :
      String → List (SourceFamilyMasterRecord O) → List (SourceFamilyDetailRecord O) → List Issue
  unfolding validate_masters validate_details master_keys validate_master_record
      validate_detail_record is_blank
  validate_source_family_repository_inputs provider_name masters details =
      provider_issues provider_name
      ++ (validate_masters 0 masters ++ validate_details (master_keys masters) 0 details)

-- Some master record has the key.
abbrev pub is_declared : {O : Type 0} → MasterKey → List (SourceFamilyMasterRecord O) → Bool
is_declared k masters = any_of (λ m. same_key k (master_key m)) masters
