-- ===== src/Persistence/Validate/Accepted.antt =====
-- Which inputs the repository's validation accepts.
use carbon_ops_parser.Prelude.{
  or_iff, ◌⊎◌, eq_iff, ◌==◌, ℕ, ◌+◌, String, true, false, List, [], ◌∷◌, ◌++◌, ◌≡◌, ◌↔◌, refl, ◌∙◌,
  sym, arith, All, any_of, append-eq-nil, Bool-cases, inl, inr,
}
use carbon_ops_parser.Text.{is_blank}
use carbon_ops_parser.Catalog.{SourceFamily, same_family, same_family_iff, same_family_self}
use carbon_ops_parser.Persistence.Records.{SourceFamilyMasterRecord, SourceFamilyDetailRecord}
use carbon_ops_parser.Persistence.Validate.{
  MasterKey, same_key, master_key, detail_master_key, required_issues, required_master_fields,
  required_detail_fields, validate_master_record, validate_masters, master_keys, master_prefix,
  detail_prefix, undeclared_issues, is_declared, provider_issues, validate_detail_record,
  validate_details, validate_source_family_repository_inputs,
}

-- No field is blank.
abbrev pub Filled : List (String × String) → Type 0
Filled fields = All (λ f. is_blank f.1 ≡ false) fields

required_issues-Filled :
    (prefix : String) (fields : List (String × String))
    → (required_issues prefix fields ≡ []) ↔ Filled fields
unfolding required_issues
required_issues-Filled prefix [] = (λ h. tt, λ h. refl)
required_issues-Filled prefix ((name, value) ∷ fields) = elim (Bool-cases (is_blank value)) [
  | inl blank ↦ rw blank (λ h. absurd (cc), λ h. absurd (ground arith))
  | inr filled ↦ rw filled (
    λ h. (refl, (required_issues-Filled prefix fields).0 h),
    λ h. (required_issues-Filled prefix fields).1 h.1,
  )
]

module _ {O : Type 0} where
  validate_masters-Filled :
      (index : ℕ) (ms : List (SourceFamilyMasterRecord O))
      → (validate_masters index ms ≡ []) ↔ All (λ m. Filled (required_master_fields m)) ms
  unfolding validate_masters validate_master_record
  validate_masters-Filled index [] = (λ h. tt, λ h. refl)
  validate_masters-Filled index (m ∷ ms) = (
    λ h.
        let (first, rest) = (append-eq-nil (validate_master_record index m) _).0 h in
        (
          (required_issues-Filled (master_prefix index) (required_master_fields m)).0 first,
          (validate_masters-Filled (index + 1) ms).0 rest,
        ),
    λ h. (append-eq-nil (validate_master_record index m) _).1 (
      (required_issues-Filled (master_prefix index) (required_master_fields m)).1 h.0,
      (validate_masters-Filled (index + 1) ms).1 h.1,
    ),
  )

  -- Of filled records, all keys are declared.
  any_of-master_keys :
      (k : MasterKey) (ms : List (SourceFamilyMasterRecord O))
      → All (λ m. Filled (required_master_fields m)) ms
      → any_of (same_key k) (master_keys ms) ≡ any_of (λ m. same_key k (master_key m)) ms
  unfolding master_keys
  any_of-master_keys k [] h = refl
  any_of-master_keys k (m ∷ ms) ((id_filled, rest), h) =
      rw (id_filled, any_of-master_keys k ms h) refl

  -- A detail record with no blank field and a declared master.
  abbrev IsReferring : List MasterKey → SourceFamilyDetailRecord O → Type 0
  IsReferring keys d =
      Filled (required_detail_fields d) × (any_of (same_key (detail_master_key d)) keys ≡ true)

  undeclared_issues_declared :
      (keys : List MasterKey) (index : ℕ) (d : SourceFamilyDetailRecord O)
      → is_blank d.source_family_master_id ≡ false
      → (undeclared_issues keys index d ≡ [])
        ↔ (any_of (same_key (detail_master_key d)) keys ≡ true)
  undeclared_issues_declared keys index d filled =
      elim (Bool-cases (any_of (same_key (detail_master_key d)) keys)) [
        | inl yes' ↦ rw (filled, yes') (λ h. refl, λ h. refl)
        | inr no' ↦ rw (filled, no') (λ h. absurd (cc), λ h. absurd (cc))
      ]

  validate_detail_record-IsReferring :
      (keys : List MasterKey) (index : ℕ) (d : SourceFamilyDetailRecord O)
      → (validate_detail_record keys index d ≡ []) ↔ IsReferring keys d
  unfolding validate_detail_record
  validate_detail_record-IsReferring keys index d =
      let fields = required_issues-Filled (detail_prefix index) (required_detail_fields d) in
      let both =
        append-eq-nil (required_issues (detail_prefix index) (required_detail_fields d)) _ in
      (
        λ h.
            let filled = fields.0 (both.0 h).0 in
            (filled, (undeclared_issues_declared keys index d filled.1.0).0 (both.0 h).1),
        λ h. both.1 (fields.1 h.0, (undeclared_issues_declared keys index d h.0.1.0).1 h.1),
      )

  validate_details-IsReferring :
      (keys : List MasterKey) (index : ℕ) (ds : List (SourceFamilyDetailRecord O))
      → (validate_details keys index ds ≡ []) ↔ All (IsReferring keys) ds
  unfolding validate_details
  validate_details-IsReferring keys index [] = (λ h. tt, λ h. refl)
  validate_details-IsReferring keys index (d ∷ ds) =
      let one = validate_detail_record-IsReferring keys index d in
      let both = append-eq-nil (validate_detail_record keys index d) _ in
      (
        λ h.
            (one.0 (both.0 h).0, (validate_details-IsReferring keys (index + 1) ds).0 (both.0 h).1),
        λ h. both.1 (one.1 h.0, (validate_details-IsReferring keys (index + 1) ds).1 h.1),
      )

-- A master record with no blank required field.
abbrev pub IsMaster : {O : Type 0} → SourceFamilyMasterRecord O → Type 0
IsMaster m =
    All (λ s. is_blank s ≡ false)
      (m.source_family_master_id ∷ m.source_version ∷ m.source_document_id ∷ m.master_external_key
        ∷ m.status ∷ m.record_checksum_sha256 ∷ m.created_at ∷ m.updated_at ∷ [])

-- A detail record with no blank required field.
abbrev pub IsDetail : {O : Type 0} → SourceFamilyDetailRecord O → Type 0
IsDetail d =
    All (λ s. is_blank s ≡ false)
      (d.source_family_detail_id ∷ d.source_family_master_id ∷ d.detail_external_key
        ∷ d.factor_value ∷ d.factor_unit ∷ d.status ∷ d.record_checksum_sha256 ∷ d.created_at
        ∷ d.updated_at ∷ [])

-- One of the master records is of the detail record's family and has the id it refers to.
abbrev pub RefersTo :
    {O : Type 0} → SourceFamilyDetailRecord O → List (SourceFamilyMasterRecord O) → Type 0
RefersTo d [] = ⊥
RefersTo d (m ∷ ms) =
    ((m.source_family ≡ d.source_family) × (m.source_family_master_id ≡ d.source_family_master_id))
    ⊎ RefersTo d ms

-- Inputs with a provider name, records with no blank required field, and details that refer to a
-- given master record of the same family.
pub record IsAccepted (O : Type 0) (provider_name : String) (ms : List (SourceFamilyMasterRecord O))
    (ds : List (SourceFamilyDetailRecord O)) : Type 0 where
  pub named : is_blank provider_name ≡ false
  pub masters : All IsMaster ms
  pub details : All IsDetail ds
  pub declared : All (λ d. RefersTo d ms) ds

same_key_iff :
    (f g : SourceFamily) (i j : String) → (same_key (f, i) (g, j) ≡ true) ↔ ((g ≡ f) × (j ≡ i))
same_key_iff f g i j = (
  λ h. (
    sym (same_family_iff f g (ground arith)),
    let e : (i == j) ≡ true = ground arith in sym ((eq_iff i j).0 e),
  ),
  λ (e, e').
      let p : same_family f g ≡ true = rw e (same_family_self f) in
      let q : (i == j) ≡ true = (eq_iff i j).1 (sym e') in ground arith,
)

is_declared-RefersTo :
    {O : Type 0} (d : SourceFamilyDetailRecord O) (ms : List (SourceFamilyMasterRecord O))
    → (is_declared (detail_master_key d) ms ≡ true) ↔ RefersTo d ms
is_declared-RefersTo d [] = ((λ h. absurd (cc h)), λ h. absurd h)
is_declared-RefersTo d (m ∷ ms) =
    or_iff
      (same_key_iff d.source_family m.source_family d.source_family_master_id
        m.source_family_master_id)
      (is_declared-RefersTo d ms)

All_iff :
    {A : Type 0} {P Q : A → Type 0} → ((x : A) → P x ↔ Q x) → (xs : List A) → All P xs ↔ All Q xs
All_iff iff [] = ((λ h. tt), λ h. tt)
All_iff iff (x ∷ xs) =
    let (f, g) = iff x in
    let (fs, gs) = All_iff iff xs in ((λ (h, hs). (f h, fs hs)), λ (h, hs). (g h, gs hs))

module _ {O : Type 0} (ms : List (SourceFamilyMasterRecord O))
    (filled : All (λ m. Filled (required_master_fields m)) ms) where
  split-IsReferring :
      (ds : List (SourceFamilyDetailRecord O))
      → All (IsReferring (master_keys ms)) ds
      → All (λ d. Filled (required_detail_fields d)) ds
        × All (λ d. is_declared (detail_master_key d) ms ≡ true) ds
  split-IsReferring [] h = (tt, tt)
  split-IsReferring (d ∷ ds) ((fields, declared), h) =
      let (all_fields, all_declared) = split-IsReferring ds h in
      (
        (fields, all_fields),
        (sym (any_of-master_keys (detail_master_key d) ms filled) ∙ declared, all_declared),
      )

  join-IsReferring :
      (ds : List (SourceFamilyDetailRecord O))
      → All (λ d. Filled (required_detail_fields d)) ds
      → All (λ d. is_declared (detail_master_key d) ms ≡ true) ds
      → All (IsReferring (master_keys ms)) ds
  join-IsReferring [] h k = tt
  join-IsReferring (d ∷ ds) (fields, h) (declared, k) = (
    (fields, any_of-master_keys (detail_master_key d) ms filled ∙ declared),
    join-IsReferring ds h k,
  )

provider_issues_named :
    (provider_name : String)
    → (provider_issues provider_name ≡ []) ↔ (is_blank provider_name ≡ false)
provider_issues_named provider_name = elim (Bool-cases (is_blank provider_name)) [
  | inl blank ↦ rw blank (λ h. absurd (cc), λ h. absurd (ground arith))
  | inr named ↦ rw named (λ h. refl, λ h. refl)
]

-- The validation finds no issue exactly if the provider name and every required field of the records
-- are not blank, and every detail record refers to a given master record of its family.
pub validate_source_family_repository_inputs-IsAccepted :
    {O : Type 0} (provider_name : String) (ms : List (SourceFamilyMasterRecord O))
    (ds : List (SourceFamilyDetailRecord O))
    → (validate_source_family_repository_inputs provider_name ms ds ≡ [])
      ↔ IsAccepted O provider_name ms ds
unfolding validate_source_family_repository_inputs
validate_source_family_repository_inputs-IsAccepted provider_name ms ds =
    let outer =
      append-eq-nil (provider_issues provider_name)
        (validate_masters 0 ms ++ validate_details (master_keys ms) 0 ds) in
    let inner = append-eq-nil (validate_masters 0 ms) (validate_details (master_keys ms) 0 ds) in
    let details = validate_details-IsReferring (master_keys ms) 0 ds in
    (
      λ h.
          let (no_provider, rest) = outer.0 h in
          let (no_masters, no_details) = inner.0 rest in
          let filled = (validate_masters-Filled 0 ms).0 no_masters in
          let (fields, declared) = split-IsReferring ms filled ds (details.0 no_details) in
          record {
            named = (provider_issues_named provider_name).0 no_provider;
            masters = filled;
            details = fields;
            declared = (All_iff (λ d. is_declared-RefersTo d ms) ds).0 declared;
          },
      λ a. outer.1 (
        (provider_issues_named provider_name).1 a.named,
        inner.1 (
          (validate_masters-Filled 0 ms).1 a.masters,
          details.1 (
              join-IsReferring ms a.masters ds a.details
                ((All_iff (λ d. is_declared-RefersTo d ms) ds).1 a.declared)),
        ),
      ),
    )
