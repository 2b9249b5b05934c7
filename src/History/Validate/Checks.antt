-- ===== src/History/Validate/Checks.antt =====
-- When one check of the history's validation finds nothing.
use carbon_ops_parser.Prelude.{
  zero, suc, String, Bool, true, false, Option, none, some, List, [], ◌∷◌, ◌≡◌, ◌↔◌, refl, All,
  contains, concat_map, ◌==◌, eq_iff, append_iff, Bool-cases, inl, inr, arith, if◌then◌else◌,
}
use carbon_ops_parser.Text.{is_blank}
use carbon_ops_parser.Text.Number.{ℤ}
use carbon_ops_parser.History.Records.{HistoryIssue}
use carbon_ops_parser.History.Validate.{
  ingestion_source_families, issue_source_families, required_object,
  validate_ingestion_source_family, validate_issue_source_family, validate_positive_optional,
  validate_source_result_target_year, validate_non_negative, validate_non_negative_optional,
  validate_counts, same_run,
}

abbrev pub IsPositive : ℤ → Type 0
IsPositive (ℤ.pos zero) = ⊥
IsPositive (ℤ.pos (suc n)) = Unit
IsPositive (ℤ.negsuc n) = ⊥

abbrev pub IsNatural : ℤ → Type 0
IsNatural (ℤ.pos n) = Unit
IsNatural (ℤ.negsuc n) = ⊥

-- The value, if there is one, meets `P`.
abbrev pub IfGiven : {A : Type 0} → (A → Type 0) → Option A → Type 0
IfGiven P none = Unit
IfGiven P (some a) = P a

-- There is a value, and it meets `P`.
abbrev pub Given : {A : Type 0} → (A → Type 0) → Option A → Type 0
Given P none = ⊥
Given P (some a) = P a

abbrev pub IsFilled : String → Type 0
IsFilled s = is_blank s ≡ false

abbrev pub IsFamily : String → Type 0
IsFamily family = contains family ingestion_source_families ≡ true

-- A list that is empty exactly if a test fails.
pub unless_blank : (b : Bool) (i : HistoryIssue) → ((if b then i ∷ [] else []) ≡ []) ↔ (b ≡ false)
unless_blank true i = (λ h. absurd (cc), λ h. absurd (cc))
unless_blank false i = (λ h. refl, λ h. refl)

pub unless_known : (b : Bool) (i : HistoryIssue) → ((if b then [] else i ∷ []) ≡ []) ↔ (b ≡ true)
unless_known true i = (λ h. refl, λ h. refl)
unless_known false i = (λ h. absurd (cc), λ h. absurd (cc))

pub required_object-Given :
    {O : Type 0} (o : Option O) (code message field_name : String)
    → (required_object o code message field_name ≡ []) ↔ Given (λ o'. Unit {0}) o
required_object-Given none code message field_name = (λ h. cc, λ h. absurd h)
required_object-Given (some o) code message field_name = (λ h. tt, λ h. refl)

pub unless_issue_family :
    (o : Option String) (field_name : String)
    → (validate_issue_source_family o field_name ≡ [])
      ↔ IfGiven (λ family. contains family issue_source_families ≡ true) o
unless_issue_family none field_name = (λ h. tt, λ h. refl)
unless_issue_family (some family) field_name =
    unless_known (contains family issue_source_families) _

pub unless_positive :
    (o : Option ℤ) (field_name : String)
    → (validate_positive_optional field_name o ≡ []) ↔ IfGiven IsPositive o
unless_positive none field_name = (λ h. tt, λ h. refl)
unless_positive (some (ℤ.pos zero)) field_name = (λ h. cc, λ h. absurd h)
unless_positive (some (ℤ.pos (suc n))) field_name = (λ h. tt, λ h. refl)
unless_positive (some (ℤ.negsuc n)) field_name = (λ h. cc, λ h. absurd h)

pub unless_target :
    (o : Option ℤ) (field_name : String)
    → (validate_source_result_target_year field_name o ≡ []) ↔ Given IsPositive o
unless_target none field_name = (λ h. cc, λ h. absurd h)
unless_target (some year) field_name = unless_positive (some year) field_name

pub validate_non_negative-IsNatural :
    (n : ℤ) (field_name : String) → (validate_non_negative field_name n ≡ []) ↔ IsNatural n
validate_non_negative-IsNatural (ℤ.pos n) field_name = (λ h. tt, λ h. refl)
validate_non_negative-IsNatural (ℤ.negsuc n) field_name = (λ h. cc, λ h. absurd h)

pub validate_non_negative_optional-IsNatural :
    (o : Option ℤ) (field_name : String)
    → (validate_non_negative_optional field_name o ≡ []) ↔ IfGiven IsNatural o
validate_non_negative_optional-IsNatural none field_name = (λ h. tt, λ h. refl)
validate_non_negative_optional-IsNatural (some n) field_name =
    validate_non_negative-IsNatural n field_name

pub unless_counts :
    (counts : List (String × ℤ)) → (validate_counts counts ≡ []) ↔ All (λ c. IsNatural c.1) counts
unless_counts [] = (λ h. tt, λ h. refl)
unless_counts ((name, n) ∷ counts) =
    append_iff (validate_non_negative-IsNatural n name) (unless_counts counts)

pub unless_families :
    (families : List String) (field_name : String)
    → (concat_map (λ family. validate_ingestion_source_family family field_name) families ≡ [])
      ↔ All IsFamily families
unless_families [] field_name = (λ h. tt, λ h. refl)
unless_families (family ∷ families) field_name =
    append_iff (unless_known (contains family ingestion_source_families) _)
      (unless_families families field_name)

pub unless_other_run :
    (run_id other code message field_name : String)
    → (same_run run_id other code message field_name ≡ []) ↔ (other ≡ run_id)
unless_other_run run_id other code message field_name = elim (Bool-cases (other == run_id)) [
  | inl same ↦ rw same (λ h. (eq_iff other run_id).0 same, λ h. refl)
  | inr differ ↦ rw differ (λ h. absurd (cc), λ h. absurd (ground (arith, eq_iff other run_id)))
]

-- An equivalence, with its right side in another form.
pub through : {A B C : Type 0} → A ↔ B → (B → C) → (C → B) → A ↔ C
through (f, g) there back = (λ a. there (f a), λ c. g (back c))
