-- ===== src/Year/Named.antt =====
-- The family that a result names.
use carbon_ops_parser.Prelude.{ℕ, String, Option, none, some, List, ◌≡◌, Bool-cases, inl, inr}
use carbon_ops_parser.Exec.{Exec, Result, ok, raised, pure, lift, subscript, ◌>>=◌}
use carbon_ops_parser.Exec.Ensures.{Ensures, Ensures-bind, Ensures-try}
use carbon_ops_parser.Row.{OutputBatch, row_count}
use carbon_ops_parser.Year.Types.{
  YearState, DiscoveryStatus, DiscoveryResult, DownloadedArtifact, ValidationResult, is_valid,
  InsertSummary, is_success, FailureDetail, FamilyResult, RunRequest,
}
use carbon_ops_parser.Year.Select.{year_state_keys, with_key, select_year_state}
use carbon_ops_parser.Year.Boundary.{
  SourceFamilyAdapter, Dependencies, Progress, no_progress, coerce_insert_summary,
}
use carbon_ops_parser.Year.Family.{
  usable_artifact, record_stage, inserted_stage, insert_stage, checked_stage, validate_stage,
  parse_stage, downloaded_stage, download_stage, discovered_stage, discover_stage, boundary_stage,
  run_source_family,
}

-- A result is for the family.
abbrev pub NamedAs : {O : Type 0} → String → Result (FamilyResult O) → Type 0
NamedAs family (ok r) = r.source_family ≡ family
NamedAs family (raised e) = Unit

-- Whatever the world, the action's result is for the family.
record Names (W O : Type 0) (family : String) (m : Exec W (FamilyResult O)) : Type 0 where
  names : (w : W) → Ensures m w (λ r w'. NamedAs family r)

Names-pure :
    {W O : Type 0} {family : String} (r : FamilyResult O)
    → r.source_family ≡ family
    → Names W O family (pure r)
Names-pure r is = record { names = λ w. is }

Names-bind :
    {W O A : Type 0} {family : String} (m : Exec W A) {f : A → Exec W (FamilyResult O)}
    → ((a : A) → Names W O family (f a))
    → Names W O family (m >>= f)
Names-bind {family} m {f} rest = record {
  names = λ w.
      Ensures-bind m f w (λ r w'. NamedAs family r) (λ e h. tt) (λ a h. (rest a).names (m w).1);
}

module _ {W O : Type 0} (request : RunRequest) (deps : Dependencies W O) (family : String)
    (state : YearState) (is : state.source_family ≡ family) where
  record_stage-Names :
      (p : Progress O) → Names W O family (record_stage request deps family state p)
  unfolding record_stage
  record_stage-Names p = Names-bind _ (λ key. Names-bind _ (λ u. Names-pure _ is))

  inserted_stage-Names :
      (p : Progress O) (s : InsertSummary)
      → Names W O family (inserted_stage request deps family state p s)
  unfolding inserted_stage
  inserted_stage-Names p s = elim (Bool-cases (is_success s)) [
    | inl good ↦ rw good (record_stage-Names (record p { insert_summary = some s }))
    | inr bad ↦ rw bad (Names-pure _ is)
  ]

  insert_stage-Names :
      (b : OutputBatch O) (p : Progress O)
      → Names W O family (insert_stage request deps family state b p)
  unfolding insert_stage
  insert_stage-Names b p = Names-bind _ (λ i. inserted_stage-Names p (coerce_insert_summary i))

  checked_stage-Names :
      (b : OutputBatch O) (p : Progress O) (v : ValidationResult)
      → Names W O family (checked_stage request deps family state b p v)
  unfolding checked_stage
  checked_stage-Names b p v = elim (Bool-cases (is_valid v)) [
    | inl good ↦ rw good (
        insert_stage-Names b
          (record p { parsed_row_count = row_count b; validation_result = some v }))
    | inr bad ↦ rw bad (Names-pure _ is)
  ]

  validate_stage-Names :
      (p : Progress O) (b : OutputBatch O)
      → Names W O family (validate_stage request deps family state p b)
  unfolding validate_stage
  validate_stage-Names p b = Names-bind _ (λ v. checked_stage-Names b p v)

  downloaded_stage-Names :
      (parse : DownloadedArtifact O → Exec W (OutputBatch O)) (p : Progress O)
      (issues : List FailureDetail) (a : Option (DownloadedArtifact O))
      → Names W O family (downloaded_stage request deps family state parse p issues a)
  unfolding downloaded_stage parse_stage
  downloaded_stage-Names parse p issues none = Names-pure _ is
  downloaded_stage-Names parse p issues (some a) = record {
    names = λ w.
        let Q : Result (FamilyResult O) → W → Type 0 = λ r w'. NamedAs family r in
        Ensures-try (parse a) _ _ w Q (λ e h. is)
          (λ b h. (validate_stage-Names p b).names (parse a w).1);
  }

  discovered_stage-Names :
      (adapter : SourceFamilyAdapter W O) (parse : DownloadedArtifact O → Exec W (OutputBatch O))
      (d : DiscoveryResult O) (s : DiscoveryStatus)
      → Names W O family (discovered_stage request deps family state adapter parse d s)
  unfolding discovered_stage download_stage
  discovered_stage-Names adapter parse d DiscoveryStatus.source_year_available = Names-bind _ (λ l.
      downloaded_stage-Names parse
        (record no_progress { discovery_result = some d; download_result = some l }) l.issues
        (usable_artifact l.status l.artifact))
  discovered_stage-Names adapter parse d DiscoveryStatus.no_available_source_year = Names-pure _ is
  discovered_stage-Names adapter parse d DiscoveryStatus.other = Names-pure _ is

  boundary_stage-Names :
      (adapter : Option (SourceFamilyAdapter W O))
      (parser : Option (DownloadedArtifact O → Exec W (OutputBatch O)))
      → Names W O family (boundary_stage request deps family state adapter parser)
  unfolding boundary_stage discover_stage
  boundary_stage-Names none parser = Names-pure _ is
  boundary_stage-Names (some adapter) none = Names-pure _ is
  boundary_stage-Names (some adapter) (some parse) =
      Names-bind _ (λ d. discovered_stage-Names adapter parse d d.status)

with_key-named :
    (family : String) (year : Option ℕ) (initial : ℕ) (key : Result String) (state : YearState)
    → with_key family year initial key ≡ ok state
    → state.source_family ≡ family
with_key-named family year initial (ok key) state h = cc h
with_key-named family year initial (raised e) state h = absurd (cc h)

select_year_state-named :
    (family : String) (year : Option ℕ) (initial : ℕ) (state : YearState)
    → select_year_state family year initial ≡ ok state
    → state.source_family ≡ family
unfolding select_year_state
select_year_state-named family year initial state =
    with_key-named family year initial (subscript year_state_keys family) state

-- The result of a family's run is for the family.
pub run_source_family-NamedAs :
    {W O : Type 0} (request : RunRequest) (deps : Dependencies W O) (family : String) (w : W)
    → Ensures (run_source_family request deps family) w (λ r w'. NamedAs family r)
run_source_family-NamedAs {W} {O} request deps family w =
    let Q : Result (FamilyResult O) → W → Type 0 = λ r w'. NamedAs family r in
    unfold run_source_family in
    Ensures-bind (lift (subscript year_state_keys family)) _ w Q (λ e k. tt)
      (λ key k.
        Ensures-bind (deps.latest_ingested_year key) _ w Q (λ e k'. tt)
          (λ year k'.
            Ensures-bind (lift (select_year_state family year request.initial_year)) _ _ Q
              (λ e k''. tt)
              (λ state k''.
                (boundary_stage-Names request deps family state
                    (select_year_state-named family year request.initial_year state k'')
                    (deps.source_adapters family) (deps.parser_boundaries family)).names
                  _)))
