-- ===== src/Year/Insertion.antt =====
-- What the insert of a family's run establishes is still so when the run ends.
use carbon_ops_parser.Prelude.{ℕ, String, Option, none, some, List, ◌≡◌, refl, Bool-cases, inl, inr}
use carbon_ops_parser.Exec.{Exec, Result, ok, raised, lift, subscript}
use carbon_ops_parser.Exec.Ensures.{Ensures, Ensures-bind, Ensures-try}
use carbon_ops_parser.Row.{OutputBatch, row_count}
use carbon_ops_parser.Year.Types.{
  YearState, DiscoveryStatus, DiscoveryResult, DownloadedArtifact, ValidationResult, is_valid,
  InsertSummary, is_success, FailureDetail, FamilyResult, RepositoryInsertResult, RunRequest,
}
use carbon_ops_parser.Year.Select.{year_state_keys, select_year_state}
use carbon_ops_parser.Year.Boundary.{
  SourceFamilyAdapter, Dependencies, Progress, no_progress, coerce_insert_summary,
}
use carbon_ops_parser.Year.Family.{
  record_stage, inserted_stage, insert_stage, checked_stage, validate_stage, downloaded_stage,
  discovered_stage, discover_stage, boundary_stage, run_source_family,
}
use carbon_ops_parser.Year.Outcome.{KeepsReading}

module _ {W O : Type 0} (deps : Dependencies W O) where
  -- From a world with `P`, an insert that returns establishes `I` of what it returns, and the
  -- recording of a year keeps that.
  pub record Establishes (P : W → Type 0) (I : RepositoryInsertResult → W → Type 0) : Type 0 where
    pub inserts :
        (b : OutputBatch O) (w : W) (i : RepositoryInsertResult)
        → P w
        → (deps.insert_normalized_factor_records b w).0 ≡ ok i
        → I i (deps.insert_normalized_factor_records b w).1
    pub record_keeps :
        (i : RepositoryInsertResult) (key : String) (y : ℕ) (w : W)
        → I i w
        → I i (deps.record_ingested_year key y w).1

-- A result's insert summary is that of an insert for which `I` holds.
abbrev pub IsInserted :
    {W O : Type 0} → (RepositoryInsertResult → W → Type 0) → Result (FamilyResult O) → W → Type 0
IsInserted I (ok r) w =
    (s : InsertSummary)
    → r.insert_summary ≡ some s
    → (i : RepositoryInsertResult) × (s ≡ coerce_insert_summary i) × I i w
IsInserted I (raised e) w = Unit

module _ {W O : Type 0} (request : RunRequest) (deps : Dependencies W O) (P : W → Type 0)
    (keeps : KeepsReading deps P) (I : RepositoryInsertResult → W → Type 0)
    (establishes : Establishes deps P I) (family : String) (state : YearState) where
  record_stage-IsInserted :
      (p : Progress O) (i : RepositoryInsertResult) (w : W)
      → p.insert_summary ≡ some (coerce_insert_summary i)
      → I i w
      → Ensures (record_stage request deps family state p) w (IsInserted I)
  unfolding record_stage
  record_stage-IsInserted p i w is h =
      Ensures-bind (lift (subscript year_state_keys family)) _ w (IsInserted I) (λ e k. tt)
        (λ key k.
          Ensures-bind (deps.record_ingested_year key state.target_year) _ w (IsInserted I)
            (λ e k'. tt)
            (λ u k' s e. (i, cc, establishes.record_keeps i key state.target_year w h)))

  inserted_stage-IsInserted :
      (p : Progress O) (i : RepositoryInsertResult) (w : W)
      → I i w
      → Ensures
          (inserted_stage request deps family state p (coerce_insert_summary i))
          w
          (IsInserted I)
  unfolding inserted_stage
  inserted_stage-IsInserted p i w h = elim (Bool-cases (is_success (coerce_insert_summary i))) [
    | inl good ↦ rw good (
        record_stage-IsInserted (record p { insert_summary = some (coerce_insert_summary i) }) i w
          refl h)
    | inr bad ↦ rw bad (λ s e. (i, cc, h))
  ]

  insert_stage-IsInserted :
      (b : OutputBatch O) (p : Progress O) (w : W)
      → P w
      → Ensures (insert_stage request deps family state b p) w (IsInserted I)
  unfolding insert_stage
  insert_stage-IsInserted b p w h =
      Ensures-bind (deps.insert_normalized_factor_records _) _ w (IsInserted I) (λ e k. tt)
        (λ i k. inserted_stage-IsInserted p i _ (establishes.inserts _ w i h k))

  checked_stage-IsInserted :
      (b : OutputBatch O) (p : Progress O) (v : ValidationResult) (w : W)
      → p.insert_summary ≡ none
      → P w
      → Ensures (checked_stage request deps family state b p v) w (IsInserted I)
  unfolding checked_stage
  checked_stage-IsInserted b p v w is h = elim (Bool-cases (is_valid v)) [
    | inl good ↦ rw good (
        insert_stage-IsInserted b
          (record p { parsed_row_count = row_count b; validation_result = some v }) w h)
    | inr bad ↦ rw bad (λ s e. absurd (cc))
  ]

  validate_stage-IsInserted :
      (p : Progress O) (b : OutputBatch O) (w : W)
      → p.insert_summary ≡ none
      → P w
      → Ensures (validate_stage request deps family state p b) w (IsInserted I)
  unfolding validate_stage
  validate_stage-IsInserted p b w is h =
      Ensures-bind (deps.validate b) _ w (IsInserted I) (λ e k. tt)
        (λ v k. checked_stage-IsInserted b p v _ is (keeps.validate_keeps b w h))

  module _ (parse : DownloadedArtifact O → Exec W (OutputBatch O))
      (parser_is : deps.parser_boundaries family ≡ some parse) where
    downloaded_stage-IsInserted :
        (p : Progress O) (issues : List FailureDetail) (a : Option (DownloadedArtifact O)) (w : W)
        → p.insert_summary ≡ none
        → P w
        → Ensures (downloaded_stage request deps family state parse p issues a) w (IsInserted I)
    unfolding downloaded_stage
    downloaded_stage-IsInserted p issues none w is h = λ s e. absurd (cc)
    downloaded_stage-IsInserted p issues (some a) w is h =
        Ensures-try (parse a) _ _ w (IsInserted I) (λ e k s e'. absurd (cc))
          (λ b k.
            validate_stage-IsInserted p b _ is (keeps.parse_keeps family parse a w parser_is h))

    module _ (adapter : SourceFamilyAdapter W O)
        (adapter_is : deps.source_adapters family ≡ some adapter) where
      discovered_stage-IsInserted :
          (d : DiscoveryResult O) (s : DiscoveryStatus) (w : W)
          → P w
          → Ensures (discovered_stage request deps family state adapter parse d s) w (IsInserted I)
      unfolding discovered_stage
      discovered_stage-IsInserted d DiscoveryStatus.source_year_available w h =
          Ensures-bind (adapter.download_target_year d) _ w (IsInserted I) (λ e k. tt)
            (λ l k.
              downloaded_stage-IsInserted
                (record no_progress { discovery_result = some d; download_result = some l })
                l.issues _ _ refl (keeps.download_keeps family adapter d w adapter_is h))
      discovered_stage-IsInserted d DiscoveryStatus.no_available_source_year w h =
          λ s e. absurd (cc)
      discovered_stage-IsInserted d DiscoveryStatus.other w h = λ s e. absurd (cc)

      discover_stage-IsInserted :
          (w : W)
          → P w
          → Ensures (discover_stage request deps family state adapter parse) w (IsInserted I)
      unfolding discover_stage
      discover_stage-IsInserted w h =
          Ensures-bind _ _ w (IsInserted I) (λ e k. tt)
            (λ d k.
              discovered_stage-IsInserted d d.status _
                (keeps.discover_keeps family adapter _ w adapter_is h))

  boundary_stage-IsInserted :
      (adapter : Option (SourceFamilyAdapter W O))
      (parser : Option (DownloadedArtifact O → Exec W (OutputBatch O))) (w : W)
      → deps.source_adapters family ≡ adapter
      → deps.parser_boundaries family ≡ parser
      → P w
      → Ensures (boundary_stage request deps family state adapter parser) w (IsInserted I)
  unfolding boundary_stage
  boundary_stage-IsInserted none parser w ha hp h = λ s e. absurd (cc)
  boundary_stage-IsInserted (some adapter) none w ha hp h = λ s e. absurd (cc)
  boundary_stage-IsInserted (some adapter) (some parse) w ha hp h =
      discover_stage-IsInserted parse hp adapter ha w h

-- The insert summary of a family's result comes from an insert, and what an insert establishes still
-- holds when the family's run has ended. The boundaries before the insert keep what it needs, and
-- the recording of a year keeps what it establishes.
pub run_source_family-IsInserted :
    {W O : Type 0} (request : RunRequest) (deps : Dependencies W O) (P : W → Type 0)
    (keeps : KeepsReading deps P) (I : RepositoryInsertResult → W → Type 0)
    (establishes : Establishes deps P I) (family : String) (w : W)
    → P w
    → Ensures (run_source_family request deps family) w (IsInserted I)
run_source_family-IsInserted request deps P keeps I establishes family w h =
    unfold run_source_family in
    Ensures-bind (lift (subscript year_state_keys family)) _ w (IsInserted I) (λ e k. tt)
      (λ key k.
        Ensures-bind (deps.latest_ingested_year key) _ w (IsInserted I) (λ e k'. tt)
          (λ year k'.
            Ensures-bind (lift (select_year_state family year request.initial_year)) _ _
              (IsInserted I) (λ e k''. tt)
              (λ state k''.
                boundary_stage-IsInserted request deps P keeps I establishes family state _ _ _ refl
                  refl (keeps.read_keeps key w h))))
