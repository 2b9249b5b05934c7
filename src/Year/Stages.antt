-- ===== src/Year/Stages.antt =====
-- The outcomes of one family's run, stage by stage.
use carbon_ops_parser.Prelude.{
  ℕ, String, true, Option, none, some, List, [], ◌∷◌, ◌≡◌, ◌≢◌, refl, Bool-cases, inl, inr,
}
use mathlib.Core.Option.{some-injective}
use carbon_ops_parser.Exec.{Exec, lift, subscript}
use carbon_ops_parser.Exec.Ensures.{Ensures, Ensures-bind, Ensures-try}
use carbon_ops_parser.Row.{OutputBatch, row_count}
use carbon_ops_parser.Year.Types.{
  FamilyStatus, YearState, DiscoveryStatus, DiscoveryResult, DownloadResult, DownloadedArtifact,
  ValidationResult, is_valid, InsertSummary, is_success, FailureDetail, RunRequest,
}
use carbon_ops_parser.Year.Select.{year_state_keys, select_year_state}
use carbon_ops_parser.Year.Boundary.{
  SourceFamilyAdapter, Dependencies, Progress, no_progress, failed_family, family_result,
  or_default, coerce_insert_summary,
}
use carbon_ops_parser.Year.Family.{
  record_stage, inserted_stage, insert_stage, checked_stage, validate_stage, downloaded_stage,
  discovered_stage, discover_stage, boundary_stage, run_source_family,
}
use carbon_ops_parser.Year.Outcome.{IsValidated, IsConsistent, KeepsReading, Guarded}

or_default-ne-nil : (issues : List FailureDetail) (d : FailureDetail) → or_default issues d ≢ []
or_default-ne-nil [] d = cc
or_default-ne-nil (issue ∷ issues) d = cc

module _ {O : Type 0} where
  -- What a family has produced once its artifact is there, and once it is validated.
  abbrev downloaded_progress : DiscoveryResult O → DownloadResult O → Progress O
  downloaded_progress d l = record no_progress {
    discovery_result = some d;
    download_result = some l;
  }

  abbrev validated_progress :
      DiscoveryResult O
      → DownloadResult O
      → ℕ
      → ValidationResult
      → Option InsertSummary
      → Progress O
  validated_progress d l n v s = record {
    discovery_result = some d;
    download_result = some l;
    parsed_row_count = n;
    validation_result = some v;
    insert_summary = s;
  }

  validated :
      (state : YearState) (d : DiscoveryResult O) (l : DownloadResult O) (n : ℕ)
      (v : ValidationResult)
      → is_valid v ≡ true
      → (s : Option InsertSummary) (status : FamilyStatus) (recorded : Option ℕ)
        (failures : List FailureDetail)
      → IsValidated O (family_result status state (validated_progress d l n v s) recorded failures)
  validated state d l n v valid s status recorded failures = record {
    discovery = d;
    discovered = refl;
    download = l;
    downloaded = refl;
    validation = v;
    validated = refl;
    valid = valid;
  }

  -- A failure before any insert.
  failed-IsConsistent :
      (state : YearState) (failures : List FailureDetail) (p : Progress O)
      → failures ≢ []
      → p.insert_summary ≡ none
      → IsConsistent (failed_family state failures p) FamilyStatus.failed
  failed-IsConsistent state failures p h e = (refl, h, λ s k. absurd (cc))

module _ {W O : Type 0} (request : RunRequest) (deps : Dependencies W O) (P : W → Type 0)
    (keeps : KeepsReading deps P) (family : String) (state : YearState) where
  module _ (d : DiscoveryResult O) (l : DownloadResult O) where
    module _ (n : ℕ) (v : ValidationResult) (valid : is_valid v ≡ true) where
      record_stage-Guarded :
          (s : InsertSummary) (w : W)
          → is_success s ≡ true
          → Ensures
              (record_stage request deps family state (validated_progress d l n v (some s)))
              w
              (Guarded P)
      unfolding record_stage
      record_stage-Guarded s w good =
          Ensures-bind (lift (subscript year_state_keys family)) _ w (Guarded P) (λ e h. tt)
            (λ key h.
              Ensures-bind (deps.record_ingested_year key state.target_year) _ w (Guarded P)
                (λ e k. tt)
                (λ u k. (
                  (refl, refl, (s, refl, good), validated state d l n v valid _ _ _ _),
                  λ missing. absurd (cc),
                )))

      inserted_stage-Guarded :
          (s : InsertSummary) (w : W)
          → Ensures
              (inserted_stage request deps family state (validated_progress d l n v none) s)
              w
              (Guarded P)
      unfolding inserted_stage
      inserted_stage-Guarded s w = elim (Bool-cases (is_success s)) [
        | inl good ↦ rw good (record_stage-Guarded s w good)
        | inr bad ↦ rw bad (
          (
            refl,
            cc,
            λ s' e. (rw (← some-injective s s' e) bad, validated state d l n v valid _ _ _ _),
          ),
          λ missing. absurd (cc),
        )
      ]

      insert_stage-Guarded :
          (b : OutputBatch O) (w : W)
          → Ensures
              (insert_stage request deps family state b (validated_progress d l n v none))
              w
              (Guarded P)
      unfolding insert_stage
      insert_stage-Guarded b w =
          Ensures-bind _ _ w (Guarded P) (λ e h. tt)
            (λ a h. inserted_stage-Guarded (coerce_insert_summary a) _)

    checked_stage-Guarded :
        (b : OutputBatch O) (v : ValidationResult) (w : W)
        → P w
        → Ensures
            (checked_stage request deps family state b (downloaded_progress d l) v)
            w
            (Guarded P)
    unfolding checked_stage
    checked_stage-Guarded b v w h = elim (Bool-cases (is_valid v)) [
      | inl good ↦ rw good (insert_stage-Guarded (row_count b) v good b w)
      | inr bad ↦ rw bad (
        failed-IsConsistent state _ (validated_progress d l (row_count b) v none)
            (or_default-ne-nil v.issues _) refl,
        λ missing. h,
      )
    ]

    validate_stage-Guarded :
        (b : OutputBatch O) (w : W)
        → P w
        → Ensures
            (validate_stage request deps family state (downloaded_progress d l) b)
            w
            (Guarded P)
    unfolding validate_stage
    validate_stage-Guarded b w h =
        Ensures-bind _ _ w (Guarded P) (λ e k. tt)
          (λ v k. checked_stage-Guarded b v _ (keeps.validate_keeps b w h))

  module _ (parse : DownloadedArtifact O → Exec W (OutputBatch O))
      (parser_is : deps.parser_boundaries family ≡ some parse) where
    downloaded_stage-Guarded :
        (d : DiscoveryResult O) (l : DownloadResult O) (issues : List FailureDetail)
        (a : Option (DownloadedArtifact O)) (w : W)
        → P w
        → Ensures
            (downloaded_stage request deps family state parse (downloaded_progress d l) issues a)
            w
            (Guarded P)
    unfolding downloaded_stage
    downloaded_stage-Guarded d l issues none w h = (
      failed-IsConsistent state _ (downloaded_progress d l) (or_default-ne-nil issues _) refl,
      λ missing. h,
    )
    downloaded_stage-Guarded d l issues (some a) w h =
        Ensures-try (parse a) _ _ w (Guarded P)
          (λ e k. (
            failed-IsConsistent state _ (downloaded_progress d l) (cc) refl,
            λ missing. keeps.parse_keeps family parse a w parser_is h,
          ))
          (λ b k. validate_stage-Guarded d l b _ (keeps.parse_keeps family parse a w parser_is h))

    module _ (adapter : SourceFamilyAdapter W O)
        (adapter_is : deps.source_adapters family ≡ some adapter) where
      discovered_stage-Guarded :
          (d : DiscoveryResult O) (s : DiscoveryStatus) (w : W)
          → P w
          → Ensures (discovered_stage request deps family state adapter parse d s) w (Guarded P)
      unfolding discovered_stage
      discovered_stage-Guarded d DiscoveryStatus.source_year_available w h =
          Ensures-bind (adapter.download_target_year d) _ w (Guarded P) (λ e k. tt)
            (λ l k.
              downloaded_stage-Guarded d l l.issues _ _
                (keeps.download_keeps family adapter d w adapter_is h))
      discovered_stage-Guarded d DiscoveryStatus.no_available_source_year w h =
          ((refl, refl, refl, refl), λ missing. h)
      discovered_stage-Guarded d DiscoveryStatus.other w h = (
        failed-IsConsistent state _ (record no_progress { discovery_result = some d }) (cc) refl,
        λ missing. h,
      )

      discover_stage-Guarded :
          (w : W)
          → P w
          → Ensures (discover_stage request deps family state adapter parse) w (Guarded P)
      unfolding discover_stage
      discover_stage-Guarded w h =
          Ensures-bind _ _ w (Guarded P) (λ e k. tt)
            (λ d k.
              discovered_stage-Guarded d d.status _
                (keeps.discover_keeps family adapter _ w adapter_is h))

  boundary_stage-Guarded :
      (adapter : Option (SourceFamilyAdapter W O))
      (parser : Option (DownloadedArtifact O → Exec W (OutputBatch O))) (w : W)
      → deps.source_adapters family ≡ adapter
      → deps.parser_boundaries family ≡ parser
      → P w
      → Ensures (boundary_stage request deps family state adapter parser) w (Guarded P)
  unfolding boundary_stage
  boundary_stage-Guarded none parser w ha hp h =
      (failed-IsConsistent state _ no_progress (cc) refl, λ missing. h)
  boundary_stage-Guarded (some adapter) none w ha hp h =
      (failed-IsConsistent state _ no_progress (cc) refl, λ missing. h)
  boundary_stage-Guarded (some adapter) (some parse) w ha hp h =
      discover_stage-Guarded parse hp adapter ha w h

module _ {W O : Type 0} (request : RunRequest) (deps : Dependencies W O) (P : W → Type 0)
    (keeps : KeepsReading deps P) where
  pub run_source_family-Guarded :
      (family : String) (w : W)
      → P w
      → Ensures (run_source_family request deps family) w (Guarded P)
  run_source_family-Guarded family w h =
      unfold run_source_family in
      Ensures-bind (lift (subscript year_state_keys family)) _ w (Guarded P) (λ e k. tt)
        (λ key k.
          Ensures-bind (deps.latest_ingested_year key) _ w (Guarded P) (λ e k'. tt)
            (λ year k'.
              Ensures-bind (lift (select_year_state family year request.initial_year)) _ _
                (Guarded P) (λ e k''. tt)
                (λ state k''.
                  boundary_stage-Guarded request deps P keeps family state _ _ _ refl refl
                    (keeps.read_keeps key w h))))
