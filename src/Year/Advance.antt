-- ===== src/Year/Advance.antt =====
-- One family's run, stage by stage, against the ledger of years.
use carbon_ops_parser.Prelude.{
  ℕ, Option, none, some, List, [], ◌≡◌, refl, ◌∙◌, inl, inr, arith, Bool-cases,
}
use carbon_ops_parser.Exec.{Result, ok, Exec, pure, lift, ◌>>=◌, subscript, ◌>>◌}
use carbon_ops_parser.Exec.Ensures.{Ensures, Ensures-bind, Ensures-try}
use carbon_ops_parser.Catalog.{SourceFamily, ghg, defra, ipcc, value, postgresql_value}
use carbon_ops_parser.Row.{OutputBatch, row_count}
use carbon_ops_parser.Year.Types.{
  FamilyStatus, YearState, DiscoveryStatus, DiscoveryResult, DownloadedArtifact, ValidationResult,
  is_valid, InsertSummary, is_success, FailureDetail, FamilyResult, RunRequest,
}
use carbon_ops_parser.Year.Select.{year_state_keys, next_year, select_year_state, year_state_of}
use carbon_ops_parser.Year.Boundary.{
  coerce_insert_summary, family_result, SourceFamilyAdapter, Dependencies, Progress,
}
use carbon_ops_parser.Year.Family.{
  record_stage, inserted_stage, insert_stage, checked_stage, validate_stage, parse_stage,
  downloaded_stage, download_stage, discovered_stage, discover_stage, boundary_stage,
  run_source_family,
}
use carbon_ops_parser.Year.Ledger.{Years, IsNewYear, IsLedger, Advances}

pub subscript-postgresql_value :
    (f : SourceFamily) → subscript year_state_keys (postgresql_value f) ≡ ok (value f)
unfolding subscript
subscript-postgresql_value ghg = refl
subscript-postgresql_value defra = refl
subscript-postgresql_value ipcc = refl

IsNewYear-next_year : (o : Option ℕ) (initial : ℕ) → IsNewYear o (next_year o initial)
IsNewYear-next_year none initial = tt
IsNewYear-next_year (some latest) initial = omega arith

module _ {W O : Type 0} (request : RunRequest) (deps : Dependencies W O) (latest : W → Years)
    (ledger : IsLedger deps latest) (f : SourceFamily) (state : YearState) (t : Years)
    (named : state.source_family ≡ postgresql_value f)
    (target : state.target_year ≡ next_year (t f) request.initial_year) where
  -- the postcondition of every stage
  abbrev Done : Result (FamilyResult O) → W → Type 0
  Done r w = Advances request.initial_year t f r (latest w)

  -- A first step that leaves the years alone.
  keep-bind :
      {A : Type 0} (m : Exec W A) (next : A → Exec W (FamilyResult O)) (w : W)
      → latest (m w).1 ≡ t
      → ((a : A) → (m w).0 ≡ ok a → Ensures (next a) (m w).1 Done)
      → Ensures (m >>= next) w Done
  keep-bind m next w keeps rest = Ensures-bind m next w Done (λ e h. inl keeps) rest

  recorded :
      (p : Progress O) (w : W)
      → latest w ≡ t
      → Ensures
          (do
            deps.record_ingested_year (value f) state.target_year
            pure (family_result FamilyStatus.completed state p (some state.target_year) []))
          w
          Done
  recorded p w same =
      let fresh : IsNewYear (latest w f) (next_year (latest w f) request.initial_year) =
        IsNewYear-next_year (latest w f) request.initial_year in
      let reached : state.target_year ≡ next_year (latest w f) request.initial_year =
        rw same target in
      Ensures-bind _ _ w Done (λ e h. rw (← same, reached) (ledger.record_raised f _ w fresh))
        (λ a h. (named, rw (← same, reached) (ledger.record_ok f _ w fresh (rw reached at h))))

  record_stage-Done :
      (p : Progress O) (w : W)
      → latest w ≡ t
      → Ensures (record_stage request deps (postgresql_value f) state p) w Done
  unfolding record_stage
  record_stage-Done p w same = rw (subscript-postgresql_value f) (unfold ◌>>=◌ in recorded p w same)

  inserted_stage-Done :
      (p : Progress O) (s : InsertSummary) (w : W)
      → latest w ≡ t
      → Ensures (inserted_stage request deps (postgresql_value f) state p s) w Done
  unfolding inserted_stage
  inserted_stage-Done p s w same = elim (Bool-cases (is_success s)) [
    | inl good ↦ rw good (record_stage-Done (record p { insert_summary = some s }) w same)
    | inr bad ↦ rw bad (named, same)
  ]

  insert_stage-Done :
      (b : OutputBatch O) (p : Progress O) (w : W)
      → latest w ≡ t
      → Ensures (insert_stage request deps (postgresql_value f) state b p) w Done
  unfolding insert_stage
  insert_stage-Done b p w same =
      let keeps = ledger.insert_keeps _ w ∙ same in
      keep-bind _ _ w keeps (λ a h. inserted_stage-Done p (coerce_insert_summary a) _ keeps)

  checked_stage-Done :
      (b : OutputBatch O) (p : Progress O) (v : ValidationResult) (w : W)
      → latest w ≡ t
      → Ensures (checked_stage request deps (postgresql_value f) state b p v) w Done
  unfolding checked_stage
  checked_stage-Done b p v w same = elim (Bool-cases (is_valid v)) [
    | inl good ↦ rw good (
        insert_stage-Done b
          (record p { parsed_row_count = row_count b; validation_result = some v }) w same)
    | inr bad ↦ rw bad (named, same)
  ]

  validate_stage-Done :
      (p : Progress O) (b : OutputBatch O) (w : W)
      → latest w ≡ t
      → Ensures (validate_stage request deps (postgresql_value f) state p b) w Done
  unfolding validate_stage
  validate_stage-Done p b w same =
      let keeps = ledger.validate_keeps b w ∙ same in
      keep-bind _ _ w keeps (λ v h. checked_stage-Done b p v _ keeps)

  module _ (parse : DownloadedArtifact O → Exec W (OutputBatch O))
      (parser_is : deps.parser_boundaries (postgresql_value f) ≡ some parse) where
    parse_stage-Done :
        (p : Progress O) (a : DownloadedArtifact O) (w : W)
        → latest w ≡ t
        → Ensures (parse_stage request deps (postgresql_value f) state parse p a) w Done
    unfolding parse_stage
    parse_stage-Done p a w same =
        let keeps = ledger.parse_keeps (postgresql_value f) parse a w parser_is ∙ same in
        Ensures-try (parse a) _ _ w Done (λ e h. (named, keeps))
          (λ b h. validate_stage-Done p b _ keeps)

    downloaded_stage-Done :
        (p : Progress O) (issues : List FailureDetail) (a : Option (DownloadedArtifact O)) (w : W)
        → latest w ≡ t
        → Ensures (downloaded_stage request deps (postgresql_value f) state parse p issues a) w Done
    unfolding downloaded_stage
    downloaded_stage-Done p issues none w same = (named, same)
    downloaded_stage-Done p issues (some a) w same = parse_stage-Done p a w same

    module _ (adapter : SourceFamilyAdapter W O)
        (adapter_is : deps.source_adapters (postgresql_value f) ≡ some adapter) where
      download_stage-Done :
          (d : DiscoveryResult O) (w : W)
          → latest w ≡ t
          → Ensures (download_stage request deps (postgresql_value f) state adapter parse d) w Done
      unfolding download_stage
      download_stage-Done d w same =
          let keeps = ledger.download_keeps (postgresql_value f) adapter d w adapter_is ∙ same in
          keep-bind _ _ w keeps (λ r h. downloaded_stage-Done _ r.issues _ _ keeps)

      discovered_stage-Done :
          (d : DiscoveryResult O) (s : DiscoveryStatus) (w : W)
          → latest w ≡ t
          → Ensures
              (discovered_stage request deps (postgresql_value f) state adapter parse d s)
              w
              Done
      unfolding discovered_stage
      discovered_stage-Done d DiscoveryStatus.source_year_available w same =
          download_stage-Done d w same
      discovered_stage-Done d DiscoveryStatus.no_available_source_year w same = (named, same)
      discovered_stage-Done d DiscoveryStatus.other w same = (named, same)

      discover_stage-Done :
          (w : W)
          → latest w ≡ t
          → Ensures (discover_stage request deps (postgresql_value f) state adapter parse) w Done
      unfolding discover_stage
      discover_stage-Done w same =
          let keeps = ledger.discover_keeps (postgresql_value f) adapter _ w adapter_is ∙ same in
          keep-bind _ _ w keeps (λ d h. discovered_stage-Done d d.status _ keeps)

  boundary_stage-Done :
      (adapter : Option (SourceFamilyAdapter W O))
      (parser : Option (DownloadedArtifact O → Exec W (OutputBatch O))) (w : W)
      → deps.source_adapters (postgresql_value f) ≡ adapter
      → deps.parser_boundaries (postgresql_value f) ≡ parser
      → latest w ≡ t
      → Ensures (boundary_stage request deps (postgresql_value f) state adapter parser) w Done
  unfolding boundary_stage
  boundary_stage-Done none parser w ha hp same = (named, same)
  boundary_stage-Done (some adapter) none w ha hp same = (named, same)
  boundary_stage-Done (some adapter) (some parse) w ha hp same =
      discover_stage-Done parse hp adapter ha w same

select_year_state-postgresql_value :
    (f : SourceFamily) (latest : Option ℕ) (initial : ℕ)
    → select_year_state (postgresql_value f) latest initial
      ≡ ok (year_state_of (postgresql_value f) (value f) latest initial)
unfolding select_year_state
select_year_state-postgresql_value f latest initial = rw (subscript-postgresql_value f)

module _ {W O : Type 0} (request : RunRequest) (deps : Dependencies W O) (latest : W → Years)
    (ledger : IsLedger deps latest) where
  -- After the year-state read, with the year that was read.
  from_year-Advances :
      (f : SourceFamily) (year : Option ℕ) (w : W) (t : Years)
      → latest w ≡ t
      → year ≡ t f
      → Ensures
          (do
            state ← lift (select_year_state (postgresql_value f) year request.initial_year)
            boundary_stage request deps
                (postgresql_value f)
                state
                (deps.source_adapters (postgresql_value f))
                (deps.parser_boundaries (postgresql_value f)))
          w
          (λ r w'. Advances request.initial_year t f r (latest w'))
  from_year-Advances f year w t same is_year =
      rw (select_year_state-postgresql_value f year request.initial_year) (
        unfold ◌>>=◌ in
        boundary_stage-Done request deps latest ledger f
          (year_state_of (postgresql_value f) (value f) year request.initial_year) t refl
          (rw is_year) _ _ w refl refl same)

  -- The whole run, from the year-state key on.
  from_key-Advances :
      (f : SourceFamily) (w : W)
      → Ensures
          (do
            year ← deps.latest_ingested_year (value f)
            state ← lift (select_year_state (postgresql_value f) year request.initial_year)
            boundary_stage request deps
                (postgresql_value f)
                state
                (deps.source_adapters (postgresql_value f))
                (deps.parser_boundaries (postgresql_value f)))
          w
          (λ r w'. Advances request.initial_year (latest w) f r (latest w'))
  from_key-Advances f w =
      Ensures-bind (deps.latest_ingested_year (value f)) _ w
        (λ r w'. Advances request.initial_year (latest w) f r (latest w'))
        (λ e h. inl (ledger.read_keeps f w))
        (λ year h.
          from_year-Advances f year _ (latest w) (ledger.read_keeps f w)
            (ledger.read_value f w year h))

  pub run_source_family-Advances :
      (f : SourceFamily) (w : W)
      → Ensures
          (run_source_family request deps (postgresql_value f))
          w
          (λ r w'. Advances request.initial_year (latest w) f r (latest w'))
  unfolding run_source_family
  run_source_family-Advances f w =
      rw (subscript-postgresql_value f) (unfold ◌>>=◌ in from_key-Advances f w)
