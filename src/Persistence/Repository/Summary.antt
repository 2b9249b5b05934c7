-- ===== src/Persistence/Repository/Summary.antt =====
-- What the summary of `insert_normalized_factor_records` says of the database.
use carbon_ops_parser.Prelude.{
  ◌⊎◌, ℕ, ◌+◌, String, Bool, true, false, List, [], ◌∷◌, length, any_of, ◌≡◌, refl, ap, arith,
  Bool-cases, inl, inr,
}
use carbon_ops_parser.Exec.{Result, ok, raised, lift}
use carbon_ops_parser.Exec.Ensures.{Ensures, Ensures-bind}
use carbon_ops_parser.Issue.{Issue}
use carbon_ops_parser.Row.{OutputBatch}
use carbon_ops_parser.Year.Types.{is_success}
use carbon_ops_parser.Year.Boundary.{coerce_insert_summary}
use carbon_ops_parser.Persistence.Records.{PersistStatus, PersistResult}
use carbon_ops_parser.Persistence.Encode.{Encoding}
use carbon_ops_parser.Persistence.Statements.{ParameterEncoding}
use carbon_ops_parser.Persistence.Build.{Command, build_parsed_factor_persistence_command}
use carbon_ops_parser.Persistence.Writer.{
  WriterStatus, WriterResult, only_no_records, submitted, status_of_persist, submit_at, submit,
  persist_parsed_factor_records,
}
use carbon_ops_parser.Persistence.Repository.{
  Session, InsertStatus, FactorInsertSummary, is_database_error, factor_insert_summary, repository,
  persist_source_family_records, default_options, insert_normalized_factor_records,
  as_insert_result,
}
use carbon_ops_parser.Persistence.Repository.Database.{IsTransactional}
use carbon_ops_parser.Persistence.Repository.Transaction.{Kept, IsPersistedAs, persist-IsPersisted}

module _ {C D O : Type 0} (session : Session C) (parameters : ParameterEncoding O)
    (committed working : C → D) (factor_rows : D → ℕ)
    (transactional : IsTransactional C D session committed working factor_rows) where
  -- The committed contents are what they were, or a commit that failed has taken effect: then they
  -- hold the open transaction's factor rows and maybe more.
  abbrev pub MayHold : C → C → Type 0
  MayHold c c' =
      (committed c' ≡ committed c)
      ⊎ ((k : ℕ) × (factor_rows (committed c') ≡ factor_rows (working c) + k))

  Kept-MayHold :
      (n : ℕ) (c c' : C)
      → Kept session parameters committed working factor_rows transactional n c c'
      → MayHold c c'
  Kept-MayHold n c c' (inl same) = inl same
  Kept-MayHold n c c' (inr (k, rows, few)) = inr (k, rows)

  -- What the writer's result says of the committed contents, under each status.
  abbrev OutcomeAs : C → WriterResult O → WriterStatus → C → Type 0
  OutcomeAs c r WriterStatus.declared c' =
      (factor_rows (committed c')
        ≡ factor_rows (working c) + r.persisted_master_count + r.persisted_detail_count)
      × (factor_rows (working c') ≡ factor_rows (committed c'))
      × (r.persisted_detail_count + r.skipped_detail_count ≡ r.attempted_detail_count)
      × (r.issues ≡ [])
  OutcomeAs c r WriterStatus.failed_validation c' =
      ((committed c' ≡ committed c) ⊎ (MayHold c c' × (any_of is_database_error r.issues ≡ true)))
      × (r.persisted_master_count ≡ 0)
      × (r.persisted_detail_count ≡ 0)
  OutcomeAs c r WriterStatus.no_records c' =
      (c' ≡ c) × (r.persisted_master_count ≡ 0) × (r.persisted_detail_count ≡ 0)

  abbrev Outcome : C → Result (WriterResult O) → C → Type 0
  Outcome c (ok r) c' = OutcomeAs c r r.status c'
  Outcome c (raised e) c' = MayHold c c'

  submitted-OutcomeAs :
      (command : Command O) (r : PersistResult) (status : PersistStatus) (masters : ℕ) (c c' : C)
      → IsPersistedAs session parameters committed working factor_rows transactional masters
          (length command.detail_records)
          c
          r
          status
          c'
      → OutcomeAs c (submitted command r) (status_of_persist status) c'
  submitted-OutcomeAs command r PersistStatus.declared masters c c'
        (rows, settled, ms, ds, none_failed) =
      (rows, settled, ds, none_failed)
  submitted-OutcomeAs command r PersistStatus.failed_validation masters c c' (same, ms, ds, why) =
      (inl (ap committed same), ms, ds)
  submitted-OutcomeAs command r PersistStatus.failed_database masters c c'
        (same, ms, ds, why, undone) =
      (inr (Kept-MayHold (masters + length command.detail_records) c c' same, why), ms, ds)

  module _ (redact : String → String) where
    submit_at-Outcome :
        (command : Command O) (issues : List Issue) (c : C)
        → Ensures (submit_at (repository session parameters redact) command issues) c (Outcome c)
    unfolding submit_at
    submit_at-Outcome command [] c =
        let after =
          persist-IsPersisted session parameters committed working factor_rows transactional redact
            command.master_records command.detail_records c in
        Ensures-bind
          (persist_source_family_records session parameters redact command.master_records
            command.detail_records)
          _ c (Outcome c) (λ e h. Kept-MayHold _ c _ (rw h at after))
          (λ r h.
            submitted-OutcomeAs command r r.status (length command.master_records) c _
              (rw h at after))
    submit_at-Outcome command (issue ∷ issues) c =
        elim (Bool-cases (only_no_records command.issues)) [
          | inl only ↦ rw only (refl, refl, refl)
          | inr other ↦ rw other (inl refl, refl, refl)
        ]

    persist-Outcome :
        (encoding : Encoding O) (batch : OutputBatch O) (c : C)
        → Ensures
            (persist_parsed_factor_records
              (repository session parameters redact)
              encoding
              default_options
              batch)
            c
            (Outcome c)
    unfolding persist_parsed_factor_records submit
    persist-Outcome encoding batch c =
        Ensures-bind (lift (build_parsed_factor_persistence_command encoding default_options batch))
          _ c (Outcome c) (λ e h. inl refl)
          (λ command h. submit_at-Outcome command command.issues c)

  -- The orchestrator takes the summary for a success.
  abbrev counts_as_success : FactorInsertSummary → Bool
  counts_as_success s = is_success (coerce_insert_summary (as_insert_result s))

  -- What a summary says of the committed contents, under each status.
  abbrev pub AccountedAs : C → FactorInsertSummary → InsertStatus → C → Type 0
  AccountedAs c s InsertStatus.inserted c' =
      (factor_rows (committed c') ≡ factor_rows (working c) + s.master_inserted + s.detail_inserted)
      × (factor_rows (working c') ≡ factor_rows (committed c'))
      × (s.inserted + s.skipped_duplicate ≡ s.attempted)
      × (counts_as_success s ≡ true)
  AccountedAs c s InsertStatus.failed_validation c' =
      (committed c' ≡ committed c) × (s.inserted ≡ 0) × (counts_as_success s ≡ false)
  AccountedAs c s InsertStatus.failed_database c' =
      MayHold c c' × (s.inserted ≡ 0) × (counts_as_success s ≡ false)
  AccountedAs c s InsertStatus.no_records c' =
      (c' ≡ c) × (s.master_inserted ≡ 0) × (s.detail_inserted ≡ 0) × (counts_as_success s ≡ true)

  abbrev pub Accounted : C → Result FactorInsertSummary → C → Type 0
  Accounted c (ok s) c' = AccountedAs c s s.status c'
  Accounted c (raised e) c' = MayHold c c'

  summary-AccountedAs :
      (c c' : C) (r : WriterResult O) (status : WriterStatus)
      → r.status ≡ status
      → OutcomeAs c r status c'
      → Accounted c (ok (factor_insert_summary r)) c'
  unfolding factor_insert_summary
  summary-AccountedAs c c' r WriterStatus.declared h (rows, settled, sum, none_failed) =
      rw (h, none_failed) (rows, settled, sum, refl)
  summary-AccountedAs c c' r WriterStatus.failed_validation h (inl same, ms, ds) =
      elim (Bool-cases (any_of is_database_error r.issues)) [
        | inl database ↦ rw (h, database) (inl same, ds, ground arith)
        | inr other ↦ rw (h, other) (same, ds, ground arith)
      ]
  summary-AccountedAs c c' r WriterStatus.failed_validation h (inr (held, database), ms, ds) =
      rw (h, database) (held, ds, ground arith)
  summary-AccountedAs c c' r WriterStatus.no_records h (same, ms, ds) = rw h (same, ms, ds, refl)

pub insert-Accounted :
    {C D O : Type 0} (session : Session C) (parameters : ParameterEncoding O)
    (committed working : C → D) (factor_rows : D → ℕ)
    (transactional : IsTransactional C D session committed working factor_rows)
    (encoding : Encoding O) (redact : String → String) (batch : OutputBatch O) (c : C)
    → Ensures
        (insert_normalized_factor_records session encoding parameters redact batch)
        c
        (Accounted session parameters committed working factor_rows transactional c)
unfolding insert_normalized_factor_records
insert-Accounted session parameters committed working factor_rows transactional encoding redact
      batch c =
    let after =
      persist-Outcome session parameters committed working factor_rows transactional redact encoding
        batch c in
    Ensures-bind
      (persist_parsed_factor_records (repository session parameters redact) encoding default_options
        batch)
      _ c (Accounted session parameters committed working factor_rows transactional c)
      (λ e h. rw h at after)
      (λ r h.
        summary-AccountedAs session parameters committed working factor_rows transactional c _ r
          r.status refl (rw h at after))
