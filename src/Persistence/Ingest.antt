-- ===== src/Persistence/Ingest.antt =====
-- The orchestrator's family run over the PostgreSQL source-family repository.
use carbon_ops_parser.Prelude.{ℕ, ◌+◌, String, true, some, get_or, ◌≡◌, ◌∙◌, sym, ap, refl, arith}
use carbon_ops_parser.Exec.{Exec, Result, ok, raised, pure, ◌>>=◌}
use carbon_ops_parser.Exec.Ensures.{Ensures, Ensures-bind}
use carbon_ops_parser.Row.{OutputBatch}
use carbon_ops_parser.Year.Types.{
  FamilyStatus, InsertSummary, is_success, FamilyResult, RepositoryInsertResult, RunRequest,
}
use carbon_ops_parser.Year.Boundary.{Dependencies, coerce_insert_summary}
use carbon_ops_parser.Year.Family.{run_source_family}
use carbon_ops_parser.Year.Outcome.{KeepsReading}
use carbon_ops_parser.Year.Summary.{run_source_family-IsConsistent}
use carbon_ops_parser.Year.Insertion.{Establishes, run_source_family-IsInserted}
use carbon_ops_parser.Persistence.Encode.{Encoding}
use carbon_ops_parser.Persistence.Statements.{ParameterEncoding}
use carbon_ops_parser.Persistence.Repository.{
  Session, InsertStatus, FactorInsertSummary, insert_normalized_factor_records, as_insert_result,
}
use carbon_ops_parser.Persistence.Repository.Database.{IsTransactional}
use carbon_ops_parser.Persistence.Repository.Summary.{AccountedAs, insert-Accounted}

module _ {C O : Type 0} (session : Session C) (encoding : Encoding O)
    (parameters : ParameterEncoding O) (redact : String → String) where
  -- The repository as the orchestrator's insert boundary.
  unfoldable pub insert_records : OutputBatch O → Exec C RepositoryInsertResult
  insert_records batch = do
    summary ← insert_normalized_factor_records session encoding parameters redact batch
    pure (as_insert_result summary)

  abbrev pub with_insert : Dependencies C O → Dependencies C O
  with_insert deps = record deps { insert_normalized_factor_records = insert_records }

module _ {C D O : Type 0} (session : Session C) (encoding : Encoding O)
    (parameters : ParameterEncoding O) (redact : String → String) (committed working : C → D)
    (factor_rows : D → ℕ)
    (transactional : IsTransactional C D session committed working factor_rows) (start : D) where
  -- Nothing is written yet: the open transaction has the committed contents, those of the start.
  abbrev pub IsClean : C → Type 0
  IsClean c = (committed c ≡ start) × (working c ≡ start)

  -- What a successful insert says it inserted is committed, and no other factor row is pending.
  abbrev pub IsCommitted : RepositoryInsertResult → C → Type 0
  IsCommitted i c =
      is_success (coerce_insert_summary i) ≡ true
      → (factor_rows (committed c)
          ≡ factor_rows start + get_or i.master_inserted 0 + get_or i.detail_inserted 0)
        × (factor_rows (working c) ≡ factor_rows (committed c))

  accounted-IsCommitted :
      (s : FactorInsertSummary) (status : InsertStatus) (c c' : C)
      → IsClean c
      → AccountedAs session parameters committed working factor_rows transactional c s status c'
      → IsCommitted (as_insert_result s) c'
  accounted-IsCommitted s InsertStatus.inserted c c' (old, open_is) (rows, settled, sum, good) =
      λ success. (rw open_is at rows, settled)
  accounted-IsCommitted s InsertStatus.failed_validation c c' clean (same, none_in, bad) =
      λ success. absurd (cc)
  accounted-IsCommitted s InsertStatus.failed_database c c' clean (same, none_in, bad) =
      λ success. absurd (cc)
  accounted-IsCommitted s InsertStatus.no_records c c' (old, open_is) (same, ms, ds, good) =
      λ success. (
        rw (ms, ds) (ap (λ x. factor_rows (committed x)) same ∙ rw old (omega arith)),
        rw (same, old, open_is) refl,
      )

  -- An insert, and whether it returned.
  abbrev InsertCommitted : Result RepositoryInsertResult → C → Type 0
  InsertCommitted (ok i) c = IsCommitted i c
  InsertCommitted (raised e) c = Unit

  insert_records-InsertCommitted :
      (b : OutputBatch O) (c : C)
      → IsClean c
      → Ensures (insert_records session encoding parameters redact b) c InsertCommitted
  unfolding insert_records
  insert_records-InsertCommitted b c clean =
      let after =
        insert-Accounted session parameters committed working factor_rows transactional encoding
          redact b c in
      Ensures-bind (insert_normalized_factor_records session encoding parameters redact b) _ c
        InsertCommitted (λ e h. tt)
        (λ s h. accounted-IsCommitted s s.status c _ clean (rw h at after))

-- The recording of a year, called with no factor row pending, adds and removes none: it may commit,
-- but then it commits no factor row.
pub record KeepsFactorRows {C D : Type 0} (committed working : C → D) (factor_rows : D → ℕ)
    (record_year : String → ℕ → Exec C (Unit {0})) : Type 0 where
  pub keeps :
      (key : String) (y : ℕ) (c : C)
      → factor_rows (working c) ≡ factor_rows (committed c)
      → (factor_rows (committed (record_year key y c).1) ≡ factor_rows (committed c))
        × (factor_rows (working (record_year key y c).1) ≡ factor_rows (working c))

-- A completed family's factor rows are committed when its run has ended: the committed contents hold
-- as many more factor rows as the result's insert summary counts as inserted. The insert boundary is
-- the repository on a transactional session; the run starts with no open writes, the boundaries
-- before the insert write nothing, and the recording of a year, which may commit, adds no factor row of
-- its own.
pub run_source_family-IsCommitted :
    {C D O : Type 0} (session : Session C) (encoding : Encoding O)
    (parameters : ParameterEncoding O) (redact : String → String) (committed working : C → D)
    (factor_rows : D → ℕ)
    (transactional : IsTransactional C D session committed working factor_rows) (start : D)
    (request : RunRequest) (deps : Dependencies C O)
    (keeps : KeepsReading (with_insert session encoding parameters redact deps) (
      IsClean session encoding parameters redact committed working factor_rows transactional start))
    (family : String) (c : C) (r : FamilyResult O)
    → KeepsFactorRows committed working factor_rows deps.record_ingested_year
    → (committed c ≡ start) × (working c ≡ start)
    → (run_source_family request (with_insert session encoding parameters redact deps) family c).0
      ≡ ok r
    → r.status ≡ FamilyStatus.completed
    → (s : InsertSummary) × (r.insert_summary ≡ some s)
      × (factor_rows (
            committed
              (run_source_family request
                (with_insert session encoding parameters redact deps)
                family
                c).1)
          ≡ factor_rows start + s.master_inserted + s.detail_inserted)
run_source_family-IsCommitted session encoding parameters redact committed working factor_rows
      transactional start request deps keeps family c r records clean returned completed =
    let stored = with_insert session encoding parameters redact deps in
    let Clean =
      IsClean session encoding parameters redact committed working factor_rows transactional
        start in
    let Committed =
      IsCommitted session encoding parameters redact committed working factor_rows transactional
        start in
    let establishes : Establishes stored Clean Committed = record {
      inserts = λ b c' i h k. rw k at (
          insert_records-InsertCommitted session encoding parameters redact committed working
            factor_rows transactional start b c' h);
      record_keeps = λ i key y c' h success.
          let (rows, settled) = h success in
          let (same, same') = records.keeps key y c' settled in
          (same ∙ rows, same' ∙ settled ∙ sym same);
    } in
    let inserted = rw returned at (
      run_source_family-IsInserted request stored Clean keeps Committed establishes family c
        clean) in
    let consistent =
      (run_source_family-IsConsistent request stored Clean keeps family c r clean returned).0 in
    let (recorded, none_failed, (s, is, good), validated) = rw completed at consistent in
    let (i, from, is_committed) = inserted s is in
    (s, is, rw from (is_committed (rw from at good)).0)
