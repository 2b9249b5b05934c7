-- ===== src/Persistence/Repository/Database.antt =====
-- What the repository relies on in PostgreSQL, as laws of a session.
use carbon_ops_parser.Prelude.{ℕ, ◌+◌, Bool, true, false, some, ◌≡◌, ◌⊎◌, if◌then◌else◌}
use carbon_ops_parser.Exec.{Exec, PyException, ok, raised}
use carbon_ops_parser.Persistence.Statements.{
  Statement, insert_ingestion_run, insert_source_document, insert_master, insert_detail,
}
use carbon_ops_parser.Persistence.Repository.{Session}

-- Whether the statement inserts a factor row, a master or a detail one.
abbrev pub is_factor_insert : Statement → Bool
is_factor_insert (insert_ingestion_run parameters) = false
is_factor_insert (insert_source_document parameters) = false
is_factor_insert (insert_master family parameters) = true
is_factor_insert (insert_detail family parameters) = true

-- What the repository relies on in the database: the committed contents `committed` and those of the
-- open transaction `working`, with the number of master and detail rows in them. A statement changes
-- the open transaction alone; the inserts of runs and documents add no factor row; an insert of a
-- factor row adds one if it returns a row, and none if it does not. A commit makes the open
-- transaction the committed contents, and the next transaction starts with them; one that fails may
-- have taken effect or not. A rollback leaves the committed contents, and the next transaction starts
-- with them.
pub record IsTransactional (C D : Type 0) (session : Session C) (committed working : C → D)
    (factor_rows : D → ℕ) : Type 0 where
  pub execute_keeps : (s : Statement) (c : C) → committed (session.execute s c).1 ≡ committed c
  pub execute_rows :
      (s : Statement) (c : C)
      → is_factor_insert s ≡ false
      → (session.execute s c).0 ≡ ok tt
      → factor_rows (working (session.execute s c).1) ≡ factor_rows (working c)
  pub fetch_keeps :
      (s : Statement) (c : C) → committed (session.execute_fetchone s c).1 ≡ committed c
  pub fetch_rows :
      (s : Statement) (c : C) (row : Bool)
      → is_factor_insert s ≡ true
      → (session.execute_fetchone s c).0 ≡ ok row
      → factor_rows (working (session.execute_fetchone s c).1)
        ≡ (if row then 1 else 0) + factor_rows (working c)
  pub commit : Exec C (Unit {0})
  pub commit_is : session.commit ≡ some commit
  pub commit_ok : (c : C) → (commit c).0 ≡ ok tt → committed (commit c).1 ≡ working c
  pub commit_opens : (c : C) → (commit c).0 ≡ ok tt → working (commit c).1 ≡ working c
  pub commit_raised :
      (c : C) (e : PyException)
      → (commit c).0 ≡ raised e
      → (committed (commit c).1 ≡ committed c) ⊎ (committed (commit c).1 ≡ working c)
  pub rollback_keeps :
      (rollback : Exec C (Unit {0})) (c : C)
      → session.rollback ≡ some rollback
      → committed (rollback c).1 ≡ committed c
  pub rollback_undoes :
      (rollback : Exec C (Unit {0})) (c : C)
      → session.rollback ≡ some rollback
      → (rollback c).0 ≡ ok tt
      → working (rollback c).1 ≡ committed c
