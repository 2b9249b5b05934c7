-- ===== src/History/Repository/Database.antt =====
-- What the history repository relies on in PostgreSQL: the tables that its statements write.
use carbon_ops_parser.Prelude.{
  Bool, true, false, ◌&&◌, Option, some, List, [], ◌∷◌, ◌==◌, ◌≡◌, if◌then◌else◌,
}
use carbon_ops_parser.Exec.{Exec, PyException, ok, raised}
use carbon_ops_parser.Text.Number.{same_int}
use carbon_ops_parser.History.Metadata.{Object, text, number}
use carbon_ops_parser.History.Repository.{
  HistoryStatement, run_upsert, source_result_upsert, issue_insert, HistoryConnection,
}

module _ {O : Type 0} where
  -- Equality of two values in a unique constraint, in which NULL is equal to nothing.
  abbrev same_part : Object O → Object O → Bool
  same_part (text s) (text t) = s == t
  same_part (number m) (number n) = same_int m n
  same_part _ _ = false

  abbrev pub same_conflict_key : List (Object O) → List (Object O) → Bool
  same_conflict_key [] [] = true
  same_conflict_key (a ∷ key) (b ∷ other_key) = same_part a b && same_conflict_key key other_key
  same_conflict_key _ _ = false

  -- The columns of the statement's `ON CONFLICT` clause, among its parameters: the run's id, the
  -- run's id with the family and the target year, and the issue's id.
  abbrev pub conflict_key : HistoryStatement → List (Object O) → List (Object O)
  conflict_key run_upsert (id ∷ rest) = id ∷ []
  conflict_key source_result_upsert (id ∷ run_id ∷ family ∷ year ∷ rest) =
      run_id ∷ family ∷ year ∷ []
  conflict_key issue_insert (id ∷ rest) = id ∷ []
  conflict_key _ _ = []

  -- `DO UPDATE` replaces the row that was there, and `DO NOTHING` keeps it.
  abbrev pub written :
      HistoryStatement → List (Object O) → Option (List (Object O)) → List (Object O)
  written issue_insert new (some old) = old
  written _ new row = new

-- A view of the tables: for each statement, the rows of its table, by the values of the `ON CONFLICT`
-- columns, with the columns that the statement's parameters fill. The two other columns, `created_at`
-- and `updated_at`, are the database's clock: `NOW()` at the insert, and for `updated_at` also at each
-- `DO UPDATE`. The view does not have them, so that two tables with the same view may differ there.
abbrev pub Rows : Type 0 → Type 0
Rows O = HistoryStatement → List (Object O) → Option (List (Object O))

abbrev pub same_statement : HistoryStatement → HistoryStatement → Bool
same_statement run_upsert run_upsert = true
same_statement source_result_upsert source_result_upsert = true
same_statement issue_insert issue_insert = true
same_statement _ _ = false

-- The statement has run with the parameters.
abbrev pub with_row : {O : Type 0} → Rows O → HistoryStatement → List (Object O) → Rows O
with_row rows statement new = λ table key.
    if same_statement statement table && same_conflict_key (conflict_key statement new) key
    then some (written statement new (rows table key))
    else rows table key

-- Statements change the open transaction `working` alone, and one that does not fail writes its row;
-- a commit makes the open transaction the committed contents, from which the next one starts, or
-- fails and keeps them; a rollback keeps them.
pub record IsHistoryDatabase (C O : Type 0) (connection : HistoryConnection C O)
    (committed working : C → Rows O) : Type 0 where
  pub execute_keeps :
      (s : HistoryStatement) (ps : List (Object O)) (c : C)
      → committed (connection.execute s ps c).1 ≡ committed c
  pub execute_writes :
      (s : HistoryStatement) (ps : List (Object O)) (c : C)
      → (connection.execute s ps c).0 ≡ ok tt
      → working (connection.execute s ps c).1 ≡ with_row (working c) s ps
  pub commit : Exec C (Unit {0})
  pub commit_is : connection.commit ≡ some commit
  pub commit_ok :
      (c : C)
      → (commit c).0 ≡ ok tt
      → (committed (commit c).1 ≡ working c) × (working (commit c).1 ≡ working c)
  pub commit_raised :
      (c : C) (e : PyException) → (commit c).0 ≡ raised e → committed (commit c).1 ≡ committed c
  pub rollback_keeps :
      (rollback : Exec C (Unit {0})) (c : C)
      → connection.rollback ≡ some rollback
      → committed (rollback c).1 ≡ committed c
