-- ===== src/History/Repository/Retry.antt =====
-- Persisting a history command again.
use carbon_ops_parser.Prelude.{
  String, ◌&&◌, Option, none, some, List, [], ◌∷◌, ◌≡◌, inl, inr, refl, sym, ◌∙◌, ap, fun_ext,
  Bool-cases, if◌then◌else◌, get_or,
}
use carbon_ops_parser.Exec.{Result, ok, raised}
use carbon_ops_parser.History.Metadata.{Object}
use carbon_ops_parser.History.Records.{HistoryStatus, HistoryCommand, HistoryPersistResult}
use carbon_ops_parser.History.Validate.{Dumps}
use carbon_ops_parser.History.Repository.{
  HistoryStatement, run_upsert, source_result_upsert, issue_insert, HistoryConnection,
  persist_ingestion_run_history,
}
use carbon_ops_parser.History.Repository.Database.{
  Rows, same_conflict_key, conflict_key, same_statement, written, IsHistoryDatabase,
}
use carbon_ops_parser.History.Repository.Written.{Writes, after_write, after_writes, history_writes}
use carbon_ops_parser.History.Sanitize.{sanitized_ingestion_run_history_command}
use carbon_ops_parser.History.Repository.Persisted.{persist_ingestion_run_history-IsStored}

abbrev Row : Type 0 → Type 0
Row O = Option (List (Object O))

-- What statements do to the row at one place: keep it, replace it, or fill it if it was missing.
data Change (O : Type 0) : Type 0 where
  keeps : Change O
  replaces fills : List (Object O) → Change O

module _ {O : Type 0} where
  abbrev applied : Change O → Row O → Row O
  applied keeps row = row
  applied (replaces new) row = some new
  applied (fills new) row = some (get_or row new)

  abbrev and_then : Change O → Change O → Change O
  and_then keeps d = d
  and_then c keeps = c
  and_then c (replaces new) = replaces new
  and_then (replaces old) (fills new) = replaces old
  and_then (fills old) (fills new) = fills old

  applied-and_then :
      (c d : Change O) (row : Row O) → applied (and_then c d) row ≡ applied d (applied c row)
  applied-and_then keeps d row = refl
  applied-and_then (replaces old) keeps row = refl
  applied-and_then (replaces old) (replaces new) row = refl
  applied-and_then (replaces old) (fills new) row = refl
  applied-and_then (fills old) keeps row = refl
  applied-and_then (fills old) (replaces new) row = refl
  applied-and_then (fills old) (fills new) row = refl

  applied_twice : (c : Change O) (row : Row O) → applied c (applied c row) ≡ applied c row
  applied_twice keeps row = refl
  applied_twice (replaces new) row = refl
  applied_twice (fills new) row = refl

module _ {O : Type 0} (table : HistoryStatement) (key : List (Object O)) where
  abbrev change : HistoryStatement → List (Object O) → Change O
  change run_upsert ps = replaces ps
  change source_result_upsert ps = replaces ps
  change issue_insert ps = fills ps

  abbrev change_at : HistoryStatement → Result (List (Object O)) → Change O
  change_at s (raised e) = keeps
  change_at s (ok ps) =
      if same_statement s table && same_conflict_key (conflict_key s ps) key
      then change s ps
      else keeps

  abbrev changes_at : Writes O → Change O
  changes_at [] = keeps
  changes_at ((s, ps) ∷ ws) = and_then (change_at s ps) (changes_at ws)

  written-change :
      (s : HistoryStatement) (ps : List (Object O)) (row : Row O)
      → some (written s ps row) ≡ applied (change s ps) row
  written-change run_upsert ps row = refl
  written-change source_result_upsert ps row = refl
  written-change issue_insert ps none = refl
  written-change issue_insert ps (some old) = refl

  after_write-change_at :
      (s : HistoryStatement) (ps : Result (List (Object O))) (rows : Rows O)
      → after_write s ps rows table key ≡ applied (change_at s ps) (rows table key)
  after_write-change_at s (raised e) rows = refl
  after_write-change_at s (ok ps) rows =
      elim (Bool-cases (same_statement s table && same_conflict_key (conflict_key s ps) key)) [
        | inl yes' ↦ rw yes' (written-change s ps (rows table key))
        | inr no' ↦ rw no' refl
      ]

  -- The rows after the statements, one place at a time.
  after_writes-changes_at :
      (ws : Writes O) (rows : Rows O)
      → after_writes ws rows table key ≡ applied (changes_at ws) (rows table key)
  after_writes-changes_at [] rows = refl
  after_writes-changes_at ((s, ps) ∷ ws) rows =
      after_writes-changes_at ws (after_write s ps rows)
      ∙ ap (applied (changes_at ws)) (after_write-change_at s ps rows)
      ∙ sym (applied-and_then (change_at s ps) (changes_at ws) (rows table key))

after_writes_again :
    {O : Type 0} (ws : Writes O) (rows : Rows O)
    → after_writes ws (after_writes ws rows) ≡ after_writes ws rows
after_writes_again ws rows = fun_ext λ table. fun_ext λ key.
    after_writes-changes_at table key ws (after_writes ws rows)
    ∙ ap (applied (changes_at table key ws)) (after_writes-changes_at table key ws rows)
    ∙ applied_twice (changes_at table key ws) (rows table key)
    ∙ sym (after_writes-changes_at table key ws rows)

-- Persisting a command is idempotent, apart from the columns `updated_at`, which both upserts set to
-- the time of the retry: when it is declared and then the same command is declared again from where
-- that ended, there are the same committed rows as after the first time, and every column of them but
-- `created_at` and `updated_at`, of which nothing is said, has the value it had.
pub persist_ingestion_run_history_again :
    {C O : Type 0} (connection : HistoryConnection C O) (tools : Dumps O) (uuid5 : String → String)
    (committed working : C → Rows O) (database : IsHistoryDatabase C O connection committed working)
    (command : HistoryCommand O) (c : C) (r r' : HistoryPersistResult)
    → (persist_ingestion_run_history connection tools uuid5 command c).0 ≡ ok r
    → r.status ≡ HistoryStatus.declared
    → (persist_ingestion_run_history connection tools uuid5 command
        (persist_ingestion_run_history connection tools uuid5 command c).1).0
      ≡ ok r'
    → r'.status ≡ HistoryStatus.declared
    → committed
        (persist_ingestion_run_history connection tools uuid5 command
          (persist_ingestion_run_history connection tools uuid5 command c).1).1
      ≡ committed (persist_ingestion_run_history connection tools uuid5 command c).1
persist_ingestion_run_history_again {C} {O} connection tools uuid5 committed working database
      command c r r' e d e' d' =
    let persist = persist_ingestion_run_history connection tools uuid5 command in
    let stored =
      persist_ingestion_run_history-IsStored connection tools uuid5 committed working database
        command in
    let (valid, none_left, there, next, fine, runs, results, issues) =
      rw d at (rw e at (stored c)) in
    let (valid', none_left', there', next', fine', runs', results', issues') =
      rw d' at (rw e' at (stored (persist c).1)) in
    let ws = history_writes tools uuid5 (sanitized_ingestion_run_history_command tools command) in
    there' ∙ ap (after_writes ws) (next ∙ there) ∙ after_writes_again ws (working c) ∙ sym there
