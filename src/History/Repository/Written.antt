-- ===== src/History/Repository/Written.antt =====
-- The rows that the statements of a history command write, in one transaction.
use mathlib.Core.List.{append-nil}
use carbon_ops_parser.Prelude.{
  String, List, [], ◌∷◌, ◌++◌, map, All, All-append, ◌≡◌, refl, sym, ◌∙◌, ap,
}
use carbon_ops_parser.Exec.{Result, ok, raised, Exec, ◌>>=◌, ◌>>◌}
use carbon_ops_parser.Exec.Ensures.{Ensures, Ensures-bind}
use carbon_ops_parser.YearState.{commit_if}
use carbon_ops_parser.History.Metadata.{Object}
use carbon_ops_parser.History.Records.{SourceResultRecord, IssueRecord, HistoryCommand}
use carbon_ops_parser.History.Validate.{Dumps}
use carbon_ops_parser.History.Parameters.{
  run_parameters, source_result_parameters, issue_parameters,
}
use carbon_ops_parser.History.Repository.{
  HistoryStatement, run_upsert, source_result_upsert, issue_insert, HistoryConnection, execute_with,
  write_source_results, write_issues, write_history,
}
use carbon_ops_parser.History.Repository.Database.{Rows, with_row, IsHistoryDatabase}

-- Statements with their parameters, in their order.
abbrev pub Writes : Type 0 → Type 0
Writes O = List (HistoryStatement × Result (List (Object O)))

module _ {O : Type 0} where
  abbrev pub IsOk : Result (List (Object O)) → Type 0
  IsOk (ok ps) = Unit
  IsOk (raised e) = ⊥

  -- All parameters could be put together.
  abbrev pub AreOk : Writes O → Type 0
  AreOk ws = All (λ w. IsOk w.1) ws

  abbrev pub after_write : HistoryStatement → Result (List (Object O)) → Rows O → Rows O
  after_write s (ok ps) rows = with_row rows s ps
  after_write s (raised e) rows = rows

  -- The rows after the statements.
  abbrev pub after_writes : Writes O → Rows O → Rows O
  after_writes [] rows = rows
  after_writes ((s, ps) ∷ ws) rows = after_writes ws (after_write s ps rows)

  after_writes-append :
      (ws vs : Writes O) (rows : Rows O)
      → after_writes (ws ++ vs) rows ≡ after_writes vs (after_writes ws rows)
  after_writes-append [] vs rows = refl
  after_writes-append ((s, ps) ∷ ws) vs rows = after_writes-append ws vs (after_write s ps rows)

-- The statements of a command: one for the run, one for each source result and one for each issue.
module _ {O : Type 0} (tools : Dumps O) (uuid5 : String → String) where
  abbrev pub result_write : SourceResultRecord O → HistoryStatement × Result (List (Object O))
  result_write r = (source_result_upsert, source_result_parameters tools uuid5 r)

  abbrev pub issue_write : IssueRecord O → HistoryStatement × Result (List (Object O))
  issue_write i = (issue_insert, issue_parameters tools uuid5 i)

  abbrev pub history_writes : HistoryCommand O → Writes O
  history_writes command =
      (run_upsert, run_parameters tools command.run)
      ∷ (map result_write command.source_results ++ map issue_write command.issues)

module _ {C O : Type 0} (connection : HistoryConnection C O) (tools : Dumps O)
    (uuid5 : String → String) (committed working : C → Rows O)
    (database : IsHistoryDatabase C O connection committed working) where
  -- From `c`, the statements ran in the open transaction, or one of them failed.
  abbrev Wrote : Writes O → C → Result (Unit {0}) → C → Type 0
  Wrote ws c (ok u) c' =
      (committed c' ≡ committed c) × (working c' ≡ after_writes ws (working c)) × AreOk ws
  Wrote ws c (raised e) c' = committed c' ≡ committed c

  execute_with-Wrote :
      (s : HistoryStatement) (ps : Result (List (Object O))) (c : C)
      → Ensures (execute_with connection s ps) c (Wrote ((s, ps) ∷ []) c)
  unfolding execute_with ◌>>=◌
  execute_with-Wrote s (raised e) c = refl
  execute_with-Wrote s (ok ps) c = go (connection.execute s ps c).0 refl
    where
      go :
          (r : Result (Unit {0}))
          → (connection.execute s ps c).0 ≡ r
          → Wrote ((s, ok ps) ∷ []) c r (connection.execute s ps c).1
      go (ok u) h = (database.execute_keeps s ps c, database.execute_writes s ps c h, (tt, tt))
      go (raised e) h = database.execute_keeps s ps c

  -- Statements, and then others.
  Wrote-then :
      (ws vs : Writes O) (m n : Exec C (Unit {0})) (c : C)
      → Ensures m c (Wrote ws c)
      → ((c' : C) → Ensures n c' (Wrote vs c'))
      → Ensures (m >> n) c (Wrote (ws ++ vs) c)
  Wrote-then ws vs m n c first rest =
      Ensures-bind m _ c (Wrote (ws ++ vs) c) (λ e h. rw h at first)
        (λ u h. append-Wrote ws vs c _ _ _ (rw h at first) (rest (m c).1))
    where
      append-Wrote :
          (ws vs : Writes O) (c c' c'' : C) (r : Result (Unit {0}))
          → Wrote ws c (ok tt) c'
          → Wrote vs c' r c''
          → Wrote (ws ++ vs) c r c''
      append-Wrote ws vs c c' c'' (raised e) (kept, wrote, fine) kept' = kept' ∙ kept
      append-Wrote ws vs c c' c'' (ok u) (kept, wrote, fine) (kept', wrote', fine') = (
        kept' ∙ kept,
        wrote' ∙ ap (after_writes vs) wrote ∙ sym (after_writes-append ws vs (working c)),
        All-append _ ws vs fine fine',
      )

  write_source_results-Wrote :
      (rs : List (SourceResultRecord O)) (c : C)
      → Ensures
          (write_source_results connection tools uuid5 rs)
          c
          (Wrote (map (result_write tools uuid5) rs) c)
  unfolding write_source_results
  write_source_results-Wrote [] c = (refl, refl, tt)
  write_source_results-Wrote (r ∷ rs) c =
      Wrote-then (result_write tools uuid5 r ∷ []) (map (result_write tools uuid5) rs) _ _ c
        (execute_with-Wrote source_result_upsert _ c) (write_source_results-Wrote rs)

  write_issues-Wrote :
      (is : List (IssueRecord O)) (c : C)
      → Ensures
          (write_issues connection tools uuid5 is)
          c
          (Wrote (map (issue_write tools uuid5) is) c)
  unfolding write_issues
  write_issues-Wrote [] c = (refl, refl, tt)
  write_issues-Wrote (i ∷ is) c =
      Wrote-then (issue_write tools uuid5 i ∷ []) (map (issue_write tools uuid5) is) _ _ c
        (execute_with-Wrote issue_insert _ c) (write_issues-Wrote is)

  -- From `c`, the statements ran and were committed, or something failed and nothing was.
  abbrev pub Committed : Writes O → C → Result (Unit {0}) → C → Type 0
  Committed ws c (ok u) c' =
      (committed c' ≡ after_writes ws (working c)) × (working c' ≡ committed c') × AreOk ws
  Committed ws c (raised e) c' = committed c' ≡ committed c

  Committed-then :
      (ws vs : Writes O) (m n : Exec C (Unit {0})) (c : C)
      → Ensures m c (Wrote ws c)
      → ((c' : C) → Ensures n c' (Committed vs c'))
      → Ensures (m >> n) c (Committed (ws ++ vs) c)
  Committed-then ws vs m n c first rest =
      Ensures-bind m _ c (Committed (ws ++ vs) c) (λ e h. rw h at first)
        (λ u h. append-Committed c _ _ _ (rw h at first) (rest (m c).1))
    where
      append-Committed :
          (c c' c'' : C) (r : Result (Unit {0}))
          → Wrote ws c (ok tt) c'
          → Committed vs c' r c''
          → Committed (ws ++ vs) c r c''
      append-Committed c c' c'' (raised e) (kept, wrote, fine) kept' = kept' ∙ kept
      append-Committed c c' c'' (ok u) (kept, wrote, fine) (there, next, fine') = (
        there ∙ ap (after_writes vs) wrote ∙ sym (after_writes-append ws vs (working c)),
        next,
        All-append _ ws vs fine fine',
      )

  commit-Committed : (c : C) → Ensures (commit_if connection.commit) c (Committed [] c)
  commit-Committed c = rw database.commit_is (go (database.commit c).0 refl)
    where
      go :
          (r : Result (Unit {0}))
          → (database.commit c).0 ≡ r
          → Committed [] c r (database.commit c).1
      go (ok u) h = let (there, next) = database.commit_ok c h in (there, next ∙ sym there, tt)
      go (raised e) h = database.commit_raised c e h

  -- The statements of a command, up to the commit.
  pub write_history-Committed :
      (command : HistoryCommand O) (c : C)
      → Ensures
          (write_history connection tools uuid5 command)
          c
          (Committed (history_writes tools uuid5 command) c)
  unfolding write_history
  write_history-Committed command c =
      let results = map (result_write tools uuid5) command.source_results in
      let issues = map (issue_write tools uuid5) command.issues in
      Committed-then ((run_upsert, run_parameters tools command.run) ∷ []) (results ++ issues) _ _ c
        (execute_with-Wrote run_upsert _ c)
        (λ c'.
          Committed-then results issues _ _ c'
            (write_source_results-Wrote command.source_results c')
            (λ c''. rw (← append-nil issues) (
              Committed-then issues [] _ _ c'' (write_issues-Wrote command.issues c'')
                commit-Committed)))
