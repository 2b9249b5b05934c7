-- ===== src/Persistence/Repository/Inserts.antt =====
-- The inserts of `persist_source_family_records`, in the transaction that they stand in.
use carbon_ops_parser.Prelude.{
  true, ℕ, suc, ◌+◌, ◌≤◌, Bool, List, [], ◌∷◌, length, ◌≡◌, refl, ◌∙◌, arith, if◌then◌else◌,
}
use carbon_ops_parser.Exec.{Result, ok, raised}
use carbon_ops_parser.Exec.Ensures.{Ensures, Ensures-bind}
use carbon_ops_parser.Persistence.Records.{SourceFamilyMasterRecord, SourceFamilyDetailRecord}
use carbon_ops_parser.Persistence.Statements.{
  ParameterEncoding, Statement, ensure_ingestion_run, ensure_source_document,
}
use carbon_ops_parser.Persistence.Repository.{
  Session, write_master, write_masters, write_detail, write_details,
}
use carbon_ops_parser.Persistence.Repository.Database.{is_factor_insert, IsTransactional}

module _ {C D O : Type 0} (session : Session C) (encoding : ParameterEncoding O)
    (committed working : C → D) (factor_rows : D → ℕ)
    (transactional : IsTransactional C D session committed working factor_rows) where
  -- One insert has run, from `c`.
  abbrev RowWritten : C → Result Bool → C → Type 0
  RowWritten c (ok row) c' =
      (committed c' ≡ committed c)
      × (factor_rows (working c') ≡ (if row then 1 else 0) + factor_rows (working c))
  RowWritten c (raised e) c' = committed c' ≡ committed c

  -- A loop over `left` records, which began at `n`, has run, from `c`.
  abbrev pub Looped : ℕ → ℕ → C → Result ℕ → C → Type 0
  Looped n left c (ok k) c' =
      (committed c' ≡ committed c)
      × (factor_rows (working c') + n ≡ factor_rows (working c) + k)
      × (n ≤ k)
      × (k ≤ n + left)
  Looped n left c (raised e) c' = committed c' ≡ committed c

  insert-RowWritten :
      (s : Statement) (c₀ c : C)
      → is_factor_insert s ≡ true
      → committed c ≡ committed c₀
      → factor_rows (working c) ≡ factor_rows (working c₀)
      → Ensures (session.execute_fetchone s) c (RowWritten c₀)
  insert-RowWritten s c₀ c factor same rows = go (session.execute_fetchone s c).0 refl
    where
      go :
          (r : Result Bool)
          → (session.execute_fetchone s c).0 ≡ r
          → RowWritten c₀ r (session.execute_fetchone s c).1
      go (ok row) h = (
        transactional.fetch_keeps s c ∙ same,
        omega (arith, transactional.fetch_rows s c row factor h),
      )
      go (raised e) h = transactional.fetch_keeps s c ∙ same

  write_detail-RowWritten :
      (d : SourceFamilyDetailRecord O) (c : C)
      → Ensures (write_detail session encoding d) c (RowWritten c)
  unfolding write_detail
  write_detail-RowWritten d c =
      Ensures-bind _ _ c (RowWritten c) (λ e h. refl)
        (λ parameters h. insert-RowWritten _ c c refl refl refl)

  write_master-RowWritten :
      (m : SourceFamilyMasterRecord O) (c : C)
      → Ensures (write_master session encoding m) c (RowWritten c)
  unfolding write_master ensure_ingestion_run ensure_source_document
  write_master-RowWritten m c =
      Ensures-bind (session.execute _) _ c (RowWritten c) (λ e h. transactional.execute_keeps _ c)
        (λ u h.
          Ensures-bind (session.execute _) _ _ (RowWritten c)
            (λ e h'. transactional.execute_keeps _ _ ∙ transactional.execute_keeps _ c)
            (λ u' h'.
              Ensures-bind _ _ _ (RowWritten c)
                (λ e h''. transactional.execute_keeps _ _ ∙ transactional.execute_keeps _ c)
                (λ parameters h''.
                  insert-RowWritten _ c _ refl
                    (transactional.execute_keeps _ _ ∙ transactional.execute_keeps _ c)
                    (transactional.execute_rows _ _ refl h'
                      ∙ transactional.execute_rows _ c refl h))))

  Looped-cons :
      (n left : ℕ) (row : Bool) (c c' : C) (r : Result ℕ) (c'' : C)
      → RowWritten c (ok row) c'
      → Looped (if row then n + 1 else n) left c' r c''
      → Looped n (suc left) c r c''
  Looped-cons n left row c c' (ok k) c'' (same, rows) (same', rows', low, high) =
      (same' ∙ same, ground arith, ground arith, ground arith)
  Looped-cons n left row c c' (raised e) c'' (same, rows) same' = same' ∙ same

  pub write_details-Looped :
      (n : ℕ) (ds : List (SourceFamilyDetailRecord O)) (c : C)
      → Ensures (write_details session encoding n ds) c (Looped n (length ds) c)
  unfolding write_details
  write_details-Looped n [] c = (refl, omega arith, omega arith, omega arith)
  write_details-Looped n (d ∷ ds) c =
      let step = write_detail-RowWritten d c in
      Ensures-bind (write_detail session encoding d) _ c (Looped n (length (d ∷ ds)) c)
        (λ e h. rw h at step)
        (λ row h.
          Looped-cons n (length ds) row c _ _ _ (rw h at step)
            (write_details-Looped (if row then n + 1 else n) ds _))

  pub write_masters-Looped :
      (n : ℕ) (ms : List (SourceFamilyMasterRecord O)) (c : C)
      → Ensures (write_masters session encoding n ms) c (Looped n (length ms) c)
  unfolding write_masters
  write_masters-Looped n [] c = (refl, omega arith, omega arith, omega arith)
  write_masters-Looped n (m ∷ ms) c =
      let step = write_master-RowWritten m c in
      Ensures-bind (write_master session encoding m) _ c (Looped n (length (m ∷ ms)) c)
        (λ e h. rw h at step)
        (λ row h.
          Looped-cons n (length ms) row c _ _ _ (rw h at step)
            (write_masters-Looped (if row then n + 1 else n) ms _))
