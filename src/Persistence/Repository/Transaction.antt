-- ===== src/Persistence/Repository/Transaction.antt =====
-- `persist_source_family_records` as one transaction of a database.
use carbon_ops_parser.Prelude.{
  ◌⊎◌, inl, inr, sym, any_of, true, ℕ, ◌+◌, ◌≤◌, String, Option, none, some, List, [], ◌∷◌, length,
  ◌≡◌, ◌≢◌, refl, ◌∙◌, ap, arith,
}
use carbon_ops_parser.Exec.{Exec, PyException, Result, ok, raised, pure, ◌>>=◌}
use carbon_ops_parser.Exec.Ensures.{Ensures, Ensures-bind, Ensures-try}
use carbon_ops_parser.Issue.{Issue}
use carbon_ops_parser.YearState.{commit_if}
use carbon_ops_parser.Persistence.Records.{
  PersistStatus, SourceFamilyMasterRecord, SourceFamilyDetailRecord, PersistResult,
}
use carbon_ops_parser.Persistence.Statements.{ParameterEncoding}
use carbon_ops_parser.Persistence.Repository.{
  Session, write_masters, write_details, write_records, roll_back, persist_at,
  persist_source_family_records, declared_result, is_database_error,
}
use carbon_ops_parser.Persistence.Repository.Database.{IsTransactional}
use carbon_ops_parser.Persistence.Repository.Inserts.{write_masters-Looped, write_details-Looped}

module _ {C D O : Type 0} (session : Session C) (encoding : ParameterEncoding O)
    (committed working : C → D) (factor_rows : D → ℕ)
    (transactional : IsTransactional C D session committed working factor_rows) where
  abbrev rows_of : C → ℕ
  rows_of c = factor_rows (working c)

  -- The committed contents are what they were, or a commit that failed has taken effect: then they
  -- hold the open transaction's factor rows and the rows written, at most `n`.
  abbrev pub Kept : ℕ → C → C → Type 0
  Kept n c c' =
      (committed c' ≡ committed c)
      ⊎ ((k : ℕ) × (factor_rows (committed c') ≡ rows_of c + k) × (k ≤ n))

  Kept-same : (n : ℕ) (c₀ c c' : C) → committed c' ≡ committed c → Kept n c₀ c → Kept n c₀ c'
  Kept-same n c₀ c c' same (inl kept) = inl (same ∙ kept)
  Kept-same n c₀ c c' same (inr (k, rows, few)) = inr (k, ap factor_rows same ∙ rows, few)

  -- The guarded block has run: all its rows are committed, and no other is pending.
  abbrev Written : ℕ → ℕ → C → Result (ℕ × ℕ) → C → Type 0
  Written masters details c (ok (i, j)) c' =
      (factor_rows (committed c') ≡ rows_of c + i + j)
      × (rows_of c' ≡ factor_rows (committed c'))
      × (i ≤ masters)
      × (j ≤ details)
  Written masters details c (raised e) c' = Kept (masters + details) c c'

  commit-Written :
      (masters details i j : ℕ) (c₀ c : C)
      → committed c ≡ committed c₀
      → rows_of c ≡ rows_of c₀ + i + j
      → i ≤ masters
      → j ≤ details
      → Ensures (commit_if session.commit >>= λ u. pure (i, j)) c (Written masters details c₀)
  commit-Written masters details i j c₀ c same rows low high = rw transactional.commit_is (
      Ensures-bind transactional.commit _ c (Written masters details c₀)
        (λ e h. failed (transactional.commit_raised c e h))
        (λ u h. (
          ap factor_rows (transactional.commit_ok c h) ∙ rows,
          ap factor_rows (transactional.commit_opens c h ∙ sym (transactional.commit_ok c h)),
          low,
          high,
        )))
    where
      failed :
          {c' : C}
          → (committed c' ≡ committed c) ⊎ (committed c' ≡ working c)
          → Kept (masters + details) c₀ c'
      failed (inl kept) = inl (kept ∙ same)
      failed (inr there) =
          let e : rows_of c₀ + i + j ≡ rows_of c₀ + (i + j) = omega arith in
          inr (i + j, ap factor_rows there ∙ rows ∙ e, omega arith)

  write_records-Written :
      (ms : List (SourceFamilyMasterRecord O)) (ds : List (SourceFamilyDetailRecord O)) (c : C)
      → Ensures (write_records session encoding ms ds) c (Written (length ms) (length ds) c)
  unfolding write_records
  write_records-Written ms ds c =
      let Q : Result (ℕ × ℕ) → C → Type 0 = Written (length ms) (length ds) c in
      let first_loop =
        write_masters-Looped session encoding committed working factor_rows transactional 0 ms c in
      Ensures-bind (write_masters session encoding 0 ms) _ c Q (λ e h. inl (rw h at first_loop))
        (λ i h.
          let (same, rows, low, high) = rw h at first_loop in
          let c' = (write_masters session encoding 0 ms c).1 in
          let second_loop =
            write_details-Looped session encoding committed working factor_rows transactional 0 ds
              c' in
          Ensures-bind (write_details session encoding 0 ds) _ c' Q
            (λ e h'. inl ((rw h' at second_loop) ∙ same))
            (λ j h'.
              let (same', rows', low', high') = rw h' at second_loop in
              commit-Written (length ms) (length ds) i j c _ (same' ∙ same) (omega arith)
                (omega arith) (omega arith)))

  -- If there is a rollback, nothing is pending.
  abbrev pub Undone : Option (Exec C (Unit {0})) → C → Type 0
  Undone none c = Unit
  Undone (some rollback) c = rows_of c ≡ factor_rows (committed c)

  Undone-of :
      (rollback : Option (Exec C (Unit {0})))
      → session.rollback ≡ rollback
      → (c : C) → Undone rollback c
      → Undone session.rollback c
  Undone-of rollback is c undone = rw is undone

  -- What a result says of the committed contents, under each status.
  abbrev pub IsPersistedAs : ℕ → ℕ → C → PersistResult → PersistStatus → C → Type 0
  IsPersistedAs masters details c r PersistStatus.declared c' =
      (factor_rows (committed c') ≡ rows_of c + r.persisted_master_count + r.persisted_detail_count)
      × (rows_of c' ≡ factor_rows (committed c'))
      × (r.persisted_master_count + r.skipped_master_count ≡ masters)
      × (r.persisted_detail_count + r.skipped_detail_count ≡ details)
      × (r.issues ≡ [])
  IsPersistedAs masters details c r PersistStatus.failed_validation c' =
      (c' ≡ c) × (r.persisted_master_count ≡ 0) × (r.persisted_detail_count ≡ 0) × (r.issues ≢ [])
  IsPersistedAs masters details c r PersistStatus.failed_database c' =
      Kept (masters + details) c c'
      × (r.persisted_master_count ≡ 0)
      × (r.persisted_detail_count ≡ 0)
      × (any_of is_database_error r.issues ≡ true)
      × Undone session.rollback c'

  abbrev pub IsPersisted : ℕ → ℕ → C → Result PersistResult → C → Type 0
  IsPersisted masters details c (ok r) c' = IsPersistedAs masters details c r r.status c'
  IsPersisted masters details c (raised e) c' = Kept (masters + details) c c'

  module _ (redact : String → String) where
    roll_back_by :
        (masters details : ℕ) (e : PyException) (c₀ c : C) (rollback : Option (Exec C (Unit {0})))
        → session.rollback ≡ rollback
        → Kept (masters + details) c₀ c
        → Ensures (roll_back session encoding redact e) c (IsPersisted masters details c₀)
    unfolding roll_back ◌>>=◌
    roll_back_by masters details e c₀ c none is kept =
        rw is (kept, refl, refl, refl, Undone-of none is c tt)
    roll_back_by masters details e c₀ c (some rollback) is kept =
        let still =
          Kept-same (masters + details) c₀ c _ (transactional.rollback_keeps rollback c is) kept in
        let undone : (rollback c).0 ≡ ok tt
            → rows_of (rollback c).1 ≡ factor_rows (committed (rollback c).1) =
          λ h. ap factor_rows (
            transactional.rollback_undoes rollback c is h
            ∙ sym (transactional.rollback_keeps rollback c is)) in
        rw is (
          Ensures-bind rollback _ c (IsPersisted masters details c₀) (λ e' h. still)
            (λ u h. (still, refl, refl, refl, Undone-of (some rollback) is _ (undone h))))

    persist_at-IsPersisted :
        (issues : List Issue) (ms : List (SourceFamilyMasterRecord O))
        (ds : List (SourceFamilyDetailRecord O)) (c : C)
        → Ensures
            (persist_at session encoding redact issues ms ds)
            c
            (IsPersisted (length ms) (length ds) c)
    unfolding persist_at
    persist_at-IsPersisted (issue ∷ issues) ms ds c = (refl, refl, refl, cc)
    persist_at-IsPersisted [] ms ds c =
        let block = write_records-Written ms ds c in
        Ensures-try (write_records session encoding ms ds) _ _ c
          (IsPersisted (length ms) (length ds) c)
          (λ e h. roll_back_by (length ms) (length ds) e c _ session.rollback refl (rw h at block))
          (λ counts h. written counts (rw h at block))
      where
        written :
            (counts : ℕ × ℕ)
            → Written
                (length ms)
                (length ds)
                c
                (ok counts)
                (write_records session encoding ms ds c).1
            → IsPersistedAs
                (length ms)
                (length ds)
                c
                (declared_result (length ms) (length ds) counts.0 counts.1)
                PersistStatus.declared
                (write_records session encoding ms ds c).1
        written (i, j) (rows, settled, low, high) = (rows, settled, omega arith, omega arith, refl)

pub persist-IsPersisted :
    {C D O : Type 0} (session : Session C) (encoding : ParameterEncoding O)
    (committed working : C → D) (factor_rows : D → ℕ)
    (transactional : IsTransactional C D session committed working factor_rows)
    (redact : String → String) (ms : List (SourceFamilyMasterRecord O))
    (ds : List (SourceFamilyDetailRecord O)) (c : C)
    → Ensures (persist_source_family_records session encoding redact ms ds) c (
        IsPersisted session encoding committed working factor_rows transactional
          (length ms)
          (length ds)
          c)
unfolding persist_source_family_records
persist-IsPersisted session encoding committed working factor_rows transactional redact ms ds c =
    persist_at-IsPersisted session encoding committed working factor_rows transactional redact _ ms
      ds c
