-- ===== src/Persistence/Build/Records.antt =====
-- What the records of a command have in common, whatever the rows.
use carbon_ops_parser.Prelude.{
  ℕ, suc, ◌+◌, ◌≤◌, true, List, [], ◌∷◌, map, ◌≡◌, refl, ◌∙◌, ap, arith, length, length-append,
  length-map, All, All-append, All-map, DistinctBy, DistinctBy-append, any_of-append,
  any_of-find_by, find_by, Bool-cases, Option-cases, inl, inr,
}
use carbon_ops_parser.Exec.{Result, ok, raised}
use carbon_ops_parser.Exec.Checked.{Yields, ◌>>=◌, Checked-bind}
use carbon_ops_parser.Issue.{Issue}
use carbon_ops_parser.Row.{OutputRow, OutputBatch}
use carbon_ops_parser.Row.Contract.{validate_parser_normalized_output_batch}
use carbon_ops_parser.Persistence.Records.{SourceFamilyMasterRecord, SourceFamilyDetailRecord}
use carbon_ops_parser.Persistence.Validate.{is_declared, MasterKey, master_key, detail_master_key}
use carbon_ops_parser.Persistence.Encode.{Encoding}
use carbon_ops_parser.Persistence.Map.{
  PersistenceRow, MappedRow, mapped, unmapped, row_from_normalized_row,
}
use carbon_ops_parser.Persistence.MapRow.{Options}
use carbon_ops_parser.Persistence.Build.{
  Command, same_master, same_detail, same_master_key, same_detail_key, place_master, place_detail,
  place_row, place_rows, empty_command, with_repository_issues, build_rows,
  build_parsed_factor_persistence_command,
}
use carbon_ops_parser.Persistence.Build.Matched.{same_key_self, IsMatched, map_row-IsMatched}

-- The records of `placed` rows: no two master records have one key, nor two detail records, every
-- detail record refers to a master record of the command, and a row gave a new detail record, a
-- duplicate of one, or an issue.
pub record IsBuilt (O : Type 0) (placed : ℕ) (c : Command O) : Type 0 where
  pub masters : DistinctBy same_master_key c.master_records
  pub details : DistinctBy same_detail_key c.detail_records
  pub declared :
      All (λ d. is_declared (detail_master_key d) c.master_records ≡ true) c.detail_records
  pub at_most : length c.detail_records + c.skipped_duplicate_count ≤ placed
  pub at_least : placed ≤ length c.detail_records + c.skipped_duplicate_count + length c.issues

module _ {O : Type 0} (encoding : Encoding O) where
  -- After the round's first part, the row's master key is declared, and so is what was before.
  record IsMasterPlaced (m : SourceFamilyMasterRecord O) (c c' : Command O) : Type 0 where
    masters : DistinctBy same_master_key c'.master_records
    keeps :
        (k : MasterKey)
        → is_declared k c.master_records ≡ true
        → is_declared k c'.master_records ≡ true
    has : is_declared (master_key m) c'.master_records ≡ true
    same_details : c'.detail_records ≡ c.detail_records
    same_skipped : c'.skipped_duplicate_count ≡ c.skipped_duplicate_count
    issues : length c.issues ≤ length c'.issues

  place_master-IsMasterPlaced :
      (position : ℕ) (m : SourceFamilyMasterRecord O) (c : Command O)
      → DistinctBy same_master_key c.master_records
      → IsMasterPlaced m c (place_master encoding position m c)
  unfolding place_master
  place_master-IsMasterPlaced position m c h =
      elim (Option-cases (find_by (same_master_key m) c.master_records)) [
        | inl new ↦ rw new (record {
          masters =
              DistinctBy-append same_master_key c.master_records m
                (any_of-find_by (same_master_key m) c.master_records ∙ rw new refl) h;
          keeps = λ k e. any_of-append _ c.master_records (m ∷ []) ∙ rw e refl;
          has =
              any_of-append _ c.master_records (m ∷ [])
              ∙ ground (arith, same_key_self (master_key m));
          same_details = refl;
          same_skipped = refl;
          issues = omega arith;
        })
        | inr (existing, old) ↦ rw old (elim (Bool-cases (same_master encoding existing m)) [
          | inl equal ↦ rw equal (record {
            masters = h;
            keeps = λ k e. e;
            has = any_of-find_by (same_master_key m) c.master_records ∙ rw old refl;
            same_details = refl;
            same_skipped = refl;
            issues = omega arith;
          })
          | inr differs ↦ rw differs (record {
            masters = h;
            keeps = λ k e. e;
            has = any_of-find_by (same_master_key m) c.master_records ∙ rw old refl;
            same_details = refl;
            same_skipped = refl;
            issues = omega (arith, length-append {0} c.issues);
          })
        ])
      ]

  master-IsBuilt :
      (n : ℕ) (m : SourceFamilyMasterRecord O) (c c' : Command O)
      → IsBuilt O n c
      → IsMasterPlaced m c c'
      → IsBuilt O n c'
  master-IsBuilt n m c c' b p = record {
    masters = p.masters;
    details = rw p.same_details b.details;
    declared = rw p.same_details (
        All-map (λ d. is_declared (detail_master_key d) c.master_records ≡ true)
          (λ d. is_declared (detail_master_key d) c'.master_records ≡ true)
          (λ d e. p.keeps (detail_master_key d) e) c.detail_records b.declared);
    at_most = rw (p.same_details, p.same_skipped) b.at_most;
    at_least = rw (p.same_details, p.same_skipped) (omega (arith, b.at_least, p.issues));
  }

  place_detail-IsBuilt :
      (n position : ℕ) (d : SourceFamilyDetailRecord O) (c : Command O)
      → is_declared (detail_master_key d) c.master_records ≡ true
      → IsBuilt O n c
      → IsBuilt O (suc n) (place_detail encoding position d c)
  unfolding place_detail
  place_detail-IsBuilt n position d c has b =
      elim (Option-cases (find_by (same_detail_key d) c.detail_records)) [
        | inl new ↦ rw new (record {
          masters = b.masters;
          details =
              DistinctBy-append same_detail_key c.detail_records d
                (any_of-find_by (same_detail_key d) c.detail_records ∙ rw new refl) b.details;
          declared = All-append _ c.detail_records (d ∷ []) b.declared (has, tt);
          at_most = omega (arith, b.at_most, length-append {0} c.detail_records (d ∷ []));
          at_least = omega (arith, b.at_least, length-append {0} c.detail_records (d ∷ []));
        })
        | inr (existing, old) ↦ rw old (elim (Bool-cases (same_detail encoding existing d)) [
          | inl equal ↦ rw equal (record {
            masters = b.masters;
            details = b.details;
            declared = b.declared;
            at_most = omega (arith, b.at_most);
            at_least = omega (arith, b.at_least);
          })
          | inr differs ↦ rw differs (record {
            masters = b.masters;
            details = b.details;
            declared = b.declared;
            at_most = omega (arith, b.at_most);
            at_least = omega (arith, b.at_least, length-append {0} c.issues);
          })
        ])
      ]

  place_row-IsBuilt :
      (n position : ℕ) (r : MappedRow O) (c : Command O)
      → IsMatched (ok r)
      → IsBuilt O n c
      → IsBuilt O (suc n) (place_row encoding position r c)
  unfolding place_row
  place_row-IsBuilt n position (unmapped []) c h b = absurd (h refl)
  place_row-IsBuilt n position (unmapped (issue ∷ issues)) c h b = record {
    masters = b.masters;
    details = b.details;
    declared = b.declared;
    at_most = omega (arith, b.at_most);
    at_least = omega (arith, b.at_least, length-append {0} c.issues (issue ∷ issues));
  }
  place_row-IsBuilt n position (mapped m d) c h b =
      let placed = place_master-IsMasterPlaced position m c b.masters in
      place_detail-IsBuilt n position d (place_master encoding position m c)
        (ap (λ k. is_declared k (place_master encoding position m c).master_records) h ∙ placed.has)
        (master-IsBuilt n m c _ b placed)

  -- A command that was built from `n` rows, unless the build raised.
  abbrev pub BuiltFrom : ℕ → Result (Command O) → Type 0
  BuiltFrom n (ok c) = IsBuilt O n c
  BuiltFrom n (raised e) = Unit

  place_rows-BuiltFrom :
      (options : Options) (n position : ℕ) (rows : List (PersistenceRow O)) (c : Command O)
      → IsBuilt O n c
      → Yields (place_rows encoding options position rows c) (BuiltFrom (n + length rows))
  unfolding place_rows
  place_rows-BuiltFrom options n position [] c b = let e : n + 0 ≡ n = omega arith in rw e b
  place_rows-BuiltFrom options n position (row ∷ rows) c b =
      let matched = map_row-IsMatched encoding options row position in
      let e : n + length (row ∷ rows) ≡ suc n + length rows = omega arith in
      rw e (
        Checked-bind _ _ (BuiltFrom (suc n + length rows)) (λ e'. tt)
          (λ r h.
            place_rows-BuiltFrom options (suc n) (position + 1) rows
              (place_row encoding position r c)
              (place_row-IsBuilt n position r c (rw h at matched) b)))

  empty-IsBuilt : (issues : List Issue) → IsBuilt O 0 (empty_command issues)
  empty-IsBuilt issues = record {
    masters = tt;
    details = tt;
    declared = tt;
    at_most = omega arith;
    at_least = omega arith;
  }

  with_repository_issues-IsBuilt :
      (n : ℕ) (c : Command O) → IsBuilt O n c → IsBuilt O n (with_repository_issues c)
  unfolding with_repository_issues
  with_repository_issues-IsBuilt n c b = record {
    masters = b.masters;
    details = b.details;
    declared = b.declared;
    at_most = b.at_most;
    at_least = omega (arith, b.at_least, length-append {0} c.issues);
  }

  some_rows-BuiltFrom :
      (options : Options) (rows : List (OutputRow O)) (issues : List Issue)
      → Yields
          (place_rows encoding options 1
              (map (row_from_normalized_row encoding) rows)
              (empty_command issues)
            >>= λ c. ok (with_repository_issues c))
          (BuiltFrom (length rows))
  some_rows-BuiltFrom options rows issues =
      let loop =
        place_rows-BuiltFrom options 0 1 (map (row_from_normalized_row encoding) rows)
          (empty_command issues) (empty-IsBuilt issues) in
      Checked-bind _ _ (BuiltFrom (length rows)) (λ e. tt)
        (λ c h.
          let e : length rows ≡ 0 + length (map (row_from_normalized_row encoding) rows) =
            omega (arith, length-map (row_from_normalized_row encoding) rows) in
          with_repository_issues-IsBuilt (length rows) c (rw e (rw h at loop)))

  build_rows-BuiltFrom :
      (options : Options) (rows : List (OutputRow O)) (issues : List Issue)
      → Yields (build_rows encoding options rows issues) (BuiltFrom (length rows))
  unfolding build_rows
  build_rows-BuiltFrom options [] [] = empty-IsBuilt _
  build_rows-BuiltFrom options [] (issue ∷ issues) = some_rows-BuiltFrom options [] (issue ∷ issues)
  build_rows-BuiltFrom options (row ∷ rows) issues = some_rows-BuiltFrom options (row ∷ rows) issues

-- A command that `build_parsed_factor_persistence_command` returns for a batch has no two master
-- records with one key and no two detail records with one key; every detail record refers to a
-- master record of the command; the detail records and skipped duplicates are at most as many as
-- the rows, and together with the issues at least as many.
pub build-IsBuilt :
    {O : Type 0} (encoding : Encoding O) (options : Options) (batch : OutputBatch O) (c : Command O)
    → build_parsed_factor_persistence_command encoding options batch ≡ ok c
    → IsBuilt O (length batch.rows) c
unfolding build_parsed_factor_persistence_command
build-IsBuilt encoding options batch c h = rw h at (
    build_rows-BuiltFrom encoding options batch.rows
      (validate_parser_normalized_output_batch batch))
