-- ===== src/Persistence/Build/Submittable.antt =====
-- A command without issues is what the repository accepts.
use carbon_ops_parser.Prelude.{
  ◌+◌, String, false, List, [], ◌∷◌, map, ◌≡◌, arith, length, append-eq-nil,
}
use carbon_ops_parser.Exec.{Result, ok, raised}
use carbon_ops_parser.Exec.Checked.{Yields, ◌>>=◌, Checked-bind}
use carbon_ops_parser.Text.{is_blank}
use carbon_ops_parser.Issue.{Issue}
use carbon_ops_parser.Row.{OutputRow, OutputBatch}
use carbon_ops_parser.Row.Contract.{validate_parser_normalized_output_batch}
use carbon_ops_parser.Persistence.Validate.{validate_source_family_repository_inputs}
use carbon_ops_parser.Persistence.Validate.Accepted.{
  validate_source_family_repository_inputs-IsAccepted,
}
use carbon_ops_parser.Persistence.Encode.{Encoding}
use carbon_ops_parser.Persistence.Map.{row_from_normalized_row}
use carbon_ops_parser.Persistence.MapRow.{Options}
use carbon_ops_parser.Persistence.Build.{
  Command, empty_command, place_rows, with_repository_issues, build_rows,
  build_parsed_factor_persistence_command,
}
use carbon_ops_parser.Persistence.Build.Records.{build-IsBuilt}

-- The command's own validation found nothing, if nothing is reported.
abbrev IsChecked : {O : Type 0} → Result (Command O) → Type 0
IsChecked (ok c) =
    c.issues ≡ []
    → validate_source_family_repository_inputs "parsed_factor_persistence_command" c.master_records
        c.detail_records
      ≡ []
IsChecked (raised e) = Unit

module _ {O : Type 0} (encoding : Encoding O) where
  some_rows-IsChecked :
      (options : Options) (rows : List (OutputRow O)) (issues : List Issue)
      → Yields
          (place_rows encoding options 1
              (map (row_from_normalized_row encoding) rows)
              (empty_command issues)
            >>= λ c. ok (with_repository_issues c))
          IsChecked
  unfolding with_repository_issues
  some_rows-IsChecked options rows issues =
      Checked-bind _ _ (IsChecked {O = O}) (λ e. tt)
        (λ c h none_reported. ((append-eq-nil c.issues _).0 none_reported).1)

  build_rows-IsChecked :
      (options : Options) (rows : List (OutputRow O)) (issues : List Issue)
      → Yields (build_rows encoding options rows issues) IsChecked
  unfolding build_rows
  build_rows-IsChecked options [] [] = λ h. absurd (cc)
  build_rows-IsChecked options [] (issue ∷ issues) = some_rows-IsChecked options [] (issue ∷ issues)
  build_rows-IsChecked options (row ∷ rows) issues = some_rows-IsChecked options (row ∷ rows) issues

-- A command without issues, built for a batch, passes the repository's validation under any provider
-- name that is not blank, and its detail records and skipped duplicates are as many as the rows.
pub build_accepted :
    {O : Type 0} (encoding : Encoding O) (options : Options) (batch : OutputBatch O) (c : Command O)
    (provider_name : String)
    → build_parsed_factor_persistence_command encoding options batch ≡ ok c
    → c.issues ≡ []
    → is_blank provider_name ≡ false
    → (validate_source_family_repository_inputs provider_name c.master_records c.detail_records
        ≡ [])
      × (length c.detail_records + c.skipped_duplicate_count ≡ length batch.rows)
unfolding build_parsed_factor_persistence_command
build_accepted encoding options batch c provider_name built none_reported named =
    let shape = validate_parser_normalized_output_batch batch in
    let checked =
      (rw built at (build_rows-IsChecked encoding options batch.rows shape)) none_reported in
    let accepted =
      (validate_source_family_repository_inputs-IsAccepted "parsed_factor_persistence_command"
          c.master_records c.detail_records).0
        checked in
    let counts = build-IsBuilt encoding options batch c built in
    let at_least = rw none_reported at counts.at_least in
    (
      (validate_source_family_repository_inputs-IsAccepted provider_name c.master_records
            c.detail_records).1
          (record {
            named = named;
            masters = accepted.masters;
            details = accepted.details;
            declared = accepted.declared;
          }),
      omega (arith, counts.at_most, at_least),
    )
