-- ===== src/Tests/Persist.antt =====
-- A batch with a repeated row, built and inserted in a small database session.
use carbon_ops_parser.Prelude.{
  if◌then◌else◌, ◌↔◌, false, ℕ, ◌+◌, true, none, some, [], ◌∷◌, ◌≡◌, refl, arith, nat_eq, length,
  insert,
}
use carbon_ops_parser.Exec.{Exec, Result, ok, raised}
use carbon_ops_parser.Exec.Ensures.{Ensures}
use carbon_ops_parser.Text.Number.{show}
use carbon_ops_parser.Text.{is_blank}
use carbon_ops_parser.Value.{text, object}
use carbon_ops_parser.Row.{RowStatus, OutputRow, OutputBatch}
use carbon_ops_parser.Persistence.Validate.{validate_source_family_repository_inputs}
use carbon_ops_parser.Persistence.Validate.Accepted.{
  IsAccepted, validate_source_family_repository_inputs-IsAccepted,
}
use carbon_ops_parser.Persistence.Build.Submittable.{build_accepted}
use carbon_ops_parser.Persistence.Encode.{Encoding}
use carbon_ops_parser.Persistence.Statements.{ParameterEncoding}
use carbon_ops_parser.Persistence.Build.{
  Command, empty_command, build_parsed_factor_persistence_command,
}
use carbon_ops_parser.Persistence.Build.Records.{IsBuilt, build-IsBuilt}
use carbon_ops_parser.Persistence.Repository.{Session, default_options}
use carbon_ops_parser.Persistence.Repository.Database.{is_factor_insert, IsTransactional}

-- How many factor rows are committed, and how many there are in the open transaction.
abbrev pub Counts : Type 0
Counts = ℕ × ℕ

abbrev commit_counts : Exec Counts (Unit {0})
commit_counts (committed, working) = (ok tt, (working, working))

abbrev rollback_counts : Exec Counts (Unit {0})
rollback_counts (committed, working) = (ok tt, (committed, committed))

abbrev pub session : Session Counts
session = record {
  execute = λ s c. (ok tt, (c.0, if is_factor_insert s then c.1 + 1 else c.1));
  execute_fetchone = λ s c. (ok true, (c.0, if is_factor_insert s then c.1 + 1 else c.1));
  commit = some commit_counts;
  rollback = some rollback_counts;
}

abbrev pub committed : Counts → ℕ
committed c = c.0

abbrev pub working : Counts → ℕ
working c = c.1

abbrev pub factor_rows : ℕ → ℕ
factor_rows n = n

pub session-IsTransactional : IsTransactional Counts ℕ session committed working factor_rows
session-IsTransactional = record {
  execute_keeps = λ s c. refl;
  execute_rows = λ s c other h. rw other refl;
  fetch_keeps = λ s c. refl;
  fetch_rows = λ s c row factor h. let e : true ≡ row = cc in rw (← e, factor) (omega arith);
  commit = commit_counts;
  commit_is = refl;
  commit_ok = λ c h. refl;
  commit_opens = λ c h. refl;
  commit_raised = λ c e h. absurd (cc);
  rollback_keeps = λ rollback c h. let e : rollback_counts ≡ rollback = cc in rw (← e) refl;
  rollback_undoes = λ rollback c h h'. let e : rollback_counts ≡ rollback = cc in rw (← e) refl;
}

abbrev pub encoding : Encoding ℕ
encoding = record {
  str = show;
  same_object = nat_eq;
  json_object = λ n. ok (show n);
  json_text = λ s. s;
  sha256_hexdigest = λ s. s;
}

abbrev pub parameters : ParameterEncoding ℕ
parameters = record {
  json_text = λ s. s;
  json_object = λ n. ok (show n);
  decimal_text = λ s. ok s;
  uuid5 = λ s. s;
}

abbrev pub row : OutputRow ℕ
row = record {
  source_family = "ghg_protocol";
  source_key = "ghg_protocol";
  parser_key = "ghg_protocol_phase1_parser";
  artifact_reference = "file";
  row_id = "row-1";
  normalized_fields =
      ("unit", text "kg") ∷ ("factor_value", object 3) ∷ ("source_year", object 2020) ∷ [];
  status = RowStatus.declared;
  source_row_number = some 1;
  artifact_identifier = none;
  reporting_year = some 2020;
  warnings = [];
  errors = [];
}

abbrev pub batch : OutputBatch ℕ
batch = record { rows = row ∷ row ∷ [] }

abbrev command_or : Result (Command ℕ) → Command ℕ
command_or (ok c) = c
command_or (raised e) = empty_command []

abbrev command : Command ℕ
command = command_or (build_parsed_factor_persistence_command encoding default_options batch)

command_is : build_parsed_factor_persistence_command encoding default_options batch ≡ ok command
unfolding build_parsed_factor_persistence_command show insert
command_is = refl

-- The repeated row is a duplicate.
skipped : command.skipped_duplicate_count ≡ 1
unfolding build_parsed_factor_persistence_command show insert
skipped = refl

build-IsBuilt_example : IsBuilt ℕ 2 command
build-IsBuilt_example = build-IsBuilt encoding default_options batch command command_is

none_reported : command.issues ≡ []
unfolding build_parsed_factor_persistence_command show insert
none_reported = refl

named : is_blank "postgresql" ≡ false
unfolding is_blank
named = refl

build_accepted_example :
    (validate_source_family_repository_inputs "postgresql" command.master_records
        command.detail_records
      ≡ [])
    × (length command.detail_records + command.skipped_duplicate_count ≡ 2)
build_accepted_example =
    build_accepted encoding default_options batch command "postgresql" command_is none_reported
      named

validate_source_family_repository_inputs-IsAccepted_example :
    (validate_source_family_repository_inputs "postgresql" command.master_records
        command.detail_records
      ≡ [])
    ↔ IsAccepted ℕ "postgresql" command.master_records command.detail_records
validate_source_family_repository_inputs-IsAccepted_example =
    validate_source_family_repository_inputs-IsAccepted "postgresql" command.master_records
      command.detail_records
