-- ===== src/History/Validate/Accepted.antt =====
-- Which commands the history's validation accepts.
use carbon_ops_parser.Prelude.{
  ℕ, ◌+◌, String, true, Option, List, [], ◌∷◌, ◌≡◌, ◌↔◌, refl, All, contains, get_or, append_iff,
}
use carbon_ops_parser.Exec.{Result, ok, raised}
use carbon_ops_parser.Text.{is_blank}
use carbon_ops_parser.History.Metadata.{mapping, Fields, end, json_safe_redacted}
use carbon_ops_parser.History.Records.{RunRecord, SourceResultRecord, IssueRecord, HistoryCommand}
use carbon_ops_parser.History.Validate.{
  Dumps, ingestion_source_families, issue_source_families, run_counts, source_result_counts,
  json_required, validate_json_metadata, validate_run, validate_source_result,
  validate_source_results, validate_issue, validate_issues, validate_ingestion_run_history_command,
}
use carbon_ops_parser.History.Validate.Checks.{
  IsPositive, IsNatural, IfGiven, Given, IsFilled, IsFamily, unless_blank, unless_known,
  required_object-Given, unless_issue_family, unless_positive, unless_target,
  validate_non_negative_optional-IsNatural, unless_counts, unless_families, unless_other_run,
  through,
}

module _ {O : Type 0} (tools : Dumps O) where
  -- The safe form of the metadata has a JSON text.
  abbrev pub HasJson : Option (Fields O) → Type 0
  HasJson metadata =
      (payload : String) × (tools.dumps
          (json_safe_redacted tools.redact_sensitive_text (mapping (get_or metadata end)))
        ≡ ok payload)

  unless_json :
      (metadata : Option (Fields O)) (field_name : String)
      → (validate_json_metadata tools metadata field_name ≡ []) ↔ HasJson metadata
  unless_json metadata field_name =
      go (
        tools.dumps
          (json_safe_redacted tools.redact_sensitive_text (mapping (get_or metadata end))))
    where
      go :
          (r : Result String)
          → (json_required tools field_name r ≡ []) ↔ ((payload : String) × (r ≡ ok payload))
      go (ok payload) = (λ h. (payload, refl), λ h. refl)
      go (raised e) = (λ h. absurd (cc), λ h. absurd (cc (h.1)))

  -- A run record with an id, a start and a status, positive years, no negative count, known families
  -- and metadata for JSON.
  pub record IsRunRecord (run : RunRecord O) : Type 0 where
    pub run_id : IsFilled run.run_id
    pub started_at : Given (λ o. Unit {0}) run.started_at
    pub status : IsFilled run.status
    pub initial_year : IfGiven IsPositive run.initial_year
    pub cycle_count : IfGiven IsNatural run.cycle_count
    pub total_parsed_rows : IsNatural run.total_parsed_rows
    pub total_inserted_count : IsNatural run.total_inserted_count
    pub total_skipped_duplicate_count : IsNatural run.total_skipped_duplicate_count
    pub failure_count : IsNatural run.failure_count
    pub families : All IsFamily run.enabled_source_families
    pub metadata : HasJson run.metadata

  validate_run-IsRunRecord : (run : RunRecord O) → (validate_run tools run ≡ []) ↔ IsRunRecord run
  unfolding validate_run
  validate_run-IsRunRecord run =
      through
        (append_iff
          (append_iff
            (append_iff
              (append_iff
                (append_iff
                  (append_iff
                    (append_iff (unless_blank (is_blank run.run_id) _)
                      (required_object-Given run.started_at _ _ _))
                    (unless_blank (is_blank run.status) _))
                  (unless_positive run.initial_year "initial_year"))
                (validate_non_negative_optional-IsNatural run.cycle_count "cycle_count"))
              (unless_counts (run_counts run)))
            (unless_families run.enabled_source_families "enabled_source_families"))
          (unless_json run.metadata "metadata"))
        (λ (
          (
            (((((id, start), status), year), cycles), (rows, (inserted, (skipped, (failures, _))))),
            families,
          ),
          json,
        ).
          record {
            run_id = id;
            started_at = start;
            status = status;
            initial_year = year;
            cycle_count = cycles;
            total_parsed_rows = rows;
            total_inserted_count = inserted;
            total_skipped_duplicate_count = skipped;
            failure_count = failures;
            families = families;
            metadata = json;
          })
        (λ r. (
          (
            (
              ((((r.run_id, r.started_at), r.status), r.initial_year), r.cycle_count),
              (
                r.total_parsed_rows,
                (r.total_inserted_count, (r.total_skipped_duplicate_count, (r.failure_count, tt))),
              ),
            ),
            r.families,
          ),
          r.metadata,
        ))

  -- A source result of the run, with a status, a known family, positive years, no negative count and
  -- metadata for JSON.
  pub record IsSourceResult (run_id : String) (r : SourceResultRecord O) : Type 0 where
    pub same_run : r.run_id ≡ run_id
    pub status : IsFilled r.status
    pub family : IsFamily r.source_family
    pub target_year : Given IsPositive r.target_year
    pub latest_year : IfGiven IsPositive r.latest_year
    pub counts : All IsNatural (
        r.parsed_rows ∷ r.master_inserted ∷ r.master_skipped ∷ r.detail_inserted ∷ r.detail_skipped
        ∷ r.issue_count ∷ [])
    pub metadata : HasJson r.metadata

  validate_source_result-IsSourceResult :
      (run_id prefix : String) (r : SourceResultRecord O)
      → (validate_source_result tools run_id prefix r ≡ []) ↔ IsSourceResult run_id r
  unfolding validate_source_result
  validate_source_result-IsSourceResult run_id prefix r =
      through
        (append_iff
          (append_iff
            (append_iff
              (append_iff
                (append_iff
                  (append_iff (unless_other_run run_id r.run_id _ _ _)
                    (unless_blank (is_blank r.status) _))
                  (unless_known (contains r.source_family ingestion_source_families) _))
                (unless_target r.target_year _))
              (unless_positive r.latest_year _))
            (unless_counts (source_result_counts prefix r)))
          (unless_json r.metadata _))
        (λ ((((((same, status), family), target), latest), counts), json). record {
          same_run = same;
          status = status;
          family = family;
          target_year = target;
          latest_year = latest;
          counts = counts;
          metadata = json;
        })
        (λ a. (
          (((((a.same_run, a.status), a.family), a.target_year), a.latest_year), a.counts),
          a.metadata,
        ))

  -- An issue of the run, with a stage, a code and a message, a known family and a positive year where
  -- they are given, and metadata for JSON.
  pub record IsIssueRecord (run_id : String) (i : IssueRecord O) : Type 0 where
    pub same_run : i.run_id ≡ run_id
    pub family : IfGiven (λ family. contains family issue_source_families ≡ true) i.source_family
    pub target_year : IfGiven IsPositive i.target_year
    pub stage : IsFilled i.stage
    pub code : IsFilled i.code
    pub message : IsFilled i.message
    pub metadata : HasJson i.metadata

  validate_issue-IsIssueRecord :
      (run_id prefix : String) (i : IssueRecord O)
      → (validate_issue tools run_id prefix i ≡ []) ↔ IsIssueRecord run_id i
  unfolding validate_issue
  validate_issue-IsIssueRecord run_id prefix i =
      through
        (append_iff
          (append_iff
            (append_iff
              (append_iff
                (append_iff
                  (append_iff (unless_other_run run_id i.run_id _ _ _)
                    (unless_issue_family i.source_family _))
                  (unless_positive i.target_year _))
                (unless_blank (is_blank i.stage) _))
              (unless_blank (is_blank i.code) _))
            (unless_blank (is_blank i.message) _))
          (unless_json i.metadata _))
        (λ ((((((same, family), target), stage), code), message), json). record {
          same_run = same;
          family = family;
          target_year = target;
          stage = stage;
          code = code;
          message = message;
          metadata = json;
        })
        (λ a.
          ((((((a.same_run, a.family), a.target_year), a.stage), a.code), a.message), a.metadata))

  validate_source_results-All :
      (run_id : String) (index : ℕ) (rs : List (SourceResultRecord O))
      → (validate_source_results tools run_id index rs ≡ []) ↔ All (IsSourceResult run_id) rs
  unfolding validate_source_results
  validate_source_results-All run_id index [] = (λ h. tt, λ h. refl)
  validate_source_results-All run_id index (r ∷ rs) =
      append_iff (validate_source_result-IsSourceResult run_id _ r)
        (validate_source_results-All run_id (index + 1) rs)

  validate_issues-All :
      (run_id : String) (index : ℕ) (is : List (IssueRecord O))
      → (validate_issues tools run_id index is ≡ []) ↔ All (IsIssueRecord run_id) is
  unfolding validate_issues
  validate_issues-All run_id index [] = (λ h. tt, λ h. refl)
  validate_issues-All run_id index (i ∷ is) =
      append_iff (validate_issue-IsIssueRecord run_id _ i)
        (validate_issues-All run_id (index + 1) is)

  -- A command whose records are all well formed and of one run.
  pub record IsHistoryCommand (command : HistoryCommand O) : Type 0 where
    pub run : IsRunRecord command.run
    pub source_results : All (IsSourceResult command.run.run_id) command.source_results
    pub issues : All (IsIssueRecord command.run.run_id) command.issues

-- The validation of a history command finds no issue exactly if the run has an id, a start and a
-- status, all source results and issues belong to it, every family is a known one, every target year
-- is given and positive, years and counts are in range, issues have a stage, a code and a message,
-- and the safe form of all metadata has a JSON text.
pub validate_ingestion_run_history_command-IsHistoryCommand :
    {O : Type 0} (tools : Dumps O) (command : HistoryCommand O)
    → (validate_ingestion_run_history_command tools command ≡ []) ↔ IsHistoryCommand tools command
unfolding validate_ingestion_run_history_command
validate_ingestion_run_history_command-IsHistoryCommand tools command =
    through
      (append_iff
        (append_iff (validate_run-IsRunRecord tools command.run)
          (validate_source_results-All tools command.run.run_id 0 command.source_results))
        (validate_issues-All tools command.run.run_id 0 command.issues))
      (λ ((run, results), issues). record { run = run; source_results = results; issues = issues })
      (λ a. ((a.run, a.source_results), a.issues))
