-- ===== src/Cycle/Events/Deduplicated.antt =====
-- The issues of a run without duplicates.
use carbon_ops_parser.Prelude.{
  String, Bool, true, false, Option, none, some, List, [], ◌∷◌, ◌++◌, map, any_of, DistinctBy, All,
  All-append, concat_map, eq_refl, ◌≡◌, refl, if◌then◌else◌,
}
use carbon_ops_parser.Year.Types.{FailureDetail, RunResult}
use carbon_ops_parser.Cycle.Events.{
  IssuePayload, same_option, same_payload, sanitize_issue_payload, append_issue, append_issues,
  iter_deduplicated_ingestion_issues,
}

same_option_self : (s : Option String) → same_option s s ≡ true
same_option_self none = refl
same_option_self (some s) = eq_refl s

same_payload_self : (a : IssuePayload) → same_payload a a ≡ true
same_payload_self a =
    rw (same_option_self a.source_family, eq_refl a.stage, eq_refl a.code, eq_refl a.message) refl

-- The payload is that of some issue.
abbrev pub present : IssuePayload → List IssuePayload → Bool
present key keys = any_of (same_payload key) keys

module _ (redact : String → String) where
  abbrev pub payloads : List FailureDetail → List IssuePayload
  payloads issues = map (sanitize_issue_payload redact) issues

  -- The state of `append_issue`: the keys are those of the issues, without duplicates.
  abbrev IsState : List FailureDetail × List IssuePayload → Type 0
  IsState (issues, seen) = (seen ≡ payloads issues) × DistinctBy same_payload seen

  -- The state with the issue, or without.
  abbrev chosen :
      Bool
      → FailureDetail
      → List FailureDetail
      → List IssuePayload
      → List IssuePayload
      → List FailureDetail × List IssuePayload
  chosen b issue issues seen seen' = if b then (issues, seen) else (issues ++ issue ∷ [], seen')

  append_issue-All :
      (P : FailureDetail → Type 0) (b : Bool) (issue : FailureDetail) (issues : List FailureDetail)
      (seen seen' : List IssuePayload)
      → All P issues
      → P issue
      → All P (chosen b issue issues seen seen').0
  append_issue-All P true issue issues seen seen' h p = h
  append_issue-All P false issue issues seen seen' h p = All-append P issues (issue ∷ []) h (p, tt)

  append_issues-All :
      (P : FailureDetail → Type 0) (issues : List FailureDetail)
      (s : List FailureDetail × List IssuePayload)
      → All P s.0
      → All P issues
      → All P (append_issues redact s issues).0
  unfolding append_issues
  append_issues-All P [] s h k = h
  append_issues-All P (issue ∷ issues) (kept, seen) h (p, k) =
      append_issues-All P issues (append_issue redact (kept, seen) issue)
        (append_issue-All P (any_of (same_payload (sanitize_issue_payload redact issue)) seen) issue
          kept seen _ h p)
        k

-- Every failure of the families and of the run.
abbrev pub all_failures : {O : Type 0} → RunResult O → List FailureDetail
all_failures result =
    concat_map (λ family. family.failures) result.family_results ++ result.failures

module _ {O : Type 0} (redact : String → String) (result : RunResult O) where
  pub iter_deduplicated_ingestion_issues-All :
      (P : FailureDetail → Type 0)
      → All P (concat_map (λ family. family.failures) result.family_results)
      → All P result.failures
      → All P (iter_deduplicated_ingestion_issues redact result)
  unfolding iter_deduplicated_ingestion_issues
  iter_deduplicated_ingestion_issues-All P h k =
      append_issues-All redact P result.failures _ (append_issues-All redact P _ ([], []) tt h) k
