-- ===== src/Issue.antt =====
-- `SourceFamilyRepositoryIssue`, `ParsedFactorPersistenceIssue` and
-- `ParserNormalizedOutputRowValidationIssue`, which have the same fields.
use carbon_ops_parser.Prelude.{String}

pub record Issue : Type 0 where
  pub code : String
  pub message : String
  pub field_name : String
  pub severity : String

abbrev pub error_issue : String → String → String → Issue
error_issue code message field_name = record {
  code = code;
  message = message;
  field_name = field_name;
  severity = "error";
}
