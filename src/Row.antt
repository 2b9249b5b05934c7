-- ===== src/Row.antt =====
-- parsers/normalized_output_row_contract.py: the rows that parsers hand to validation and
-- persistence.
pub mod Contract
use carbon_ops_parser.Prelude.{ℕ, String, Option, List, length}
use carbon_ops_parser.Value.{Value}

pub data RowStatus : Type 0 where
  declared validated : RowStatus

pub record OutputRow (O : Type 0) : Type 0 where
  pub source_family : String
  pub source_key : String
  pub parser_key : String
  pub artifact_reference : String
  pub row_id : String
  pub normalized_fields : List (String × Value O)
  pub status : RowStatus
  pub source_row_number : Option ℕ
  pub artifact_identifier : Option String
  pub reporting_year : Option ℕ
  pub warnings : List String
  pub errors : List String

pub record OutputBatch (O : Type 0) : Type 0 where
  pub rows : List (OutputRow O)

-- `ParserNormalizedOutputBatch.row_count`
abbrev pub row_count : {O : Type 0} → OutputBatch O → ℕ
row_count batch = length batch.rows
