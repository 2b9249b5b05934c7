-- ===== src/Value.antt =====
-- Values of the type `object` in normalized fields, metadata and records. `None` and texts are told
-- apart, and every other object (numbers, decimals, dates) belongs to a type `O` that is given.
use carbon_ops_parser.Prelude.{String, Option, none, some}

pub data Value (O : Type 0) : Type 0 where
  null : Value O
  text : String → Value O
  object : O → Value O

abbrev pub of_option : {O : Type 0} → Option String → Value O
of_option none = null
of_option (some s) = text s
