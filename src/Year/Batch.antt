-- ===== src/Year/Batch.antt =====
-- `_batch_with_run_id`: every row gets the run's id unless it names one, and its fields are sorted.
pub mod Fields
use carbon_ops_parser.Prelude.{
  String, List, [], ◌∷◌, Option, none, some, map, lookup, insert, dict_from, if◌then◌else◌,
}
use carbon_ops_parser.Text.{text_lt}
use carbon_ops_parser.Value.{Value, text}
use carbon_ops_parser.Row.{OutputRow, OutputBatch}

module _ {V : Type 0} where
  abbrev set_missing : Option V → String → V → List (String × V) → List (String × V)
  set_missing none k v d = insert k v d
  set_missing (some w) k v d = d

  -- `d.setdefault(k, v)`
  unfoldable pub set_default : String → V → List (String × V) → List (String × V)
  set_default k v d = set_missing (lookup k d) k v d

  insert_item : String → V → List (String × V) → List (String × V)
  insert_item k v [] = (k, v) ∷ []
  insert_item k v ((j, w) ∷ d) =
      if text_lt j k then (j, w) ∷ insert_item k v d else (k, v) ∷ (j, w) ∷ d

  -- `sorted(items, key=lambda item: item[0])`
  unfoldable pub sorted_items : List (String × V) → List (String × V)
  unfolding insert_item
  sorted_items [] = []
  sorted_items ((k, v) ∷ d) = insert_item k v (sorted_items d)

module _ {O : Type 0} (run_id : String) where
  unfoldable pub fields_with_run_id : List (String × Value O) → List (String × Value O)
  unfolding sorted_items set_default
  fields_with_run_id fields =
      sorted_items (set_default "run_id" (text run_id) (dict_from [] fields))

  unfoldable pub row_with_run_id : OutputRow O → OutputRow O
  row_with_run_id row = record row { normalized_fields = fields_with_run_id row.normalized_fields }

  unfoldable pub batch_with_run_id : OutputBatch O → OutputBatch O
  batch_with_run_id batch = record { rows = map row_with_run_id batch.rows }
