-- ===== src/Year/Batch/Fields.antt =====
-- What `_batch_with_run_id` does to the fields of a row.
use carbon_ops_parser.Prelude.{
  String, false, ◌==◌, eq_iff, Option, none, some, List, [], ◌∷◌, ◌≡◌, refl, ◌∙◌, arith, get_or,
  or_else, lookup, insert, lookup-insert, dict_from, if◌then◌else◌, Bool-cases, inl, inr,
  Option-cases,
}
use carbon_ops_parser.Text.{text_lt, text_lt_irrefl, text_lt_asymm}
use carbon_ops_parser.Value.{Value, text}
use carbon_ops_parser.Year.Batch.{set_default, insert_item, sorted_items, fields_with_run_id}

or_else-none : {V : Type 0} (o : Option V) → or_else o none ≡ o
or_else-none none = refl
or_else-none (some v) = refl

module _ {V : Type 0} where
  -- The value of the last pair with the key.
  abbrev pub last_value : String → List (String × V) → Option V
  last_value k [] = none
  last_value k ((j, v) ∷ d) = or_else (last_value k d) (if j == k then some v else none)

  -- No key is below the one before it.
  abbrev pub IsSorted : List (String × V) → Type 0
  IsSorted [] = Unit
  IsSorted ((k, v) ∷ []) = Unit
  IsSorted ((k, v) ∷ (j, w) ∷ d) = (text_lt j k ≡ false) × IsSorted ((j, w) ∷ d)

  lookup-dict_from :
      (k : String) (d items : List (String × V))
      → lookup k (dict_from d items) ≡ or_else (last_value k items) (lookup k d)
  unfolding dict_from
  lookup-dict_from k d [] = refl
  lookup-dict_from k d ((j, v) ∷ items) =
      lookup-dict_from k (insert j v d) items ∙ ground (arith, lookup-insert j k v d)

  lookup-dict_from_nil :
      (k : String) (items : List (String × V)) → lookup k (dict_from [] items) ≡ last_value k items
  unfolding lookup
  lookup-dict_from_nil k items = lookup-dict_from k [] items ∙ or_else-none (last_value k items)

  lookup-set_default :
      (k j : String) (v : V) (d : List (String × V))
      → lookup j (set_default k v d) ≡ (if k == j then some (get_or (lookup k d) v) else lookup j d)
  unfolding set_default
  lookup-set_default k j v d = elim (Option-cases (lookup k d)) [
    | inl missing ↦ rw missing (lookup-insert k j v d)
    | inr (w, found) ↦ rw found (ground (arith, eq_iff k j))
  ]

  lookup-insert_item :
      (k j : String) (v : V) (d : List (String × V))
      → lookup j (insert_item k v d) ≡ (if k == j then some v else lookup j d)
  unfolding insert_item lookup
  lookup-insert_item k j v [] = refl
  lookup-insert_item k j v ((i, w) ∷ d) =
      ground (arith, eq_iff k j, eq_iff i j, text_lt_irrefl k, lookup-insert_item k j v d)

  lookup-sorted_items :
      (j : String) (d : List (String × V)) → lookup j (sorted_items d) ≡ lookup j d
  unfolding sorted_items lookup
  lookup-sorted_items j [] = refl
  lookup-sorted_items j ((k, v) ∷ d) =
      lookup-insert_item k j v (sorted_items d) ∙ ground (arith, lookup-sorted_items j d)

  -- An item goes in behind a key that is not above it.
  insert_item-IsSorted_behind :
      (i k : String) (u v : V) (d : List (String × V))
      → text_lt k i ≡ false
      → IsSorted ((i, u) ∷ d)
      → IsSorted ((i, u) ∷ insert_item k v d)
  unfolding insert_item
  insert_item-IsSorted_behind i k u v [] h s = (h, tt)
  insert_item-IsSorted_behind i k u v ((j, w) ∷ d) h (below, s) = elim (Bool-cases (text_lt j k)) [
    | inl yes' ↦ rw yes' (below, insert_item-IsSorted_behind j k w v d (text_lt_asymm j k yes') s)
    | inr no' ↦ rw no' (h, (no', s))
  ]

  insert_item-IsSorted :
      (k : String) (v : V) (d : List (String × V)) → IsSorted d → IsSorted (insert_item k v d)
  unfolding insert_item
  insert_item-IsSorted k v [] s = tt
  insert_item-IsSorted k v ((j, w) ∷ d) s = elim (Bool-cases (text_lt j k)) [
    | inl yes' ↦ rw yes' (insert_item-IsSorted_behind j k w v d (text_lt_asymm j k yes') s)
    | inr no' ↦ rw no' (no', s)
  ]

  sorted_items-IsSorted : (d : List (String × V)) → IsSorted (sorted_items d)
  unfolding sorted_items
  sorted_items-IsSorted [] = tt
  sorted_items-IsSorted ((k, v) ∷ d) =
      insert_item-IsSorted k v (sorted_items d) (sorted_items-IsSorted d)

-- The fields of a row with the run's id are sorted by key, hold for every other key the last value
-- that the row gives it, and hold under "run_id" the row's own last value, or else the run's id.
pub fields_with_run_id_lem :
    {O : Type 0} (run_id : String) (fields : List (String × Value O))
    → IsSorted (fields_with_run_id run_id fields)
      × ((k : String)
          → lookup k (fields_with_run_id run_id fields) ≡ (
              if "run_id" == k
              then some (get_or (last_value "run_id" fields) (text run_id))
              else last_value k fields))
unfolding fields_with_run_id
fields_with_run_id_lem {O} run_id fields = (
  sorted_items-IsSorted {V = Value O} (set_default "run_id" (text run_id) (dict_from [] fields)),
  λ k.
      lookup-sorted_items k _
      ∙ lookup-set_default "run_id" k (text run_id) _
      ∙ rw (lookup-dict_from_nil "run_id" fields, lookup-dict_from_nil k fields) refl,
)
