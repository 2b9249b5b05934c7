-- ===== src/Persistence/Build/Matched.antt =====
-- The two records of a mapped row belong together.
use carbon_ops_parser.Prelude.{
  ℕ, String, true, Option, none, some, List, [], ◌∷◌, ◌≡◌, ◌≢◌, refl, eq_refl,
}
use carbon_ops_parser.Exec.{Result, ok, raised}
use carbon_ops_parser.Exec.Checked.{Yields, Checked-bind}
use carbon_ops_parser.Text.Number.{ℤ}
use carbon_ops_parser.Issue.{Issue}
use carbon_ops_parser.Catalog.{SourceFamily, same_family_self}
use carbon_ops_parser.Persistence.Validate.{MasterKey, same_key, master_key, detail_master_key}
use carbon_ops_parser.Persistence.Encode.{Encoding}
use carbon_ops_parser.Persistence.Map.{PersistenceRow, MappedRow, mapped, unmapped}
use carbon_ops_parser.Persistence.MapRow.{
  Options, Identity, map_identity, map_year, map_keys, unless_issues, map_document, map_family,
  map_row,
}

pub same_key_self : (k : MasterKey) → same_key k k ≡ true
same_key_self (f, i) = rw (same_family_self f, eq_refl i) refl

-- The detail record refers to the master record; a row with no records has issues.
abbrev pub IsMatched : {O : Type 0} → Result (MappedRow O) → Type 0
IsMatched (ok (mapped m d)) = detail_master_key d ≡ master_key m
IsMatched (ok (unmapped issues)) = issues ≢ []
IsMatched (raised e) = Unit

module _ {O : Type 0} (encoding : Encoding O) (options : Options) (row : PersistenceRow O) where
  map_identity-IsMatched : (i : Identity) → Yields (map_identity encoding options row i) IsMatched
  unfolding map_identity
  map_identity-IsMatched i =
      Checked-bind _ _ (IsMatched {O = O}) (λ e. tt)
        (λ a h. Checked-bind _ _ (IsMatched {O = O}) (λ e. tt) (λ b k. refl))

  map_year-IsMatched :
      (position : ℕ) (f : SourceFamily) (document : Option String)
      (master detail master_id detail_id : String) (year : Option ℤ)
      → Yields
          (map_year encoding options row position f document master detail master_id detail_id year)
          IsMatched
  unfolding map_year
  map_year-IsMatched position f document master detail master_id detail_id none = cc
  map_year-IsMatched position f document master detail master_id detail_id (some year) =
      map_identity-IsMatched _

  map_keys-IsMatched :
      (position : ℕ) (f : SourceFamily) (document : Option String)
      → Yields (map_keys encoding options row position f document) IsMatched
  unfolding map_keys
  map_keys-IsMatched position f document =
      Checked-bind _ _ (IsMatched {O = O}) (λ e. tt)
        (λ a h.
          Checked-bind _ _ (IsMatched {O = O}) (λ e. tt)
            (λ b k. map_year-IsMatched position f document _ _ _ _ _))

  map_document-IsMatched :
      (position : ℕ) (f : SourceFamily) (document : Option String)
      → Yields (map_document encoding options row position f document) IsMatched
  unfolding map_document
  map_document-IsMatched position f document = unless _ (map_keys-IsMatched position f document)
    where
      unless :
          (issues : List Issue)
          → Yields (map_keys encoding options row position f document) IsMatched
          → Yields
              (unless_issues issues (map_keys encoding options row position f document))
              IsMatched
      unless [] h = h
      unless (issue ∷ issues) h = cc

  map_family-IsMatched :
      (position : ℕ) (f : Option SourceFamily)
      → Yields (map_family encoding options row position f) IsMatched
  unfolding map_family
  map_family-IsMatched position none = cc
  map_family-IsMatched position (some f) =
      Checked-bind _ _ (IsMatched {O = O}) (λ e. tt)
        (λ document h. map_document-IsMatched position f document)

  pub map_row-IsMatched : (position : ℕ) → Yields (map_row encoding options row position) IsMatched
  unfolding map_row
  map_row-IsMatched position = map_family-IsMatched position _
