-- ===== src/Catalog.antt =====
-- persistence/postgresql_schema_catalog.py: the source families, their aliases and the texts that
-- stand for them in PostgreSQL.
use carbon_ops_parser.Prelude.{
  String, Bool, true, false, Option, none, some, List, [], ◌∷◌, lookup, ◌≡◌, refl, arith,
}
use carbon_ops_parser.Exec.{Result, ok, raised, value_error}
use carbon_ops_parser.Text.{strip, lower}
use Prim.Native.String

pub data SourceFamily : Type 0 where
  ghg defra ipcc : SourceFamily

-- `SourceFamily.value`
abbrev pub value : SourceFamily → String
value ghg = "ghg"
value defra = "defra"
value ipcc = "ipcc"

-- `_SOURCE_FAMILY_ALIASES`, here and in persistence/parsed_factor_persistence_writer.py
abbrev pub source_family_aliases : List (String × SourceFamily)
source_family_aliases =
    ("ghg", ghg)
    ∷ ("ghg_protocol", ghg)
    ∷ ("defra", defra)
    ∷ ("defra_desnz", defra)
    ∷ ("desnz", defra)
    ∷ ("ipcc", ipcc)
    ∷ ("ipcc_efdb", ipcc)
    ∷ []

abbrev or_unsupported : String → Option SourceFamily → Result SourceFamily
or_unsupported text none = raised (value_error (String.◌++◌ "Unsupported source family: " text))
or_unsupported text (some family) = ok family

-- `coerce_source_family`, at a text
unfoldable pub coerce_source_family : String → Result SourceFamily
unfolding lower strip lookup
coerce_source_family text = or_unsupported text (lookup (lower (strip text)) source_family_aliases)

-- `source_family_postgresql_value`, at a family
abbrev pub postgresql_value : SourceFamily → String
postgresql_value ghg = "ghg_protocol"
postgresql_value defra = "defra_desnz"
postgresql_value ipcc = "ipcc_efdb"

-- `a is b`
abbrev pub same_family : SourceFamily → SourceFamily → Bool
same_family ghg ghg = true
same_family defra defra = true
same_family ipcc ipcc = true
same_family _ _ = false

pub coerce-value : (f : SourceFamily) → coerce_source_family (value f) ≡ ok f
unfolding coerce_source_family
coerce-value ghg = refl
coerce-value defra = refl
coerce-value ipcc = refl

pub same_family_iff : (f g : SourceFamily) → same_family f g ≡ true → f ≡ g
same_family_iff f g h = ground arith

pub same_family_self : (f : SourceFamily) → same_family f f ≡ true
same_family_self ghg = refl
same_family_self _ = refl
