-- ===== src/Year/Select/Selection.antt =====
-- What `_normalize_source_families` selects, and what it reports as unknown.
use carbon_ops_parser.Prelude.{
  String, Bool, false, ◌||◌, ◌==◌, eq_iff, Option, none, some, List, [], ◌∷◌, ◌++◌, map, ◌≡◌, refl,
  ◌∙◌, sym, ap, arith, any_of, any_of-append, contains, is_none, lookup, if◌then◌else◌, Bool-cases,
  Option-cases, inl, inr,
}
use mathlib.Core.Option
use mathlib.Core.List.{append_assoc, append-nil, map-append}
use carbon_ops_parser.Catalog
use carbon_ops_parser.Catalog.{SourceFamily, ghg, defra, ipcc, postgresql_value, same_family}
use carbon_ops_parser.Year.Types.{FailureDetail}
use carbon_ops_parser.Year.Select.{
  Selection, source_family_aliases, select_one, normalize_from, normalize_source_families,
}

-- `s` is the canonical name of the alias `r`.
abbrev pub is_named : String → Option String → Bool
is_named s none = false
is_named s (some n) = n == s

abbrev pub names : String → String → Bool
names s r = is_named s (lookup r source_family_aliases)

-- The requested names with no canonical name, in order.
abbrev pub unknown_names : List String → List String
unknown_names [] = []
unknown_names (r ∷ rs) =
    if is_none (lookup r source_family_aliases) then r ∷ unknown_names rs else unknown_names rs

-- No family occurs twice.
abbrev pub Distinct : List SourceFamily → Type 0
Distinct [] = Unit
Distinct (f ∷ fs) = (any_of (same_family f) fs ≡ false) × Distinct fs

pub eq-postgresql_value :
    (f g : SourceFamily) → (postgresql_value f == postgresql_value g) ≡ same_family f g
eq-postgresql_value ghg ghg = refl
eq-postgresql_value ghg defra = refl
eq-postgresql_value ghg ipcc = refl
eq-postgresql_value defra ghg = refl
eq-postgresql_value defra defra = refl
eq-postgresql_value defra ipcc = refl
eq-postgresql_value ipcc ghg = refl
eq-postgresql_value ipcc defra = refl
eq-postgresql_value ipcc ipcc = refl

-- The orchestrator's alias table and the schema catalog's agree: a name has a canonical name exactly
-- if it has a family, and that is the family's PostgreSQL value.
pub lookup-source_family_aliases :
    (r : String)
    → lookup r source_family_aliases
      ≡ Option.map postgresql_value (lookup r Catalog.source_family_aliases)
unfolding lookup
lookup-source_family_aliases r = ground arith

contains-append :
    (s t : String) (xs : List String) → contains s (xs ++ t ∷ []) ≡ (contains s xs || t == s)
unfolding contains
contains-append s t [] = ground arith
contains-append s t (x ∷ xs) = ground (arith, contains-append s t xs)

-- One round keeps track of the members.
contains-select_one :
    (s : String) (acc : Selection) (r : String)
    → contains s (select_one acc r (lookup r source_family_aliases)).0
      ≡ (contains s acc.0 || names s r)
unfolding select_one
contains-select_one s (selected, failures) r =
    elim (Option-cases (lookup r source_family_aliases)) [
      | inl unknown ↦ rw unknown (ground arith)
      | inr (n, known) ↦ rw known (elim (Bool-cases (contains n selected)) [
        | inl old ↦ rw old (ground (arith, eq_iff n s))
        | inr new ↦ rw new (contains-append s n selected)
      ])
    ]

contains-normalize_from :
    (s : String) (acc : Selection) (rs : List String)
    → contains s (normalize_from acc rs).0 ≡ (contains s acc.0 || any_of (names s) rs)
unfolding normalize_from
contains-normalize_from s acc [] = ground arith
contains-normalize_from s acc (r ∷ rs) =
    contains-normalize_from s (select_one acc r (lookup r source_family_aliases)) rs
    ∙ ground (arith, contains-select_one s acc r)

map-fst-append :
    (xs : List (String × FailureDetail)) (x : String × FailureDetail)
    → map (λ p. p.0) (xs ++ x ∷ []) ≡ map (λ p. p.0) xs ++ x.0 ∷ []
map-fst-append [] x = refl
map-fst-append (y ∷ xs) x = cc (map-fst-append xs x)

unknown-select_one :
    (acc : Selection) (r : String) (rs : List String) (o : Option String)
    → map (λ p. p.0) (select_one acc r o).1 ++ rs
      ≡ map (λ p. p.0) acc.1 ++ (if is_none o then r ∷ rs else rs)
unfolding select_one
unknown-select_one (selected, failures) r rs none = simp (map-fst-append, append_assoc)
unknown-select_one (selected, failures) r rs (some n) = refl

unknown-normalize_from :
    (acc : Selection) (rs : List String)
    → map (λ p. p.0) (normalize_from acc rs).1 ≡ map (λ p. p.0) acc.1 ++ unknown_names rs
unfolding normalize_from
unknown-normalize_from acc [] = sym (append-nil _)
unknown-normalize_from acc (r ∷ rs) =
    unknown-normalize_from (select_one acc r (lookup r source_family_aliases)) rs
    ∙ unknown-select_one acc r (unknown_names rs) (lookup r source_family_aliases)

-- The selected names are those of distinct families.
abbrev pub AreFamilies : List String → Type 0
AreFamilies selected = (fs : List SourceFamily) × (selected ≡ map postgresql_value fs) × Distinct fs

contains-map :
    (f : SourceFamily) (fs : List SourceFamily)
    → contains (postgresql_value f) (map postgresql_value fs) ≡ any_of (λ g. same_family g f) fs
unfolding contains
contains-map f [] = refl
contains-map f (g ∷ fs) = cc (eq-postgresql_value g f, contains-map f fs)

Distinct-append :
    (f : SourceFamily) (fs : List SourceFamily)
    → any_of (λ g. same_family g f) fs ≡ false
    → Distinct fs
    → Distinct (fs ++ f ∷ [])
Distinct-append f [] h d = (refl, tt)
Distinct-append f (g ∷ fs) h (n, d) = (
  ground (arith, any_of-append (same_family g) fs (f ∷ [])),
  Distinct-append f fs (ground arith) d,
)

AreFamilies-select_one :
    (acc : Selection) (r : String)
    → AreFamilies acc.0
    → AreFamilies (select_one acc r (lookup r source_family_aliases)).0
unfolding select_one
AreFamilies-select_one (selected, failures) r (fs, same, d) =
    rw (lookup-source_family_aliases r)
      (elim (Option-cases (lookup r Catalog.source_family_aliases)) [
        | inl unknown ↦ rw unknown (fs, same, d)
        | inr (f, known) ↦ rw known (elim (Bool-cases (contains (postgresql_value f) selected)) [
          | inl old ↦ rw old (fs, same, d)
          | inr new ↦ rw new (
            fs ++ f ∷ [],
            rw (same, map-append),
            Distinct-append f fs
                (sym (contains-map f fs) ∙ ap (contains (postgresql_value f)) (sym same) ∙ new) d,
          )
        ])
      ])

AreFamilies-normalize_from :
    (acc : Selection) (rs : List String) → AreFamilies acc.0 → AreFamilies (normalize_from acc rs).0
unfolding normalize_from
AreFamilies-normalize_from acc [] h = h
AreFamilies-normalize_from acc (r ∷ rs) h =
    AreFamilies-normalize_from (select_one acc r (lookup r source_family_aliases)) rs
      (AreFamilies-select_one acc r h)

-- A selection for the requested names: the canonical names of distinct families, those that some
-- requested name stands for, and the names that stand for none, in the order of the request.
pub record IsSelection (requested : List String) (s : Selection) : Type 0 where
  pub families : AreFamilies s.0
  pub members : (name : String) → contains name s.0 ≡ any_of (names name) requested
  pub unknown : map (λ p. p.0) s.1 ≡ unknown_names requested

-- `_normalize_source_families` selects distinct canonical names, exactly those that some requested
-- name is an alias of, and reports exactly the requested names that are no alias, in their order.
pub normalize_source_families-IsSelection :
    (requested : List String) → IsSelection requested (normalize_source_families requested)
unfolding normalize_source_families contains
normalize_source_families-IsSelection requested = record {
  families = AreFamilies-normalize_from ([], []) requested ([], refl, tt);
  members = λ name. contains-normalize_from name ([], []) requested;
  unknown = unknown-normalize_from ([], []) requested;
}
