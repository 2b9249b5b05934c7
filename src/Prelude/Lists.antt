-- ===== src/Prelude/Lists.antt =====
-- Lists over the native numbers: length, counting, sums, predicates and membership.
use Prim.Native.Nat.{ℕ, suc, ◌+◌}
use Prim.Native.String.{String}
use mathlib.Core.Path.{◌≡◌, refl}
use mathlib.Core.Logic.{◌↔◌}
use mathlib.Core.Bool.{Bool, false, ◌||◌}
use mathlib.Core.Option.{Option, none, some}
use mathlib.Core.List.{List, [], ◌∷◌, ◌++◌, map}
use native.Mathlib.Omega.{arith}
use text.Mathlib.Text.{◌==◌}
use carbon_ops_parser.Prelude.Tests.{if◌then◌else◌, is_some}

module _ {ℓ} {A : Type ℓ} where
  abbrev pub length : List A → ℕ
  length [] = 0
  length (x ∷ xs) = suc (length xs)

  -- `sum(1 for x in xs if p(x))`
  abbrev pub count_if : (A → Bool) → List A → ℕ
  count_if p [] = 0
  count_if p (x ∷ xs) = (if p x then 1 else 0) + count_if p xs

  -- `sum(f(x) for x in xs)`
  abbrev pub sum_of : (A → ℕ) → List A → ℕ
  sum_of f [] = 0
  sum_of f (x ∷ xs) = f x + sum_of f xs

  -- `any(p(x) for x in xs)`
  abbrev pub any_of : (A → Bool) → List A → Bool
  any_of p [] = false
  any_of p (x ∷ xs) = p x || any_of p xs

  -- The first element that `p` accepts.
  abbrev pub find_by : (A → Bool) → List A → Option A
  find_by p [] = none
  find_by p (x ∷ xs) = let rest = find_by p xs in if p x then some x else rest

  -- Concatenation of what `f` gives for each element.
  abbrev pub concat_map {κ} : {B : Type κ} → (A → List B) → List A → List B
  concat_map f [] = []
  concat_map f (x ∷ xs) = f x ++ concat_map f xs

  abbrev pub All {κ} : (A → Type κ) → List A → Type κ
  All P [] = Unit
  All P (x ∷ xs) = P x × All P xs

  -- No element is the same as an earlier one.
  abbrev pub DistinctBy : (A → A → Bool) → List A → Type 0
  DistinctBy same [] = Unit
  DistinctBy same (x ∷ xs) = (any_of (λ y. same y x) xs ≡ false) × DistinctBy same xs

  pub append-eq-nil : (xs ys : List A) → (xs ++ ys ≡ []) ↔ ((xs ≡ []) × (ys ≡ []))
  append-eq-nil [] ys = (λ h. (refl, h), λ h. h.1)
  append-eq-nil (x ∷ xs) ys = (λ h. absurd (cc), λ h. absurd (cc (h.0)))

  -- Two lists of issues are both empty.
  pub append_iff {κ ι} :
      {P : Type κ} {Q : Type ι} {xs ys : List A}
      → (xs ≡ []) ↔ P
      → (ys ≡ []) ↔ Q
      → (xs ++ ys ≡ []) ↔ (P × Q)
  append_iff {xs} {ys} (f, f') (g, g') = (
    λ h. let (x, y) = (append-eq-nil xs ys).0 h in (f x, g y),
    λ h. (append-eq-nil xs ys).1 (f' h.0, g' h.1),
  )

  pub length-append : (xs ys : List A) → length (xs ++ ys) ≡ length xs + length ys
  length-append [] ys = omega arith
  length-append (x ∷ xs) ys = omega (arith, length-append xs ys)

  pub count_if-append :
      (p : A → Bool) (xs ys : List A) → count_if p (xs ++ ys) ≡ count_if p xs + count_if p ys
  count_if-append p [] ys = omega arith
  count_if-append p (x ∷ xs) ys = omega (arith, count_if-append p xs ys)

  pub any_of-append :
      (p : A → Bool) (xs ys : List A) → any_of p (xs ++ ys) ≡ (any_of p xs || any_of p ys)
  any_of-append p [] ys = refl
  any_of-append p (x ∷ xs) ys = ground (arith, any_of-append p xs ys)

  pub any_of-find_by : (p : A → Bool) (xs : List A) → any_of p xs ≡ is_some (find_by p xs)
  any_of-find_by p [] = refl
  any_of-find_by p (x ∷ xs) = ground (arith, any_of-find_by p xs)

  pub DistinctBy-append :
      (same : A → A → Bool) (xs : List A) (a : A)
      → any_of (same a) xs ≡ false
      → DistinctBy same xs
      → DistinctBy same (xs ++ a ∷ [])
  DistinctBy-append same [] a h d = (refl, tt)
  DistinctBy-append same (x ∷ xs) a h (n, d) = (
    ground (arith, any_of-append (λ y. same y x) xs (a ∷ [])),
    DistinctBy-append same xs a (ground arith) d,
  )

  pub All-append {κ} : (P : A → Type κ) (xs ys : List A) → All P xs → All P ys → All P (xs ++ ys)
  All-append P [] ys h k = k
  All-append P (x ∷ xs) ys (p, h) k = (p, All-append P xs ys h k)

  pub All-map {κ} : (P Q : A → Type κ) (f : (x : A) → P x → Q x) (xs : List A) → All P xs → All Q xs
  All-map P Q f [] h = tt
  All-map P Q f (x ∷ xs) (p, h) = (f x p, All-map P Q f xs h)

pub length-map {ℓ κ} :
    {A : Type ℓ} {B : Type κ} (f : A → B) (xs : List A) → length (map f xs) ≡ length xs
length-map f [] = refl
length-map f (x ∷ xs) = omega (arith, length-map f xs)

-- `s in xs`, on texts
unfoldable pub contains : String → List String → Bool
contains s [] = false
contains s (x ∷ xs) = x == s || contains s xs
