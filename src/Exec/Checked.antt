-- ===== src/Exec/Checked.antt =====
-- Code without effects that may raise: `do` blocks over `Result`.
use carbon_ops_parser.Prelude.{◌≡◌, refl}
use carbon_ops_parser.Exec.{PyException, Result, ok, raised}

-- The computation meets `P` of its result.
abbrev pub Yields : {A : Type 0} → Result A → (Result A → Type 0) → Type 0
Yields r P = P r

module _ {A B : Type 0} where
  infixl 10 ◌>>=◌
  unfoldable pub ◌>>=◌ : Result A → (A → Result B) → Result B
  ok a >>= f = f a
  raised e >>= f = raised e

  -- Either the first computation raised, or the rest ran.
  pub Checked-bind :
      (m : Result A) (f : A → Result B) (P : Result B → Type 0)
      → ((e : PyException) → P (raised e))
      → ((a : A) → m ≡ ok a → Yields (f a) P)
      → Yields (m >>= f) P
  unfolding ◌>>=◌
  Checked-bind (ok a) f P on_raise on_ok = on_ok a refl
  Checked-bind (raised e) f P on_raise on_ok = on_raise e

-- The predicate holds of the value, if there is one.
abbrev pub IfOk : {A : Type 0} → (A → Type 0) → Result A → Type 0
IfOk P (ok a) = P a
IfOk P (raised e) = Unit

pub from_ok : {A : Type 0} (P : A → Type 0) (r : Result A) (a : A) → IfOk P r → r ≡ ok a → P a
from_ok P r a h e = rw e at h
