-- ===== src/Exec.antt =====
-- Python code with effects: an action on a world that returns a value or raises. What was done
-- before an exception stays done, so the world comes back beside the exception too.
pub mod Ensures
pub mod Checked
use carbon_ops_parser.Prelude.{String, Option, none, some, List, [], ◌∷◌, lookup}

-- An instance of `Exception`: its class name and its `str()`. (`KeyboardInterrupt` and the other
-- exceptions that `except Exception` does not catch end the process and are left out.)
pub record PyException : Type 0 where
  pub class_name : String
  pub text : String

pub data Result {ℓ} (A : Type ℓ) : Type ℓ where
  ok : A → Result A
  raised : PyException → Result A

abbrev pub Exec {ℓ} : Type ℓ → Type ℓ → Type ℓ
Exec W A = W → Result A × W

module _ {ℓ} {W A : Type ℓ} where
  abbrev pub pure : A → Exec W A
  pure a w = (ok a, w)

  abbrev pub raise : PyException → Exec W A
  raise e w = (raised e, w)

  abbrev pub lift : Result A → Exec W A
  lift r w = (r, w)

module _ {ℓ} {W A B : Type ℓ} where
  abbrev pub continue : (A → Exec W B) → Result A → Exec W B
  continue f (ok a) w = f a w
  continue f (raised e) w = (raised e, w)

  infixl 10 ◌>>=◌ ◌>>◌
  unfoldable pub ◌>>=◌ : Exec W A → (A → Exec W B) → Exec W B
  ◌>>=◌ m f w = let (r, w') = m w in continue f r w'

  abbrev pub ◌>>◌ : Exec W A → Exec W B → Exec W B
  m >> n = m >>= λ _. n

  abbrev pub handle : (A → Exec W B) → (PyException → Exec W B) → Result A → Exec W B
  handle f h (ok a) w = f a w
  handle f h (raised e) w = h e w

  -- `try: a = m` with `except Exception as e: return h(e)`, and the rest `f` after the block.
  unfoldable pub try_except : Exec W A → (PyException → Exec W B) → (A → Exec W B) → Exec W B
  try_except m h f w = let (r, w') = m w in handle f h r w'

abbrev pub key_error : String → PyException
key_error key = record { class_name = "KeyError"; text = key }

abbrev pub value_error : String → PyException
value_error text = record { class_name = "ValueError"; text = text }

abbrev pub or_key_error {ℓ} : {V : Type ℓ} → String → Option V → Result V
or_key_error key none = raised (key_error key)
or_key_error key (some v) = ok v

-- `mapping[key]`
unfoldable pub subscript {ℓ} : {V : Type ℓ} → List (String × V) → String → Result V
unfolding lookup
subscript mapping key = or_key_error key (lookup key mapping)
