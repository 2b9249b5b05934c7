-- ===== src/Exec/Ensures.antt =====
-- Postconditions of actions, and a rule for each way to build an action.
use carbon_ops_parser.Prelude.{◌≡◌, refl}
use carbon_ops_parser.Exec.{PyException, Result, ok, raised, Exec, ◌>>=◌, try_except}

-- From `w` the action meets `Q` of the result and the final world.
abbrev pub Ensures {ℓ κ} : {W A : Type ℓ} → Exec W A → W → (Result A → W → Type κ) → Type κ
Ensures m w Q = Q (m w).0 (m w).1

module _ {ℓ κ} {W A B : Type ℓ} where
  -- Either the first action raised, or the rest ran from where it ended.
  pub Ensures-bind :
      (m : Exec W A) (f : A → Exec W B) (w : W) (Q : Result B → W → Type κ)
      → ((e : PyException) → (m w).0 ≡ raised e → Q (raised e) (m w).1)
      → ((a : A) → (m w).0 ≡ ok a → Ensures (f a) (m w).1 Q)
      → Ensures (m >>= f) w Q
  unfolding ◌>>=◌
  Ensures-bind m f w Q on_raise on_ok = go (m w).0 refl
    where
      go : (r : Result A) → (m w).0 ≡ r → Ensures (m >>= f) w Q
      go (ok a) e = rw e (on_ok a e)
      go (raised x) e = rw e (on_raise x e)

  pub Ensures-try :
      (m : Exec W A) (h : PyException → Exec W B) (f : A → Exec W B) (w : W)
      (Q : Result B → W → Type κ)
      → ((e : PyException) → (m w).0 ≡ raised e → Ensures (h e) (m w).1 Q)
      → ((a : A) → (m w).0 ≡ ok a → Ensures (f a) (m w).1 Q)
      → Ensures (try_except m h f) w Q
  unfolding try_except
  Ensures-try m h f w Q on_raise on_ok = go (m w).0 refl
    where
      go : (r : Result A) → (m w).0 ≡ r → Ensures (try_except m h f) w Q
      go (ok a) e = rw e (on_ok a e)
      go (raised x) e = rw e (on_raise x e)
