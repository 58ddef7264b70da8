-- ===== src/Effects.antt =====
-- Python's exceptions and mutable state: an action takes the state and returns a result beside the
-- new state. What was written before an exception stays written until somebody rolls it back.
pub mod Triple
use subscription_service.Prelude.{ℕ, String, Bool, Option, true, false, ◌≡◌, refl}
use subscription_service.Plans.{Tier}

-- the exceptions of app/errors.py, and those that the libraries raise
pub data Error : Type 0 where
  billing_error : ℕ → Error
  http_error : ℕ → Error
  -- the key, the limit, the use, the time of the reset, the tier and the tier to upgrade to
  quota_exceeded : String → ℕ → ℕ → ℕ → Tier → Option Tier → Error
  -- the scope, the limit, the seconds of the window and those to wait
  rate_limited : String → ℕ → ℕ → ℕ → Error
  integrity_error database_error lock_timeout provider_error cache_error : Error

pub data Result (A : Type 0) : Type 0 where
  ok : A → Result A
  err : Error → Result A

abbrev pub Exec : Type 0 → Type 0 → Type 0
Exec S A = S → Result A × S

module _ {S A : Type 0} where
  abbrev pub pure : A → Exec S A
  pure a s = (ok a, s)

  abbrev pub raise : Error → Exec S A
  raise e s = (err e, s)

  abbrev pub gets : (S → A) → Exec S A
  gets f s = (ok (f s), s)

abbrev pub modify : {S : Type 0} → (S → S) → Exec S (Unit {0})
modify f s = (ok tt, f s)

module _ {S A B : Type 0} where
  abbrev pub continue : Result A → (A → Exec S B) → Exec S B
  continue (ok a) f s = f a s
  continue (err e) f s = (err e, s)

  infixl 5 ◌>>=◌ ◌>>◌
  unfoldable pub ◌>>=◌ : Exec S A → (A → Exec S B) → Exec S B
  ◌>>=◌ m f s = let (r, s') = m s in continue r f s'

  abbrev pub ◌>>◌ : Exec S A → Exec S B → Exec S B
  m >> n = m >>= λ _. n

-- `if c: raise e`
abbrev pub raise_if : {S : Type 0} → Bool → Error → Exec S (Unit {0})
raise_if true e = raise e
raise_if false e = pure tt

module _ {S A B : Type 0} where
  -- A block that returned did so through each of its parts.
  pub >>=-eq-ok :
      (m : Exec S A) (f : A → Exec S B) (s : S) {b : B} {t : S}
      → (m >>= f) s ≡ (ok b, t)
      → (a : A) × (u : S) × (m s ≡ (ok a, u)) × (f a u ≡ (ok b, t))
  unfolding ◌>>=◌
  >>=-eq-ok m f s {b} {t} h = invert (m s) refl h
    where
      invert :
          (p : Result A × S)
          → m s ≡ p
          → continue p.0 f p.1 ≡ (ok b, t)
          → (a : A) × (u : S) × (m s ≡ (ok a, u)) × (f a u ≡ (ok b, t))
      invert (ok a, u) e h' = (a, u, e, h')
      invert (err x, u) e h' = cc
