-- ===== src/Effects/Triple.antt =====
-- Pre- and postconditions of actions, one rule for each way to build an action.
-- `Triple P Q E m`: from a state with `P`, `m` either returns a value in a state with `Q`, or raises
-- in a state with `E`.
use subscription_service.Prelude.{Bool, false, if◌then◌else◌, refl, true, ◌≡◌}
use subscription_service.Effects.{Exec, Result, ok, err, continue, pure, raise, ◌>>=◌, Error}

abbrev pub OnOutcome : {S A : Type 0} → (A → S → Type 0) → (S → Type 0) → Result A → S → Type 0
OnOutcome Q E (ok a) s = Q a s
OnOutcome Q E (err e) s = E s

pub record Triple {S A : Type 0} (P : S → Type 0) (Q : A → S → Type 0) (E : S → Type 0)
    (m : Exec S A) : Type 0 where
  pub at : (s : S) → P s → OnOutcome Q E (m s).0 (m s).1

module _ {S A : Type 0} {P E : S → Type 0} {Q : A → S → Type 0} where
  pub Triple-pure : (a : A) → ((s : S) → P s → Q a s) → Triple P Q E (pure a)
  Triple-pure a h = record { at = h }

  pub Triple-raise : (e : Error) → ((s : S) → P s → E s) → Triple P Q E (raise e)
  Triple-raise e h = record { at = h }

  pub Triple-if :
      (b : Bool) (m n : Exec S A)
      → (b ≡ true → Triple P Q E m)
      → (b ≡ false → Triple P Q E n)
      → Triple P Q E (if b then m else n)
  Triple-if true m n km kn = km refl
  Triple-if false m n km kn = kn refl

module _ {S A B : Type 0} {E : S → Type 0} {Q : A → S → Type 0} {Q' : B → S → Type 0} where
  Triple-continue :
      (r : Result A) (s : S) (f : A → Exec S B)
      → OnOutcome Q E r s
      → ((a : A) → Triple (Q a) Q' E (f a))
      → OnOutcome Q' E (continue r f s).0 (continue r f s).1
  Triple-continue (ok a) s f h k = (k a).at s h
  Triple-continue (err e) s f h k = h

module _ {S A B : Type 0} {P E : S → Type 0} {Q : A → S → Type 0} {Q' : B → S → Type 0} where
  pub Triple-bind :
      (m : Exec S A) (f : A → Exec S B)
      → Triple P Q E m
      → ((a : A) → Triple (Q a) Q' E (f a))
      → Triple P Q' E (m >>= f)
  unfolding ◌>>=◌
  Triple-bind m f km k = record { at = λ s h. Triple-continue (m s).0 (m s).1 f (km.at s h) k }

module _ {S A : Type 0} (P : S → Type 0) where
  pub OnOutcome-both : (r : Result A) (s : S) → P s → OnOutcome (λ _. P) P r s
  OnOutcome-both (ok a) s h = h
  OnOutcome-both (err e) s h = h

  pub Triple-keeps : (m : Exec S A) → ((s : S) → P s → P (m s).1) → Triple P (λ _. P) P m
  Triple-keeps m h = record { at = λ s p. OnOutcome-both (m s).0 (m s).1 (h s p) }

  OnOutcome-end : (r : Result A) (s : S) → OnOutcome (λ _. P) P r s → P s
  OnOutcome-end (ok a) s h = h
  OnOutcome-end (err e) s h = h

  -- Read back: the state at the end has the property.
  pub Triple-end : (m : Exec S A) (s : S) → Triple P (λ _. P) P m → P s → P (m s).1
  Triple-end m s t h = OnOutcome-end (m s).0 (m s).1 (t.at s h)

  pub Triple-after :
      {P' : S → Type 0} (m : Exec S A) (s : S) → Triple P' (λ _. P) P m → P' s → P (m s).1
  Triple-after m s t h = OnOutcome-end (m s).0 (m s).1 (t.at s h)
