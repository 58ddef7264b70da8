-- ===== src/Prelude/Membership.antt =====
-- What stands in a list, by recursion into a universe.
use mathlib.Core.Path.{◌≡◌, refl, sym, ap, ◌∙◌}
use mathlib.Core.Logic.{◌⊎◌, inl, inr}
use mathlib.Core.Bool.{Bool, true}
use mathlib.Core.List.{List, [], ◌∷◌, ◌++◌, map}
use subscription_service.Prelude.Tests.{Bool-cases}
use subscription_service.Prelude.Lists.{select}

module _ {A : Type 0} where
  abbrev pub IsIn : A → List A → Type 0
  IsIn x [] = ⊥
  IsIn x (y ∷ ys) = (x ≡ y) ⊎ IsIn x ys

  pub IsIn-select :
      (test : A → Bool) (x : A) (xs : List A) → IsIn x xs → test x ≡ true → IsIn x (select test xs)
  IsIn-select test x [] h passes = h
  IsIn-select test x (y ∷ ys) (inl same) passes = rw (ap test (sym same) ∙ passes) (inl same)
  IsIn-select test x (y ∷ ys) (inr later) passes = elim (Bool-cases (test y)) [
    | inl kept ↦ rw kept (inr (IsIn-select test x ys later passes))
    | inr left ↦ rw left (IsIn-select test x ys later passes)
  ]

  kept_or_later :
      (test : A → Bool) (x y : A) (ys rest : List A)
      → test y ≡ true
      → (IsIn x rest → IsIn x ys × (test x ≡ true))
      → IsIn x (y ∷ rest)
      → IsIn x (y ∷ ys) × (test x ≡ true)
  kept_or_later test x y ys rest kept found (inl same) = (inl same, ap test same ∙ kept)
  kept_or_later test x y ys rest kept found (inr later) = (inr (found later).0, (found later).1)

  -- what a selection holds stood in the list and passed the test
  pub select-IsIn :
      (test : A → Bool) (x : A) (xs : List A)
      → IsIn x (select test xs)
      → IsIn x xs × (test x ≡ true)
  select-IsIn test x [] h = absurd h
  select-IsIn test x (y ∷ ys) h = elim (Bool-cases (test y)) [
    | inl kept ↦
        kept_or_later test x y ys (select test ys) kept (select-IsIn test x ys) (rw kept at h)
    | inr left ↦ let (found, passes) = select-IsIn test x ys (rw left at h) in (inr found, passes)
  ]

  pub IsIn-append : (x : A) (xs ys : List A) → IsIn x xs ⊎ IsIn x ys → IsIn x (xs ++ ys)
  IsIn-append x [] ys (inl h) = absurd h
  IsIn-append x [] ys (inr h) = h
  IsIn-append x (y ∷ xs) ys (inl (inl same)) = inl same
  IsIn-append x (y ∷ xs) ys (inl (inr later)) = inr (IsIn-append x xs ys (inl later))
  IsIn-append x (y ∷ xs) ys (inr h) = inr (IsIn-append x xs ys (inr h))

module _ {A B : Type 0} where
  pub IsIn-map : (f : A → B) (x : A) (xs : List A) → IsIn x xs → IsIn (f x) (map f xs)
  IsIn-map f x [] h = h
  IsIn-map f x (y ∷ ys) (inl same) = inl (ap f same)
  IsIn-map f x (y ∷ ys) (inr later) = inr (IsIn-map f x ys later)

  pub map-IsIn :
      (f : A → B) (y : B) (xs : List A) → IsIn y (map f xs) → (x : A) × IsIn x xs × (f x ≡ y)
  map-IsIn f y [] h = absurd h
  map-IsIn f y (x ∷ xs) (inl same) = (x, inl refl, sym same)
  map-IsIn f y (x ∷ xs) (inr later) =
      let (found, inside, same) = map-IsIn f y xs later in (found, inr inside, same)
