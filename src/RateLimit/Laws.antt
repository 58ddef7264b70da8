-- ===== src/RateLimit/Laws.antt =====
-- What `enforce` may answer.
use subscription_service.World.{World}
use subscription_service.Effects.{ok, Result, err, Exec, rate_limited, Error}
use subscription_service.RateLimit.{count_request, bucket_of, Window, enforce, retry_after, judge}
use subscription_service.Prelude.{
  Bool, Bool-cases, List, String, [], arith, eqb, inl, inr, ltb, max, refl, true, ℕ, ◌*◌, ◌+◌, ◌/◌,
  ◌<◌, ◌∷◌, ◌≡◌, ◌≤◌, ◌⊎◌,
}
use subscription_service.Settings.{second}
use native.Mathlib.Nat.{div-add-mod'}
use subscription_service.World.Session.{cache_call}

-- the refusal of an enabled window among these, with a wait of a second at least that is not longer
-- than the window
abbrev pub IsRefusal : String → Error → List Window → Type 0
IsRefusal scope x [] = ⊥
IsRefusal scope x (window ∷ windows) =
    ((wait : ℕ) × (x ≡ rate_limited scope window.limit window.seconds wait)
      × (0 < window.limit)
      × (1 ≤ wait)
      × (wait ≤ max 1 window.seconds))
    ⊎ IsRefusal scope x windows

next_bucket : (q s : ℕ) → (q + 1) * s * second ≡ q * (s * second) + s * second
next_bucket q s = grind arith

retry_after_bounds :
    (now seconds : ℕ) → (1 ≤ retry_after now seconds) × (retry_after now seconds ≤ max 1 seconds)
unfolding retry_after bucket_of
retry_after_bounds now seconds =
    let size = seconds * second in
    let start = div-add-mod' now size in
    let next = next_bucket (now / size) seconds in
    let within : (now / size + 1) * seconds * second ≤ now + size = omega (arith, start, next) in
    omega (arith, within)

module _ {R : Type 0} where
  judge-IsRefusal :
      (scope : String) (window : Window) (windows : List Window) (rest : Exec (World R) (Unit {0}))
      (p : Result ℕ × World R) (x : Error)
      → (0 < window.limit)
      → ((w : World R) → (rest w).0 ≡ err x → IsRefusal scope x windows)
      → (judge scope window rest p).0 ≡ err x
      → IsRefusal scope x (window ∷ windows)
  unfolding judge
  judge-IsRefusal scope window windows rest (err e, w) x on ih h = cc
  judge-IsRefusal scope window windows rest (ok used, w) x on ih h =
      elim (Bool-cases (ltb window.limit used)) [
        | inl over ↦
            let (a, b) = retry_after_bounds w.now window.seconds in
            let h' = rw over at h in inl (retry_after w.now window.seconds, cc, on, a, b)
        | inr under ↦ inr (ih w (rw under at h))
      ]

  -- The only exception of `enforce` is the refusal of one of its windows that is enabled, and the wait
  -- that it names is at least a second and at most the length of that window.
  pub enforce-IsRefusal :
      (scope identity : String) (windows : List Window) (w : World R) {x : Error}
      → (enforce scope identity windows w).0 ≡ err x
      → IsRefusal scope x windows
  unfolding enforce
  enforce-IsRefusal scope identity [] w h = cc
  enforce-IsRefusal scope identity (window ∷ windows) w {x} h =
      elim (Bool-cases (eqb window.limit 0)) [
        | inl off ↦ inr (enforce-IsRefusal scope identity windows w (rw off at h))
        | inr on ↦
            judge-IsRefusal scope window windows (enforce scope identity windows)
              (count_request scope identity window w) x (ground (arith, on))
              (λ w' h'. enforce-IsRefusal scope identity windows w' h') (rw on at h)
      ]

  -- When the next call of the cache fails, a request is let through, whatever the windows are.
  pub enforce-fails_open :
      (scope identity : String) (windows : List Window) (faults : List Bool) (w : World R)
      → w.cache_faults ≡ true ∷ faults
      → (enforce scope identity windows w).0 ≡ ok tt
  unfolding enforce judge count_request cache_call
  enforce-fails_open scope identity [] faults w failing = refl
  enforce-fails_open scope identity (window ∷ windows) faults w failing =
      elim (Bool-cases (eqb window.limit 0)) [
        | inl off ↦ rw off (enforce-fails_open scope identity windows faults w failing)
        | inr on ↦ rw (on, failing) refl
      ]
