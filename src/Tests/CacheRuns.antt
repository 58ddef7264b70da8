-- ===== src/Tests/CacheRuns.antt =====
-- The cache at work.
use subscription_service.Prelude.{List, [], arith, none, ℕ, ◌∷◌, ◌≡◌}
use subscription_service.Cache.{number}
use subscription_service.Cache.Calls.{
  CacheCall, reading, writing, dropping, counting, run_backend, run_spec,
}
use subscription_service.Cache.Refines.{run_backend-run_spec}

-- a count that ends, is read too late, and begins again
abbrev calls : List (ℕ × CacheCall)
calls =
    (0, counting "k" 60)
    ∷ (1_000_000, counting "k" 60)
    ∷ (2_000_000, writing "j" (number 7) 10)
    ∷ (60_000_000, reading "k")
    ∷ (60_000_000, counting "k" 60)
    ∷ (61_000_000, dropping "j")
    ∷ []

run_backend-run_spec_example : run_backend calls [] ≡ run_spec calls (λ k. none)
run_backend-run_spec_example =
    run_backend-run_spec calls
      (omega arith, (omega arith, (omega arith, (omega arith, (omega arith, (omega arith, tt))))))
