-- ===== src/Policy.antt =====
-- app/policy.py: the dunning grace window of a subscription row.
use subscription_service.Prelude.{none, ◌+◌, ◌+◌, leb, some, if◌then◌else◌, false, Option, Bool, ℕ}
use subscription_service.Models.{is_past_due, Subscription}
use mathlib.Core.Option
use subscription_service.Settings.{Settings, dunning_grace}

-- the end of the window of a row that is past due since a known time
unfoldable pub grace_ends_at : Settings → Subscription → Option ℕ
grace_ends_at settings sub =
    if is_past_due sub.status
    then Option.map (λ started. started + dunning_grace settings) sub.past_due_since
    else none

unfoldable pub reached : ℕ → Option ℕ → Bool
reached now none = false
reached now (some ends) = leb ends now

unfoldable pub grace_expired : Settings → ℕ → Subscription → Bool
unfolding reached grace_ends_at
grace_expired settings now sub = reached now (grace_ends_at settings sub)
