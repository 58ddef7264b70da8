-- ===== src/Entitlements/Resolve.antt =====
-- app/services/entitlements.py: `_active_grant_tier`, `_resolve_from_db` and `_ttl_for`, on the
-- tables as one statement reads them.
pub mod Tiers
pub mod Laws
pub mod Expiry
use subscription_service.World.Database.{find_by_user}
use subscription_service.Policy.{grace_expired, grace_ends_at}
use subscription_service.World.{Db}
use subscription_service.Models.{grants_access, SubscriptionStatus, EntitlementGrant, Subscription}
use subscription_service.Settings.{Settings, second}
use subscription_service.Prelude.{
  Bool, List, Option, String, [], false, if◌then◌else◌, is_some, leb, ltb, min, none, not, select,
  some, true, ℕ, ◌&&◌, ◌-◌, ◌/◌, ◌==◌, ◌∷◌,
}
use subscription_service.Entitlements.{Entitlements, Source}
use subscription_service.Plans.{same_tier, tier_rank, Tier, limits_for, higher_tier}

-- a grant of the user that is neither revoked nor expired
unfoldable pub unexpired : ℕ → Option ℕ → Bool
unexpired now none = true
unexpired now (some expires_at) = ltb now expires_at

unfoldable pub is_active : ℕ → String → EntitlementGrant → Bool
unfolding unexpired
is_active now user_id g =
    (g.user_id == user_id) && not (is_some g.revoked_at) && unexpired now g.expires_at

-- `max(tiers, key=...)`, the first of the highest
unfoldable pub best_tier : Tier → List EntitlementGrant → Tier
best_tier t [] = t
best_tier t (g ∷ gs) = best_tier (if ltb (tier_rank t) (tier_rank g.tier) then g.tier else t) gs

unfoldable pub max_tier : List EntitlementGrant → Option Tier
max_tier [] = none
max_tier (g ∷ gs) = some (best_tier g.tier gs)

unfoldable pub active_grant_tier : ℕ → String → List EntitlementGrant → Option Tier
unfolding max_tier
active_grant_tier now user_id grants = max_tier (select (is_active now user_id) grants)

-- the tier that the row pays for now
unfoldable pub subscription_tier : Settings → ℕ → Option Subscription → Tier
subscription_tier settings now none = Tier.free
subscription_tier settings now (some sub) =
    if grants_access sub.status && not (grace_expired settings now sub) then sub.tier else Tier.free

unfoldable pub effective_tier : Tier → Option Tier → Tier
effective_tier paid none = paid
effective_tier paid (some granted) = higher_tier paid granted

source_of_paid : Tier → Source
source_of_paid paid = if same_tier paid Tier.free then Source.default else Source.subscription

unfoldable pub source_of : Tier → Option Tier → Source
unfolding source_of_paid
source_of paid none = source_of_paid paid
source_of paid (some granted) =
    if ltb (tier_rank paid) (tier_rank granted) then Source.grant else source_of_paid paid

-- the fields that are read off the row, if there is one
row_status : Option Subscription → SubscriptionStatus
row_status none = SubscriptionStatus.free
row_status (some sub) = sub.status

row_start : Option Subscription → Option ℕ
row_start none = none
row_start (some sub) = sub.current_period_start

row_end : Option Subscription → Option ℕ
row_end none = none
row_end (some sub) = sub.current_period_end

row_cancel : Option Subscription → Bool
row_cancel none = false
row_cancel (some sub) = sub.cancel_at_period_end

row_grace : Settings → Option Subscription → Option ℕ
row_grace settings none = none
row_grace settings (some sub) = grace_ends_at settings sub

unfoldable pub entitle : Settings → ℕ → String → Option Subscription → Option Tier → Entitlements
unfolding row_status row_start row_end row_cancel row_grace
entitle settings now user_id sub granted =
    let paid = subscription_tier settings now sub in
    let definition = limits_for (effective_tier paid granted) in
    record {
      user_id = user_id;
      tier = effective_tier paid granted;
      display_name = definition.display_name;
      status = row_status sub;
      source = source_of paid granted;
      features = definition.features;
      quotas = definition.quotas;
      current_period_start = row_start sub;
      current_period_end = row_end sub;
      cancel_at_period_end = row_cancel sub;
      grace_ends_at = row_grace settings sub;
    }

-- `_resolve_from_db`
unfoldable pub resolve_from : Settings → ℕ → String → Db → Entitlements
resolve_from settings now user_id db =
    entitle settings now user_id (find_by_user user_id db.subscriptions)
      (active_grant_tier now user_id db.grants)

-- the configured time under the boundary `ends`; 0 means that the answer is not cached
capped : ℕ → ℕ → ℕ → ℕ
capped ttl now ends =
    if leb ends now
    then ttl
    else if ltb (ends - now) second
    then 0
    else min ttl ((ends - now) / second)

cap_at : ℕ → ℕ → Option ℕ → ℕ
unfolding capped
cap_at ttl now none = ttl
cap_at ttl now (some ends) = capped ttl now ends

-- `_ttl_for`, in seconds
unfoldable pub ttl_for : Settings → ℕ → Entitlements → ℕ
unfolding cap_at
ttl_for settings now e = cap_at settings.entitlement_cache_ttl now e.grace_ends_at
