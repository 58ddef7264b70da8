-- ===== src/Entitlements/Resolve/Expiry.antt =====
-- How long an answer may be cached: `_ttl_for` against the dunning grace window.
use subscription_service.Models.{Subscription}
use subscription_service.Settings.{Settings, second}
use subscription_service.Policy.{grace_ends_at, reached, grace_expired}
use subscription_service.Prelude.{
  String, Option, arith, none, refl, some, ℕ, ◌*◌, ◌+◌, ◌<◌, ◌≡◌, ◌≤◌,
}
use subscription_service.Entitlements.Resolve.{
  cap_at, capped, subscription_tier, row_grace, ttl_for, resolve_from, active_grant_tier, entitle,
}
use subscription_service.World.{Db}
use subscription_service.World.Database.{find_by_user}

capped_bounds :
    (ttl now ends : ℕ)
    → now < ends
    → (capped ttl now ends ≤ ttl) × (now + capped ttl now ends * second ≤ ends)
unfolding capped
capped_bounds ttl now ends h = ground arith

reached_stable :
    (ttl now later : ℕ) (ends : Option ℕ)
    → now ≤ later
    → later < now + cap_at ttl now ends * second
    → reached later ends ≡ reached now ends
unfolding reached cap_at
reached_stable ttl now later none p q = refl
reached_stable ttl now later (some ends) p q = ground (arith, capped_bounds ttl now ends)

grace_stable :
    (settings : Settings) (now later : ℕ) (sub : Subscription)
    → now ≤ later
    → later < now + cap_at settings.entitlement_cache_ttl now (grace_ends_at settings sub) * second
    → grace_expired settings later sub ≡ grace_expired settings now sub
unfolding grace_expired
grace_stable settings now later sub p q =
    reached_stable settings.entitlement_cache_ttl now later (grace_ends_at settings sub) p q

-- the paid tier of a row does not change while an answer about it is cached
paid_tier_stable :
    (settings : Settings) (now later : ℕ) (sub : Option Subscription)
    → now ≤ later
    → later < now + cap_at settings.entitlement_cache_ttl now (row_grace settings sub) * second
    → subscription_tier settings later sub ≡ subscription_tier settings now sub
unfolding row_grace subscription_tier
paid_tier_stable settings now later none p q = refl
paid_tier_stable settings now later (some sub) p q = rw (grace_stable settings now later sub p q)

-- Until the time for which an answer is cached has passed, the tables give the same answer, provided
-- that no grant of the user expires in between.
pub cached_answer_stable :
    (settings : Settings) (now later : ℕ) (user_id : String) (db : Db)
    → now ≤ later
    → later < now + ttl_for settings now (resolve_from settings now user_id db) * second
    → active_grant_tier later user_id db.grants ≡ active_grant_tier now user_id db.grants
    → resolve_from settings later user_id db ≡ resolve_from settings now user_id db
unfolding resolve_from entitle ttl_for
cached_answer_stable settings now later user_id db p q granted =
    rw (granted, paid_tier_stable settings now later (find_by_user user_id db.subscriptions) p q)
