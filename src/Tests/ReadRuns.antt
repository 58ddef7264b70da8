-- ===== src/Tests/ReadRuns.antt =====
-- The read path and the state of a row at work.
use subscription_service.Entitlements.Resolve.Expiry.{cached_answer_stable}
use subscription_service.Entitlements.Resolve.Tiers.{Granted, NoneAbove}
use subscription_service.Cache.{payload}
use subscription_service.Entitlements.Read.Laws.{resolve_entitlements_miss, read_after_commit}
use subscription_service.Entitlements.Read.Outage.{resolve_entitlements_outage}
use subscription_service.Entitlements.Resolve.Laws.{resolve_from_highest, subscription_tier-grace}
use subscription_service.Policy.{grace_ends_at}
use subscription_service.World.Database.{find_by_user}
use subscription_service.Provider.{RemoteSubscription}
use subscription_service.Effects.{ok}
use subscription_service.Settings.{dunning_grace}
use subscription_service.Entitlements.Read.{resolve_entitlements, try_read}
use subscription_service.World.{World, Db}
use subscription_service.World.Session.{
  stale_key, entitlement_key, cache_call, cache_read, commit_and_invalidate,
}
use subscription_service.Entitlements.Resolve.{
  entitle, is_active, ttl_for, subscription_tier, resolve_from, active_grant_tier,
}
use subscription_service.Prelude.{
  Option, [], arith, false, if◌then◌else◌, inl, ltb, none, refl, some, ◌+◌, ◌∷◌, ◌≡◌, ◌≤◌, ◌⊎◌,
}
use subscription_service.Plans.{limits_for, tier_rank, Tier}
use subscription_service.Models.{Subscription, SubscriptionStatus}
use subscription_service.Cache
use subscription_service.Tests.Samples.{settings, world, row, db}

abbrev late_row : Subscription
late_row = record row {
  tier = Tier.plus;
  status = SubscriptionStatus.past_due;
  past_due_since = some 1_000_000;
}

abbrev late_db : Db
late_db = record db {
  subscriptions = late_row ∷ [];
  grants =
      record {
        id = "g1";
        user_id = "u1";
        tier = Tier.pro;
        expires_at = none;
        reason = "support";
        created_by = "ops";
        revoked_at = none;
      }
      ∷ [];
}

resolve_from_highest_example :
    let e = resolve_from settings 5_000_000 "u1" late_db in
    let paid = subscription_tier settings 5_000_000 (find_by_user "u1" late_db.subscriptions) in
    (tier_rank paid ≤ tier_rank e.tier)
    × NoneAbove 5_000_000 "u1" e.tier late_db.grants
    × ((e.tier ≡ paid) ⊎ Granted 5_000_000 "u1" e.tier late_db.grants)
    × (e.quotas ≡ (limits_for e.tier).quotas)
    × (e.features ≡ (limits_for e.tier).features)
resolve_from_highest_example = resolve_from_highest settings 5_000_000 "u1" late_db

subscription_tier-grace_example :
    subscription_tier settings 5_000_000 (some late_row)
    ≡ (if ltb 5_000_000 (1_000_000 + dunning_grace settings) then Tier.plus else Tier.free)
subscription_tier-grace_example =
    subscription_tier-grace settings 5_000_000 1_000_000 late_row refl refl

cached_answer_stable_example :
    resolve_from settings 60_000_000 "u1" late_db ≡ resolve_from settings 5_000_000 "u1" late_db
unfolding active_grant_tier ttl_for resolve_from find_by_user grace_ends_at is_active entitle
cached_answer_stable_example =
    cached_answer_stable settings 5_000_000 60_000_000 "u1" late_db (omega arith) (omega arith) refl

-- the world after a row went past due, with an outdated answer in the cache
abbrev cached_world : World (Option RemoteSubscription)
cached_world = record world {
  db = late_db;
  marks = "u1" ∷ [];
  cache =
      (entitlement_key "u1", (payload (resolve_from settings 5_000_000 "u1" db), 65_000_000))
      ∷ (stale_key "u1", (payload (resolve_from settings 5_000_000 "u1" db), 9_000_000_000))
      ∷ [];
}

resolve_entitlements_miss_example :
    (resolve_entitlements settings "u2" cached_world).0
    ≡ ok (resolve_from settings 5_000_000 "u2" late_db)
unfolding try_read cache_read cache_call Cache.get
resolve_entitlements_miss_example = resolve_entitlements_miss settings "u2" cached_world refl refl

read_after_commit_example :
    let w' = (commit_and_invalidate cached_world).1 in
    (w'.saved ≡ late_db)
    × ((resolve_entitlements settings "u1" w').0
        ≡ ok (resolve_from settings 5_000_000 "u1" w'.saved))
read_after_commit_example = read_after_commit settings "u1" cached_world refl refl refl

-- half a day after a read, the short copy is gone and the database is down
abbrev read_world : World (Option RemoteSubscription)
read_world = record world { db = late_db; saved = late_db }

abbrev dark_world : World (Option RemoteSubscription)
dark_world = record read_world {
  db_up = false;
  now = 40_000_000_000;
  cache = (resolve_entitlements settings "u1" read_world).1.cache;
}

resolve_entitlements_outage_example :
    ((resolve_entitlements settings "u1" read_world).0
      ≡ ok (resolve_from settings 5_000_000 "u1" late_db))
    × ((resolve_entitlements settings "u1" dark_world).0
        ≡ (resolve_entitlements settings "u1" read_world).0)
unfolding Cache.get
resolve_entitlements_outage_example =
    resolve_entitlements_outage settings "u1" read_world dark_world refl refl refl refl refl
      (omega arith) refl (inl refl)
