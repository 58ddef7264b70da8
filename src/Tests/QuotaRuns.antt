-- ===== src/Tests/QuotaRuns.antt =====
-- Quotas at work.
use subscription_service.Effects.{ok}
use subscription_service.Quota.Consume.{consume_at-limit, consume_at, admitted}
use subscription_service.Quota.Window.Bounds.{window_for_bounds}
use subscription_service.Calendar.{midnight}
use subscription_service.Quota.Durable.{mirror_usage-IsOneMore, seen_counters, IsOneMore}
use subscription_service.Entitlements.Resolve.{
  subscription_tier, active_grant_tier, effective_tier, entitle, resolve_from,
}
use subscription_service.Provider.{RemoteSubscription}
use subscription_service.Quota.Upgrade.{upgrade_tier_for}
use subscription_service.Entitlements.{Entitlements, quota_for}
use subscription_service.World.{World}
use subscription_service.Quota.Upgrade.Laws.{upgrade_tier_for-IsLowest, IsBestUpgrade}
use subscription_service.Quota.{QuotaState, consume, mirror_usage}
use subscription_service.Quota.Window.{quota_ttl, window_for}
use subscription_service.Quota.Outage.{consume-fails_open, consume-pending, pending}
use subscription_service.Prelude.{
  Option, [], arith, none, refl, some, true, ◌*◌, ◌+◌, ◌<◌, ◌∷◌, ◌≡◌, ◌≤◌,
}
use subscription_service.Plans.{limits_for, Tier, Quota, daily, billing_period}
use subscription_service.World.Database.{find_by_user}
use subscription_service.Settings.{second, one_day}
use subscription_service.Tests.Samples.{settings, world, db}

abbrev free_user : Entitlements
free_user = resolve_from settings 5_000_000 "u9" db

abbrev three_uploads : Quota
three_uploads = record { key = "file_uploads_per_day"; limit = some 3; window = daily }

consume_at-limit_example :
    admitted (
      consume_at "u9" "file_uploads_per_day" free_user
        (5_000_000 ∷ 6_000_000 ∷ 7_000_000 ∷ 8_000_000 ∷ 9_000_000 ∷ [])
        world)
    ≡ 3
unfolding quota_for resolve_from window_for midnight quota_ttl limits_for find_by_user entitle
    effective_tier active_grant_tier subscription_tier
consume_at-limit_example =
    consume_at-limit "u9" "file_uploads_per_day" free_user three_uploads 3 5_000_000
      (6_000_000 ∷ 7_000_000 ∷ 8_000_000 ∷ 9_000_000 ∷ []) world refl refl refl refl
      ((omega arith, refl), ((omega arith, refl), ((omega arith, refl), ((omega arith, refl), tt))))

window_for_bounds_example :
    let (start, end) = window_for billing_period 5_000_000 free_user in
    (start ≤ 5_000_000)
    × (5_000_000 < end)
    × (end < 5_000_000 + (quota_ttl 5_000_000 end + 1) * second)
window_for_bounds_example = window_for_bounds billing_period 5_000_000 free_user

upgrade_tier_for-IsLowest_example :
    IsBestUpgrade "messages_per_day" Tier.free (upgrade_tier_for "messages_per_day" Tier.free)
upgrade_tier_for-IsLowest_example = upgrade_tier_for-IsLowest "messages_per_day" Tier.free

abbrev failing_world : World (Option RemoteSubscription)
failing_world = record world { cache_faults = true ∷ [] }

consume-fails_open_example :
    let (r, w') = consume "u9" "file_uploads_per_day" free_user failing_world in
    let (start, end) = window_for daily 5_000_000 free_user in
    let state : QuotaState = record {
      key = "file_uploads_per_day";
      limit = some 3;
      used = 0;
      remaining = some 3;
      reset_at = none;
    } in
    (r ≡ ok state)
    × IsOneMore "u9" "file_uploads_per_day" start
        (seen_counters "u9" "file_uploads_per_day" start failing_world)
        w'.saved.counters
unfolding quota_for resolve_from limits_for find_by_user entitle effective_tier active_grant_tier
    subscription_tier
consume-fails_open_example =
    consume-fails_open "u9" "file_uploads_per_day" free_user three_uploads [] failing_world refl
      refl refl

consume-pending_example :
    pending (consume "u9" "file_uploads_per_day" free_user world).1 ≡ pending world
consume-pending_example = consume-pending "u9" "file_uploads_per_day" free_user world

mirror_usage-IsOneMore_example :
    let w' = mirror_usage "u1" "messages_per_day" 0 one_day world in
    IsOneMore "u1" "messages_per_day" 0
      (seen_counters "u1" "messages_per_day" 0 world)
      w'.saved.counters
    × (w'.saved ≡ record db { counters = w'.saved.counters })
    × (w'.db ≡ record db { counters = w'.saved.counters })
    × (w'.marks ≡ [])
mirror_usage-IsOneMore_example = mirror_usage-IsOneMore "u1" "messages_per_day" 0 one_day world refl
