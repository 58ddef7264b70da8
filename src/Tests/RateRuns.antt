-- ===== src/Tests/RateRuns.antt =====
-- Rate limits at work.
use subscription_service.RateLimit.Laws.{enforce-IsRefusal, IsRefusal, enforce-fails_open}
use subscription_service.Cache.{number}
use subscription_service.Effects.{rate_limited, ok}
use subscription_service.Provider.{RemoteSubscription}
use subscription_service.RateLimit.{
  retry_after, bucket_of, rate_key, contact_sales_windows, enforce,
}
use subscription_service.World.{World}
use subscription_service.Prelude.{Option, [], refl, true, ◌∷◌, ◌≡◌}
use subscription_service.Cache
use subscription_service.Decimal.{decimal}
use subscription_service.World.Session.{cache_call}
use subscription_service.RateLimit.{count_request}
use subscription_service.Tests.Samples.{settings, world}

-- the caller's counter of this hour is at its limit
abbrev busy_world : World (Option RemoteSubscription)
busy_world = record world {
  cache = (rate_key "contact" "hour" "10.0.0.1" 0, (number 5, 3_600_000_000)) ∷ [];
}

enforce-IsRefusal_example :
    IsRefusal "contact" (rate_limited "contact" 5 3_600 3_595) (contact_sales_windows settings)
unfolding enforce contact_sales_windows bucket_of retry_after count_request cache_call Cache.incr
    rate_key decimal
enforce-IsRefusal_example =
    enforce-IsRefusal "contact" "10.0.0.1" (contact_sales_windows settings) busy_world refl

enforce-fails_open_example :
    (enforce "contact" "10.0.0.1"
      (contact_sales_windows settings)
      (record busy_world { cache_faults = true ∷ [] })).0
    ≡ ok tt
enforce-fails_open_example =
    enforce-fails_open "contact" "10.0.0.1" (contact_sales_windows settings) []
      (record busy_world { cache_faults = true ∷ [] }) refl
