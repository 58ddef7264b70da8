-- ===== src/Tests/PlanRuns.antt =====
-- The price catalog at work.
use subscription_service.Prelude.{lookup, refl, some, ◌≡◌}
use subscription_service.Plans.{plus, monthly}
use subscription_service.Plans.Prices.{price_catalog, price_id_for, lookup-price_id_for}
use subscription_service.Tests.Samples.{settings}

lookup-price_id_for_example :
    lookup "price_plus" (price_catalog settings.stripe_price_ids) ≡ some (plus, monthly)
unfolding price_id_for price_catalog
lookup-price_id_for_example =
    lookup-price_id_for settings.stripe_price_ids plus monthly "price_plus" refl
