-- ===== src/Tests/ServiceRuns.antt =====
-- The service at work.
use subscription_service.Prelude.{
  Bool, Option, String, [], false, is_some, none, present, refl, some, true, ◌==◌, ◌∷◌, ◌≡◌,
}
use subscription_service.Plans.{Tier, monthly}
use subscription_service.Effects.{ok}
use subscription_service.World.{World}
use subscription_service.Provider.{RemoteSubscription, BillingProvider}
use subscription_service.Billing.{CheckoutKey, CheckoutOrder, start_checkout}
use subscription_service.Billing.Guards.{IsAdmitted, start_checkout-IsAdmitted}
use subscription_service.Plans.Prices.{price_id_for}
use subscription_service.Plans.{limits_for}
use subscription_service.Sync.Mirror.Sound.{IsSound}
use subscription_service.Api.{in_session, cancel}
use subscription_service.Webhooks.{signed, WebhookEvent, stripe_webhook}
use subscription_service.Service.{Deployment, start, later, delivered, cancelled}
use subscription_service.Service.Invariant.{Reach-IsSound}
use subscription_service.Api.Cancel.{cancel_mirrors}
use subscription_service.Models.{Subscription, SubscriptionStatus}
use subscription_service.World.Database.{find_by_user, find_by_customer, clashes}
use subscription_service.Sync.{write_state, project, resolve_tier}
use subscription_service.Plans.Prices.{price_catalog}
use subscription_service.Sync.Idempotent.{HasRow}
use subscription_service.Tests.Samples.{row, db, paying, settings, stripe, world, empty_world}

abbrev digest : CheckoutKey → String
digest key = key.price_id

abbrev order : CheckoutOrder
order = record {
  user_id = "u1";
  email = none;
  tier = Tier.plus;
  interval = monthly;
  success_url = none;
  cancel_url = none;
  promo_code = none;
}

-- a free row, and nothing at Stripe
abbrev unpaid_world : World (Option RemoteSubscription)
unpaid_world = record world { remote = none }

start_checkout-IsAdmitted_example :
    ((limits_for Tier.plus).purchasable ≡ true)
    × (is_some (present (price_id_for settings.stripe_price_ids Tier.plus monthly)) ≡ true)
    × IsAdmitted digest settings stripe order unpaid_world
unfolding start_checkout limits_for price_id_for subscription_service.Plans.Prices.price_catalog
    subscription_service.Effects.◌>>=◌ subscription_service.Sync.Mirror.get_or_create_subscription
    subscription_service.Sync.Mirror.get_subscription subscription_service.World.Session.query
    subscription_service.World.Database.find_by_user
    subscription_service.World.Session.provider_call
start_checkout-IsAdmitted_example =
    start_checkout-IsAdmitted digest settings stripe order unpaid_world refl

abbrev deployment : Deployment (Option RemoteSubscription)
deployment = record {
  settings = settings;
  stripe = stripe;
  flags = none;
  digest = digest;
  missing = λ ids. some [];
  notifier = none;
}

abbrev paid_event : WebhookEvent
paid_event = record {
  event_id = "evt_1";
  event_type = "invoice.paid";
  customer = some "cus_1";
  charge = none;
}

-- a delivery brings a paying customer, who then cancels
abbrev paid_world : World (Option RemoteSubscription)
paid_world = (in_session (stripe_webhook settings stripe (signed paid_event)) empty_world).1

abbrev cancelled_world : World (Option RemoteSubscription)
cancelled_world = (in_session (cancel settings stripe "u1") paid_world).1

Reach-IsSound_example :
    IsSound cancelled_world.saved.subscriptions × (cancelled_world.db ≡ cancelled_world.saved)
Reach-IsSound_example = Reach-IsSound deployment (
    later (later (start empty_world refl refl refl) (delivered (signed paid_event)))
      (cancelled "u1"))

-- a Stripe that keeps the flag of its subscription
abbrev flag_kept : Bool → Option RemoteSubscription → Option RemoteSubscription
flag_kept value none = none
flag_kept value (some sub) = some (record sub { cancel_at_period_end = value })

abbrev keeping : BillingProvider (Option RemoteSubscription)
keeping = record stripe { set_cancel_at_period_end = λ id value r. (ok tt, flag_kept value r) }

-- a paying customer's row
abbrev live_row : Subscription
live_row = record row {
  tier = Tier.plus;
  status = SubscriptionStatus.active;
  stripe_subscription_id = some "sub_1";
}

abbrev live_world : World (Option RemoteSubscription)
live_world = record world {
  db = record db { subscriptions = live_row ∷ [] };
  saved = record db { subscriptions = live_row ∷ [] };
}

live_world-HasRow : HasRow "cus_1" live_row live_world
unfolding find_by_customer find_by_user clashes
live_world-HasRow = record { up = refl; unlocked = refl; unique = (refl, refl, tt); found = refl }

cancel_mirrors_example :
    let (result, w') = cancel settings keeping "u1" live_world in
    let sub' =
      write_state 5_000_000 live_row (
        project settings.stripe_price_ids (some (record paying { cancel_at_period_end = true }))) in
    (result ≡ ok sub')
    × (find_by_user "u1" w'.saved.subscriptions ≡ some sub')
    × ((j : String)
        → ("u1" == j) ≡ false
        → find_by_user j w'.saved.subscriptions ≡ find_by_user j (live_row ∷ []))
    × (w'.marks ≡ [])
unfolding find_by_user clashes write_state project resolve_tier price_catalog
cancel_mirrors_example =
    cancel_mirrors settings keeping "u1" "cus_1" "sub_1" live_world live_world-HasRow refl refl refl
      refl refl refl refl refl
