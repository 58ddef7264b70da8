-- ===== src/Tests/StripeRuns.antt =====
-- Payloads of Stripe's at work.
use subscription_service.Prelude.{[], false, none, refl, some, true, ◌∷◌, ◌≡◌}
use subscription_service.Json.{
  Json, Values, Fields, null, text, number, boolean, array, object, nil, cons, field, end,
}
use subscription_service.Models.{SubscriptionStatus}
use subscription_service.Plans.{monthly}
use subscription_service.Provider.{remote_grants_access, RemoteSubscription}
use subscription_service.Stripe.Parse.{parse_subscription}
use subscription_service.Stripe.Parse.Shapes.{Parts, recent, legacy, parse_subscription-legacy}
use subscription_service.Stripe.Current.{current}
use subscription_service.Stripe.Access.{SomePaid, current-access}

abbrev plus_price : Json
plus_price = object (
    field "id" (text "price_plus")
      (field "recurring" (object (field "interval" (text "month") end)) end))

-- a subscription with a coupon
abbrev couponed : Parts
couponed = record {
  id = "sub_1";
  status = "active";
  customer = "cus_1";
  item_id = "si_1";
  price = plus_price;
  period_start = 1;
  period_end = 9;
  cancel_at_period_end = false;
  trial_end = null;
  discount = some (record {
    coupon_id = "co_1";
    coupon = field "percent_off" (number 20) end;
    promotion_code = text "promo_1";
    ends_at = null;
  });
  metadata = field "user_id" (text "u1") end;
}

parse_subscription-legacy_example :
    parse_subscription (recent couponed) ≡ parse_subscription (legacy couponed)
parse_subscription-legacy_example = parse_subscription-legacy couponed

abbrev ended_payload : Json
ended_payload = legacy (record couponed { id = "sub_0"; status = "canceled"; discount = none })

abbrev late_payload : Json
late_payload = legacy (record couponed { id = "sub_2"; status = "past_due"; discount = none })

abbrev late_remote : RemoteSubscription
late_remote = record {
  id = "sub_2";
  customer_id = some "cus_1";
  status = SubscriptionStatus.past_due;
  provider_status = "past_due";
  ended = false;
  price = some (record { id = "price_plus"; interval = some monthly; tier = none });
  item_ids = "si_1" ∷ [];
  period_start = some 1_000_000;
  period_end = some 9_000_000;
  cancel_at_period_end = false;
  trial_end = none;
  discount = none;
  metadata = ("user_id", "u1") ∷ [];
}

current-access_example :
    (remote_grants_access late_remote ≡ true
      → SomePaid (cons ended_payload (cons late_payload nil)))
    × (SomePaid (cons ended_payload (cons late_payload nil))
        → remote_grants_access late_remote ≡ true)
unfolding current subscription_service.Json.◌>>=◌ subscription_service.Json.get_key
    subscription_service.Json.as_string subscription_service.Json.truthy
    subscription_service.Json.as_values subscription_service.Json.require_key
    subscription_service.Json.as_text subscription_service.Json.as_dict
    subscription_service.Json.as_number subscription_service.Json.as_texts
    subscription_service.Stripe.Current.first_with subscription_service.Stripe.Current.has_status
    subscription_service.Stripe.Current.created_at legacy parse_subscription
    subscription_service.Stripe.Parse.parse_period subscription_service.Stripe.Parse.line_items
    subscription_service.Stripe.Parse.section subscription_service.Stripe.Parse.customer_ref
    subscription_service.Stripe.Parse.parse_price subscription_service.Stripe.Parse.if_dict
    subscription_service.Stripe.Parse.interval_named subscription_service.Stripe.Parse.is_ended
    subscription_service.Stripe.Parse.item_ids_of subscription_service.Stripe.Parse.parse_discount
    subscription_service.Stripe.Parse.status_named subscription_service.Stripe.Parse.timestamp
current-access_example =
    current-access (cons ended_payload (cons late_payload nil)) {chosen = late_payload}
      {r = late_remote} refl refl
