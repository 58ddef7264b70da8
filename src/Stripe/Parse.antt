-- ===== src/Stripe/Parse.antt =====
-- app/stripe_client.py, the parsing: Stripe's payloads become the values of app/billing_provider.py.
-- `none` is an exception, or a value of a type that Stripe does not document for its place.
pub mod Shapes
pub mod Status
use subscription_service.Prelude.{
  present, Bool, Dict, List, Option, String, [], any, eqb, false, if◌then◌else◌, lookup, none, not,
  some, true, ℕ, ◌&&◌, ◌*◌, ◌==◌, ◌∷◌,
}
use subscription_service.Json.{
  as_dict, as_number, as_text, as_values, as_string, or_else, truthy, get_key, require_key, Json,
  Values, ◌>>=◌,
}
use subscription_service.Json.{null, text, array, object, nil, cons, end, Json, Values}
use subscription_service.Plans.{BillingInterval, monthly, annual}
use subscription_service.Models.{SubscriptionStatus, Discount}
use subscription_service.Provider.{RemotePrice, RemoteSubscription, RemoteCustomer}
use subscription_service.Settings.{second}

-- _STATUSES
abbrev statuses : Dict SubscriptionStatus
statuses =
    ("active", SubscriptionStatus.active)
    ∷ ("trialing", SubscriptionStatus.trialing)
    ∷ ("past_due", SubscriptionStatus.past_due)
    ∷ ("unpaid", SubscriptionStatus.past_due)
    ∷ ("paused", SubscriptionStatus.paused)
    ∷ ("incomplete", SubscriptionStatus.incomplete)
    ∷ ("incomplete_expired", SubscriptionStatus.free)
    ∷ ("canceled", SubscriptionStatus.free)
    ∷ []

or_free : Option SubscriptionStatus → SubscriptionStatus
or_free none = SubscriptionStatus.free
or_free (some status) = status

-- `_STATUSES.get(name, FREE)`
unfoldable pub status_named : String → SubscriptionStatus
unfolding or_free
status_named name = or_free (lookup name statuses)

-- `name in _ENDED`
unfoldable pub is_ended : String → Bool
is_ended name = any (λ n. n == name) ("canceled" ∷ "incomplete_expired" ∷ [])

-- _INTERVALS
unfoldable pub interval_named : Option String → Option BillingInterval
interval_named none = none
interval_named (some name) = lookup name (("month", monthly) ∷ ("year", annual) ∷ [])

-- `(value.get(key) or {})`
unfoldable pub section : String → Json → Option Json
section key raw = do v ← get_key key raw; some (or_else v (object end))

expanded_price : Json → Option (Option RemotePrice)
expanded_price price = do
  recurring ← section "recurring" price
  id ← require_key "id" price
  id' ← as_string id
  interval ← get_key "interval" recurring
  interval' ← as_text interval
  metadata ← section "metadata" price
  tier ← get_key "tier" metadata
  tier' ← as_text tier
  some (some (record { id = id'; interval = interval_named interval'; tier = present tier' }))

price_by_kind : Json → Option (Option RemotePrice)
unfolding expanded_price
price_by_kind (text id) = some (some (record { id = id; interval = none; tier = none }))
price_by_kind price = expanded_price price

-- `_price`
unfoldable pub parse_price : Json → Option (Option RemotePrice)
unfolding price_by_kind
parse_price price = if truthy price then price_by_kind price else some none

-- `_ts`: 0 is no time
unfoldable pub timestamp : Option ℕ → Option ℕ
timestamp none = none
timestamp (some n) = if eqb n 0 then none else some (n * second)

-- `(raw.get("items") or {}).get("data") or []`
unfoldable pub line_items : Json → Option Values
line_items raw = do
  items ← section "items" raw
  listed ← get_key "data" items
  as_values (or_else listed (array nil))

period_of_item : Values → Option (Json × Json)
period_of_item nil = some (null, null)
period_of_item (cons first rest) = do
  start ← get_key "current_period_start" first
  end' ← get_key "current_period_end" first
  some (start, end')

is_null : Json → Bool
is_null null = true
is_null _ = false

-- `_period`
unfoldable pub parse_period : Json → Option (Json × Json)
unfolding is_null period_of_item
parse_period raw = do
  start ← get_key "current_period_start" raw
  end' ← get_key "current_period_end" raw
  if not (is_null start) && not (is_null end')
      then some (start, end')
      else (do items ← line_items raw; period_of_item items)

first_or : Values → Json → Json
first_or nil default = default
first_or (cons v vs) default = v

-- a value where it is a dictionary, else None
unfoldable pub if_dict : Json → Json
if_dict (object fs) = object fs
if_dict _ = null

discount_fields : Json → Json → Option (Option Discount)
discount_fields raw null = some none
discount_fields raw coupon = do
  coupon_id ← get_key "id" coupon
  name ← get_key "name" coupon
  percent_off ← get_key "percent_off" coupon
  amount_off ← get_key "amount_off" coupon
  currency ← get_key "currency" coupon
  duration ← get_key "duration" coupon
  duration_in_months ← get_key "duration_in_months" coupon
  promotion_code ← get_key "promotion_code" raw
  ends_at ← get_key "end" raw
  some (
      some (record {
        coupon_id = coupon_id;
        name = name;
        percent_off = percent_off;
        amount_off = amount_off;
        currency = currency;
        duration = duration;
        duration_in_months = duration_in_months;
        promotion_code = promotion_code;
        ends_at = ends_at;
      }))

-- the discount once it is known to be expanded
expanded_discount : Json → Option (Option Discount)
unfolding discount_fields
expanded_discount raw = do
  source ← section "source" raw
  by_source ← get_key "coupon" source
  direct ← get_key "coupon" raw
  discount_fields raw (or_else (if_dict by_source) (if_dict direct))

discount_by_kind : Json → Option (Option Discount)
unfolding expanded_discount
discount_by_kind (text id) = some none
discount_by_kind raw = if truthy raw then expanded_discount raw else some none

-- `_discount`
unfoldable pub parse_discount : Json → Option (Option Discount)
unfolding first_or discount_by_kind
parse_discount raw = do
  listed ← get_key "discounts" raw
  discounts ← as_values (or_else listed (array nil))
  single ← get_key "discount" raw
  discount_by_kind (first_or discounts single)

-- `customer.get("id") if isinstance(customer, dict) else customer`
unfoldable pub customer_ref : Json → Option (Option String)
customer_ref (object fs) = do id ← get_key "id" (object fs); as_text id
customer_ref customer = as_text customer

price_of_items : Values → Option (Option RemotePrice)
price_of_items nil = some none
price_of_items (cons first rest) = do price ← get_key "price" first; parse_price price

-- `tuple(item["id"] for item in items if item.get("id"))`
unfoldable pub item_ids_of : Values → Option (List String)
item_ids_of nil = some []
item_ids_of (cons item rest) = do
  ids ← item_ids_of rest
  id ← get_key "id" item
  if truthy id then (do s ← as_string id; some (s ∷ ids)) else some ids

-- `parse_subscription`
unfoldable pub parse_subscription : Json → Option RemoteSubscription
unfolding price_of_items
parse_subscription raw = do
  status ← get_key "status" raw
  provider_status ← as_string (or_else status (text ""))
  customer ← get_key "customer" raw
  (period_start, period_end) ← parse_period raw
  items ← line_items raw
  id ← require_key "id" raw
  id' ← as_string id
  customer_id ← customer_ref customer
  price ← price_of_items items
  item_ids ← item_ids_of items
  start ← as_number period_start
  end' ← as_number period_end
  cancel ← get_key "cancel_at_period_end" raw
  trial ← get_key "trial_end" raw
  trial_end ← as_number trial
  discount ← parse_discount raw
  metadata ← section "metadata" raw
  metadata' ← as_dict metadata
  some (record {
    id = id';
    customer_id = customer_id;
    status = status_named provider_status;
    provider_status = provider_status;
    ended = is_ended provider_status;
    price = price;
    item_ids = item_ids;
    period_start = timestamp start;
    period_end = timestamp end';
    cancel_at_period_end = truthy cancel;
    trial_end = timestamp trial_end;
    discount = discount;
    metadata = metadata';
  })

-- `parse_customer`
unfoldable pub parse_customer : Json → Option RemoteCustomer
parse_customer raw = do
  id ← require_key "id" raw
  id' ← as_string id
  metadata ← section "metadata" raw
  user_id ← get_key "user_id" metadata
  user_id' ← as_text user_id
  some (record { id = id'; user_id = user_id' })
