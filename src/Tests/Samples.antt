-- ===== src/Tests/Samples.antt =====
-- A service with one price, a Stripe that holds one subscription, and a database with one row.
use subscription_service.Json.{null}
use subscription_service.Plans.{monthly}
use subscription_service.Effects.{ok}
use subscription_service.Models.{SubscriptionStatus, Subscription}
use subscription_service.Prelude.{Option, [], false, none, some, true, ◌∷◌}
use subscription_service.Settings.{Settings}
use subscription_service.Provider.{BillingProvider, RemoteSubscription}
use subscription_service.World.{World, Db}
use subscription_service.Sync.{new_row}

abbrev pub settings : Settings
settings = record {
  stripe_price_ids = ("plus_monthly", "price_plus") ∷ [];
  dunning_grace_days = 7;
  entitlement_cache_ttl = 60;
  trial_period_days = 0;
  contact_sales_per_hour = 5;
  contact_sales_per_day = 20;
  trust_proxy_headers = false;
  automatic_tax = true;
  stripe_portal_configuration_id = "";
  checkout_success_url = "https://app/success";
  checkout_cancel_url = "https://app/billing";
  portal_return_url = "https://app/billing";
  environment = "production";
  stripe_secret_key = "sk_live_1";
}

-- Stripe's state is the subscription that it lists for every customer.
abbrev pub stripe : BillingProvider (Option RemoteSubscription)
stripe = record {
  ensure_customer = λ user_id email existing r. (ok "cus_1", r);
  retrieve_customer = λ customer r. (ok (record { id = customer; user_id = some "u1" }), r);
  fetch_current_subscription = λ customer r. (ok r, r);
  list_subscriptions_page = λ after r. (ok (record { items = []; has_more = false }), r);
  set_cancel_at_period_end = λ id value r. (ok tt, r);
  set_subscription_metadata = λ id metadata r. (ok tt, r);
  create_checkout_session = λ params r. (ok (record { id = "cs_1"; url = "https://pay" }), r);
  create_portal_session = λ customer return_url flow r. (ok "https://portal", r);
  retrieve_price = λ price r. (ok null, r);
  retrieve_charge = λ charge r. (ok none, r);
}

abbrev pub paying : RemoteSubscription
paying = record {
  id = "sub_1";
  customer_id = some "cus_1";
  status = SubscriptionStatus.active;
  provider_status = "active";
  ended = false;
  price = some (record { id = "price_plus"; interval = some monthly; tier = none });
  item_ids = "si_1" ∷ [];
  period_start = some 1_000_000;
  period_end = some 9_000_000;
  cancel_at_period_end = false;
  trial_end = none;
  discount = none;
  metadata = [];
}

-- on the price of another application
abbrev pub foreign : RemoteSubscription
foreign = record paying {
  price = some (record { id = "price_else"; interval = some monthly; tier = none });
}

abbrev pub orphaned : RemoteSubscription
orphaned = record paying { metadata = ("orphaned_at", "2026-01-01") ∷ [] }

abbrev pub row : Subscription
row = record (new_row "u1") { stripe_customer_id = some "cus_1" }

abbrev pub db : Db
db = record { subscriptions = row ∷ []; audit = []; events = []; grants = []; counters = [] }

abbrev pub world : World (Option RemoteSubscription)
world = record {
  db = db;
  saved = db;
  marks = [];
  cache = [];
  cache_faults = [];
  remote = some paying;
  now = 5_000_000;
  db_up = true;
  locked = [];
  rivals = [];
  rival_events = [];
  rival_counters = [];
}

-- the same with an empty table
abbrev pub empty_db : Db
empty_db = record db { subscriptions = [] }

abbrev pub empty_world : World (Option RemoteSubscription)
empty_world = record world { db = empty_db; saved = empty_db }
