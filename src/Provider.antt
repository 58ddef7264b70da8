-- ===== src/Provider.antt =====
-- app/billing_provider.py: the value objects of the billing provider and the operations that the
-- service asks of it. Stripe itself is not part of the program: `R` is its state, and each operation
-- is a parameter that may fail and may leave Stripe in another state.
use subscription_service.Json.{Json}
use subscription_service.Prelude.{ℕ, String, Bool, Option, List, Dict}
use subscription_service.Plans.{BillingInterval}
use subscription_service.Models.{SubscriptionStatus, Discount, grants_access}
use subscription_service.Effects.{Exec}

pub record RemotePrice : Type 0 where
  pub id : String
  pub interval : Option BillingInterval
  pub tier : Option String

pub record RemoteSubscription : Type 0 where
  pub id : String
  pub customer_id : Option String
  pub status : SubscriptionStatus
  pub provider_status : String
  pub ended : Bool
  pub price : Option RemotePrice
  pub item_ids : List String
  pub period_start : Option ℕ
  pub period_end : Option ℕ
  pub cancel_at_period_end : Bool
  pub trial_end : Option ℕ
  pub discount : Option Discount
  pub metadata : Dict String

-- `RemoteSubscription.grants_access`
abbrev pub remote_grants_access : RemoteSubscription → Bool
remote_grants_access r = grants_access r.status

pub record RemoteCustomer : Type 0 where
  pub id : String
  pub user_id : Option String

pub record SubscriptionPage : Type 0 where
  pub items : List RemoteSubscription
  pub has_more : Bool

-- the arguments of `create_checkout_session`
pub record CheckoutParams : Type 0 where
  pub customer_id : String
  pub price_id : String
  pub user_id : String
  pub success_url : String
  pub cancel_url : String
  pub idempotency_key : String
  pub trial_period_days : ℕ
  pub promo_code : Option String

-- what is read of the session that it answers
pub record CheckoutSession : Type 0 where
  pub id : String
  pub url : String

-- the `subscription_update_confirm` flow: one item of a subscription goes to a price
pub record PortalFlow : Type 0 where
  pub subscription : String
  pub item : String
  pub price : String

pub record BillingProvider (R : Type 0) : Type 0 where
  pub ensure_customer : String → Option String → Option String → Exec R String
  pub retrieve_customer : String → Exec R RemoteCustomer
  pub fetch_current_subscription : String → Exec R (Option RemoteSubscription)
  pub list_subscriptions_page : Option String → Exec R SubscriptionPage
  pub set_cancel_at_period_end : String → Bool → Exec R (Unit {0})
  pub set_subscription_metadata : String → Dict String → Exec R (Unit {0})
  pub create_checkout_session : CheckoutParams → Exec R CheckoutSession
  pub create_portal_session : String → String → Option PortalFlow → Exec R String
  pub retrieve_price : String → Exec R Json
  pub retrieve_charge : String → Exec R (Option String)
