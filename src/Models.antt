-- ===== src/Models.antt =====
-- app/models.py: the status vocabulary and the rows. A text column that only ever holds the
-- `.value` of an enumeration is that enumeration here; times are microseconds since 1970 (UTC), as
-- Postgres returns them, so `as_utc` of app/timeutil.py is the identity. A subscription row is known
-- by its unique `user_id`; its surrogate `id`, `created_at` and `updated_at` are read by nothing.
use subscription_service.Prelude.{eqb, ℕ, String, Bool, true, false, Option}
use subscription_service.Json.{Json}
use subscription_service.Plans.{Tier, BillingInterval}

pub data SubscriptionStatus : Type 0 where
  free trialing active past_due incomplete paused : SubscriptionStatus

-- `SubscriptionStatus.grants_access`, membership in PAID_STATUSES
abbrev pub grants_access : SubscriptionStatus → Bool
grants_access free = false
grants_access trialing = true
grants_access active = true
grants_access past_due = true
grants_access incomplete = false
grants_access paused = false

abbrev pub is_past_due : SubscriptionStatus → Bool
is_past_due free = false
is_past_due trialing = false
is_past_due active = false
is_past_due past_due = true
is_past_due incomplete = false
is_past_due paused = false

abbrev pub is_free : SubscriptionStatus → Bool
is_free free = true
is_free trialing = false
is_free active = false
is_free past_due = false
is_free incomplete = false
is_free paused = false

abbrev pub status_index : SubscriptionStatus → ℕ
status_index free = 0
status_index trialing = 1
status_index active = 2
status_index past_due = 3
status_index incomplete = 4
status_index paused = 5

-- `a == b` for two statuses
abbrev pub same_status : SubscriptionStatus → SubscriptionStatus → Bool
same_status a b = eqb (status_index a) (status_index b)

-- what `stripe_client._discount` flattens a discount into
pub record Discount : Type 0 where
  pub coupon_id : Json
  pub name : Json
  pub percent_off : Json
  pub amount_off : Json
  pub currency : Json
  pub duration : Json
  pub duration_in_months : Json
  pub promotion_code : Json
  pub ends_at : Json

pub record Subscription : Type 0 where
  pub user_id : String
  pub tier : Tier
  pub status : SubscriptionStatus
  pub stripe_customer_id : Option String
  pub stripe_subscription_id : Option String
  pub stripe_price_id : Option String
  pub billing_interval : Option BillingInterval
  pub current_period_start : Option ℕ
  pub current_period_end : Option ℕ
  pub cancel_at_period_end : Bool
  pub trial_end : Option ℕ
  pub past_due_since : Option ℕ
  pub disputed_at : Option ℕ
  pub discount : Option Discount

-- the life of a webhook event
pub data EventStatus : Type 0 where
  processing processed failed : EventStatus

pub record ProcessedEvent : Type 0 where
  pub event_id : String
  pub event_type : String
  pub status : EventStatus
  pub error : Bool
  pub completed_at : Option ℕ

pub record UsageCounter : Type 0 where
  pub user_id : String
  pub key : String
  pub window_start : ℕ
  pub window_end : ℕ
  pub count : ℕ

pub record EntitlementGrant : Type 0 where
  pub id : String
  pub user_id : String
  pub tier : Tier
  pub expires_at : Option ℕ
  pub reason : String
  pub created_by : String
  pub revoked_at : Option ℕ

pub record SubscriptionAudit : Type 0 where
  pub user_id : String
  pub from_tier : Option Tier
  pub to_tier : Option Tier
  pub from_status : Option SubscriptionStatus
  pub to_status : Option SubscriptionStatus
  pub reason : String
  pub stripe_event_id : Option String
  pub created_at : ℕ
