-- ===== src/Sync.antt =====
-- app/services/subscriptions.py, the pure part: which tier a price stands for, whose subscription it
-- is, and what the local row should say (`project`, `_write`).
pub mod Mirror
pub mod Project
pub mod Existing
pub mod Marks
pub mod Idempotent
use subscription_service.Plans.Prices.{price_catalog}
use subscription_service.Plans.{tiers, tier_value, BillingInterval, Tier}
use subscription_service.Models.{is_past_due, is_free, Discount, SubscriptionStatus, Subscription}
use subscription_service.Prelude.{
  refl, eq_iff, ◌≡◌, ◌≡◌, ◌==◌, ◌==◌, if◌then◌else◌, is_some, true, lookup, none, find, false, some,
  ℕ, Bool, String, Option, Dict,
}
use mathlib.Core.Option
use mathlib.Core.Bool.{decide, decide_iff}
use native.Mathlib.Decide.{ℕ_discrete}
use subscription_service.Provider.{RemotePrice, RemoteSubscription, remote_grants_access}
use subscription_service.Settings.{Settings}

-- `Tier(text)`; an empty text names no tier, so the test `if price.tier` is this lookup's failure
unfoldable pub tier_named : String → Option Tier
tier_named name = find (λ t. tier_value t == name) tiers

metadata_tier : Option String → Option Tier
unfolding tier_named
metadata_tier none = none
metadata_tier (some name) = tier_named name

-- the configured pair, or else the metadata of the price
resolve_configured :
    Option (Tier × BillingInterval) → RemotePrice → Option Tier × Option BillingInterval
unfolding metadata_tier
resolve_configured (some (tier, interval)) price = (some tier, some interval)
resolve_configured none price = (metadata_tier price.tier, price.interval)

unfoldable pub resolve_tier :
    Dict String → Option RemotePrice → Option Tier × Option BillingInterval
unfolding resolve_configured
resolve_tier prices none = (none, none)
resolve_tier prices (some price) = resolve_configured (lookup price.id (price_catalog prices)) price

unfoldable pub belongs_to_this_service : Dict String → Option RemoteSubscription → Bool
unfolding resolve_tier
belongs_to_this_service prices none = false
belongs_to_this_service prices (some remote) = is_some (resolve_tier prices remote.price).0

pub record MirroredState : Type 0 where
  pub tier : Tier
  pub status : SubscriptionStatus
  pub stripe_subscription_id : Option String
  pub stripe_price_id : Option String
  pub billing_interval : Option BillingInterval
  pub current_period_start : Option ℕ
  pub current_period_end : Option ℕ
  pub cancel_at_period_end : Bool
  pub trial_end : Option ℕ
  pub discount : Option Discount

-- NO_SUBSCRIPTION
abbrev pub no_subscription : MirroredState
no_subscription = record {
  tier = Tier.free;
  status = SubscriptionStatus.free;
  stripe_subscription_id = none;
  stripe_price_id = none;
  billing_interval = none;
  current_period_start = none;
  current_period_end = none;
  cancel_at_period_end = false;
  trial_end = none;
  discount = none;
}

-- only a status that grants access carries a tier, and only a known price names one
carried_tier : Bool → Option Tier → Tier
carried_tier true (some tier) = tier
carried_tier true none = Tier.free
carried_tier false tier = Tier.free

project_live : RemoteSubscription → Option Tier × Option BillingInterval → MirroredState
unfolding carried_tier
project_live remote (tier, interval) = record {
  tier = carried_tier (remote_grants_access remote) tier;
  status = remote.status;
  stripe_subscription_id = some remote.id;
  stripe_price_id = Option.map (λ (p : RemotePrice). p.id) remote.price;
  billing_interval = interval;
  current_period_start = remote.period_start;
  current_period_end = remote.period_end;
  cancel_at_period_end = remote.cancel_at_period_end;
  trial_end = remote.trial_end;
  discount = remote.discount;
}

unfoldable pub project : Dict String → Option RemoteSubscription → MirroredState
unfolding project_live
project prices none = no_subscription
project prices (some remote) =
    if is_free remote.status
    then no_subscription
    else project_live remote (resolve_tier prices remote.price)

-- `past_due_since` under `_write`: set on entry, kept while past due, cleared on the way out
dunning_start : ℕ → SubscriptionStatus → Option ℕ → Option ℕ
dunning_start now status since =
    if is_past_due status then (if is_some since then since else some now) else none

-- `_write`
unfoldable pub write_state : ℕ → Subscription → MirroredState → Subscription
unfolding dunning_start
write_state now sub state = record sub {
  past_due_since = dunning_start now state.status sub.past_due_since;
  tier = state.tier;
  status = state.status;
  stripe_subscription_id = state.stripe_subscription_id;
  stripe_price_id = state.stripe_price_id;
  billing_interval = state.billing_interval;
  current_period_start = state.current_period_start;
  current_period_end = state.current_period_end;
  cancel_at_period_end = state.cancel_at_period_end;
  trial_end = state.trial_end;
  discount = state.discount;
}

-- `_fingerprint`
pub record Fingerprint : Type 0 where
  pub tier : Tier
  pub status : SubscriptionStatus
  pub stripe_price_id : Option String
  pub current_period_start : Option ℕ
  pub current_period_end : Option ℕ
  pub cancel_at_period_end : Bool
  pub trial_end : Option ℕ
  pub past_due_since : Option ℕ
  pub discount : Option Discount

unfoldable pub fingerprint : Subscription → Fingerprint
fingerprint sub = record {
  tier = sub.tier;
  status = sub.status;
  stripe_price_id = sub.stripe_price_id;
  current_period_start = sub.current_period_start;
  current_period_end = sub.current_period_end;
  cancel_at_period_end = sub.cancel_at_period_end;
  trial_end = sub.trial_end;
  past_due_since = sub.past_due_since;
  discount = sub.discount;
}

String-decide : (s t : String) (b : Bool) → (s == t) ≡ b → Dec (s ≡ t)
String-decide s t true h = yes ((eq_iff s t).0 h)
String-decide s t false h = no (λ e. cc ((eq_iff s t).1 e))

String-discrete : Discrete String
unfolding String-decide
String-discrete s t = String-decide s t (s == t) refl

Tier-discrete : Discrete Tier
Tier-discrete = hlevel

Fingerprint-discrete : Discrete Fingerprint
Fingerprint-discrete = hlevel (ℕ_discrete, String-discrete)

-- `_fingerprint(a) == _fingerprint(b)`
unfoldable pub same_fingerprint : Subscription → Subscription → Bool
unfolding Fingerprint-discrete String-discrete decide
same_fingerprint a b = decide (Fingerprint-discrete (fingerprint a) (fingerprint b))

pub same_fingerprint-eq :
    (a b : Subscription) → same_fingerprint a b ≡ true → fingerprint a ≡ fingerprint b
unfolding same_fingerprint
same_fingerprint-eq a b h = (decide_iff (Fingerprint-discrete (fingerprint a) (fingerprint b))).0 h

pub same_fingerprint_refl :
    (a b : Subscription) → fingerprint a ≡ fingerprint b → same_fingerprint a b ≡ true
unfolding same_fingerprint
same_fingerprint_refl a b h =
    (decide_iff (Fingerprint-discrete (fingerprint a) (fingerprint b))).1 h

-- the row of `get_or_create_subscription`
abbrev pub new_row : String → Subscription
new_row uid = record {
  user_id = uid;
  tier = Tier.free;
  status = SubscriptionStatus.free;
  stripe_customer_id = none;
  stripe_subscription_id = none;
  stripe_price_id = none;
  billing_interval = none;
  current_period_start = none;
  current_period_end = none;
  cancel_at_period_end = false;
  trial_end = none;
  past_due_since = none;
  disputed_at = none;
  discount = none;
}
