-- ===== src/Billing.antt =====
-- app/services/subscriptions.py, what a customer asks for: checkout, cancellation at the end of the
-- period, its undoing, and the portal. The digest of an idempotency key (JSON and SHA-256) is a
-- parameter. The text of an error is left out, its HTTP code is kept.
pub mod Keeps
pub mod Guards
pub mod Portal
use subscription_service.Calendar.{month_of}
use subscription_service.Decimal.{decimal}
use subscription_service.Prelude.{
  All, Bool, Bool-cases, Dict, IsDistinct, List, Option, Option-cases, String, [], any, ap,
  append-nil, append_assoc, arith, eq_iff, eq_refl, eqb, false, find, if◌then◌else◌, inl, inr,
  insert, insert-IsDistinct, is_some, leb, length, length-append, lookup, lookup-insert,
  lookup-remove, ltb, map, max, min, none, not, opt_eq, present, refl, remove, select, some,
  some-injective, subst, suc, sym, true, zero, ℕ, ◌%◌, ◌&&◌, ◌*◌, ◌++◌, ◌+◌, ◌-◌, ◌/◌, ◌<◌, ◌==◌,
  ◌||◌, ◌∙◌, ◌∷◌, ◌≡◌, ◌≢◌, ◌≤◌, ◌⊎◌,
}
use Prim.Native.String.{◌++◌ as append}
use subscription_service.Plans.{Tier, BillingInterval, limits_for}
use subscription_service.Models.{Subscription, grants_access}
use subscription_service.Settings.{Settings, one_day}
use subscription_service.Provider.{
  BillingProvider, RemoteSubscription, CheckoutParams, CheckoutSession, PortalFlow,
  remote_grants_access,
}
use subscription_service.Effects.{
  Exec, Result, ok, err, pure, raise, raise_if, gets, billing_error, integrity_error, ◌>>=◌, ◌>>◌,
}
use subscription_service.World.{World}
use subscription_service.World.Session.{provider_call, flush_row}
use subscription_service.Sync.Mirror.{
  get_subscription, get_or_create_subscription, sync_subscription,
}
use subscription_service.Timestamps.{date_text}
use subscription_service.Plans.Prices.{price_id_for}

-- what the key of a checkout is the digest of
pub record CheckoutKey : Type 0 where
  pub user_id : String
  pub price_id : String
  pub success_url : String
  pub cancel_url : String
  pub promo_code : Option String
  pub trial_period_days : ℕ
  pub automatic_tax : Bool

-- `_checkout_idempotency_key`
unfoldable pub checkout_key : (CheckoutKey → String) → ℕ → CheckoutKey → String
checkout_key digest now key =
    append "checkout:"
      (append key.user_id (append ":" (append (date_text now) (append ":" (digest key)))))

pub record CheckoutOrder : Type 0 where
  pub user_id : String
  pub email : Option String
  pub tier : Tier
  pub interval : BillingInterval
  pub success_url : Option String
  pub cancel_url : Option String
  pub promo_code : Option String

-- `value or default`
or_default : Option String → String → String
or_default value default = elim (present value) [ some s ↦ s | none ↦ default ]

unfoldable pub live_remote : Option RemoteSubscription → Bool
live_remote none = false
live_remote (some remote) = remote_grants_access remote

module _ {R : Type 0} (digest : CheckoutKey → String) (settings : Settings)
    (stripe : BillingProvider R) where
  -- a row that reads as free may lag behind Stripe, so Stripe is asked
  refuse_live : Option String → Exec (World R) (Unit {0})
  unfolding live_remote
  refuse_live none = pure tt
  refuse_live (some customer) = do
    remote ← provider_call (stripe.fetch_current_subscription customer)
    raise_if (live_remote remote) (billing_error 409)

  -- the customer id is stored when it is new
  attach_customer : Subscription → String → Exec (World R) (Unit {0})
  attach_customer sub customer =
      if opt_eq sub.stripe_customer_id (some customer)
      then pure tt
      else flush_row (record sub { stripe_customer_id = some customer })

  open_session : CheckoutOrder → String → String → Exec (World R) CheckoutSession
  unfolding or_default
  open_session order price customer = do
    now ← gets (λ w. w.now)
    let success = or_default order.success_url settings.checkout_success_url
    let cancel = or_default order.cancel_url settings.checkout_cancel_url
    provider_call (
        stripe.create_checkout_session (record {
          customer_id = customer;
          price_id = price;
          user_id = order.user_id;
          success_url = success;
          cancel_url = cancel;
          idempotency_key = checkout_key digest now (record {
            user_id = order.user_id;
            price_id = price;
            success_url = success;
            cancel_url = cancel;
            promo_code = order.promo_code;
            trial_period_days = settings.trial_period_days;
            automatic_tax = settings.automatic_tax;
          });
          trial_period_days = settings.trial_period_days;
          promo_code = order.promo_code;
        }))

  checkout_at : CheckoutOrder → Option String → Exec (World R) CheckoutSession
  unfolding refuse_live attach_customer open_session
  checkout_at order none = raise (billing_error 400)
  checkout_at order (some price) = do
    sub ← get_or_create_subscription order.user_id
    raise_if (grants_access sub.status) (billing_error 409)
    refuse_live (present sub.stripe_customer_id)
    customer ←
        provider_call (stripe.ensure_customer order.user_id order.email sub.stripe_customer_id)
    attach_customer sub customer
    open_session order price customer

  -- `start_checkout`
  unfoldable pub start_checkout : CheckoutOrder → Exec (World R) CheckoutSession
  unfolding checkout_at
  start_checkout order =
      if (limits_for order.tier).purchasable
      then checkout_at order
          (present (price_id_for settings.stripe_price_ids order.tier order.interval))
      else raise (billing_error 400)

module _ {R : Type 0} (settings : Settings) (stripe : BillingProvider R) where
  synced_or : Subscription → Option Subscription → Subscription
  synced_or sub none = sub
  synced_or sub (some sub') = sub'

  -- What a sync of the row's customer leaves, or the row. For a row that has a subscription and no
  -- customer, which no sync writes, the source looks for a row without customer; here that raises.
  resync_or : String → Subscription → Option String → Exec (World R) Subscription
  unfolding synced_or
  resync_or reason sub none = raise integrity_error
  resync_or reason sub (some customer) = do
    synced ← sync_subscription settings stripe reason none customer
    pure (synced_or sub synced)

  cancel_live : Subscription → String → Exec (World R) Subscription
  unfolding resync_or
  cancel_live sub id =
      if not (grants_access sub.status)
      then raise (billing_error 409)
      else if sub.cancel_at_period_end
      then pure sub
      else (do
        provider_call (stripe.set_cancel_at_period_end id true)
        resync_or "customer.cancel_at_period_end" sub sub.stripe_customer_id)

  cancel_named : Subscription → Option String → Exec (World R) Subscription
  unfolding cancel_live
  cancel_named sub none = raise (billing_error 404)
  cancel_named sub (some id) = cancel_live sub id

  cancel_found : Option Subscription → Exec (World R) Subscription
  unfolding cancel_named
  cancel_found none = raise (billing_error 404)
  cancel_found (some sub) = cancel_named sub (present sub.stripe_subscription_id)

  -- `schedule_cancellation`
  unfoldable pub schedule_cancellation : String → Exec (World R) Subscription
  unfolding cancel_found
  schedule_cancellation user_id = do found ← get_subscription user_id; cancel_found found

  resume_live : Subscription → String → Exec (World R) Subscription
  unfolding resync_or
  resume_live sub id = if not sub.cancel_at_period_end then pure sub else (do
    provider_call (stripe.set_cancel_at_period_end id false)
    resync_or "customer.resumed" sub sub.stripe_customer_id)

  resume_named : Subscription → Option String → Exec (World R) Subscription
  unfolding resume_live
  resume_named sub none = raise (billing_error 404)
  resume_named sub (some id) = resume_live sub id

  resume_found : Option Subscription → Exec (World R) Subscription
  unfolding resume_named
  resume_found none = raise (billing_error 404)
  resume_found (some sub) = resume_named sub (present sub.stripe_subscription_id)

  -- `resume_subscription`
  unfoldable pub resume_subscription : String → Exec (World R) Subscription
  unfolding resume_found
  resume_subscription user_id = do found ← get_subscription user_id; resume_found found
