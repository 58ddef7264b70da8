-- ===== src/Billing/Portal.antt =====
-- app/services/subscriptions.py: `open_portal` and `_plan_change_flow`.
pub mod Keeps
use subscription_service.Prelude.{
  List, Option, String, [], if◌then◌else◌, none, opt_eq, present, some, ◌∷◌,
}
use subscription_service.Plans.{Tier, BillingInterval, limits_for}
use subscription_service.Models.{Subscription}
use subscription_service.Settings.{Settings}
use subscription_service.Provider.{BillingProvider, RemoteSubscription, PortalFlow}
use subscription_service.Effects.{Exec, pure, raise, billing_error, integrity_error, ◌>>=◌}
use subscription_service.World.{World}
use subscription_service.World.Session.{provider_call}
use subscription_service.Sync.Mirror.{get_subscription}
use subscription_service.Plans.Prices.{price_id_for}

items_of : Option RemoteSubscription → List String
items_of none = []
items_of (some remote) = remote.item_ids

-- the flow for a subscription of a single item
flow_of : String → String → List String → Option PortalFlow
flow_of subscription price (item ∷ []) =
    some (record { subscription = subscription; item = item; price = price })
flow_of subscription price _ = none

module _ {R : Type 0} (settings : Settings) (stripe : BillingProvider R) where
  flow_at : String → String → Option String → Exec (World R) (Option PortalFlow)
  unfolding items_of flow_of
  flow_at price id none = raise integrity_error
  flow_at price id (some customer) = do
    remote ← provider_call (stripe.fetch_current_subscription customer)
    pure (flow_of id price (items_of remote))

  flow_for : Subscription → Option String → Option String → Exec (World R) (Option PortalFlow)
  unfolding flow_at
  flow_for sub (some price) (some id) =
      if opt_eq sub.stripe_price_id (some price)
      then pure none
      else flow_at price id sub.stripe_customer_id
  flow_for sub _ _ = pure none

  -- `_plan_change_flow`
  unfoldable pub plan_change_flow :
      Subscription → Tier × BillingInterval → Exec (World R) (Option PortalFlow)
  unfolding flow_for
  plan_change_flow sub (tier, interval) =
      if (limits_for tier).purchasable
      then flow_for sub (present (price_id_for settings.stripe_price_ids tier interval))
          (present sub.stripe_subscription_id)
      else pure none

  target_flow : Subscription → Option (Tier × BillingInterval) → Exec (World R) (Option PortalFlow)
  target_flow sub none = pure none
  target_flow sub (some target) = plan_change_flow sub target

  url_or_default : Option String → String
  url_or_default none = settings.portal_return_url
  url_or_default (some url) = url

  portal_at :
      Option String
      → Option (Tier × BillingInterval)
      → Subscription
      → Option String
      → Exec (World R) String
  unfolding target_flow url_or_default
  portal_at return_url target sub none = raise (billing_error 404)
  portal_at return_url target sub (some customer) = do
    flow ← target_flow sub target
    provider_call (stripe.create_portal_session customer (url_or_default (present return_url)) flow)

  portal_for :
      Option String → Option (Tier × BillingInterval) → Option Subscription → Exec (World R) String
  unfolding portal_at
  portal_for return_url target none = raise (billing_error 404)
  portal_for return_url target (some sub) =
      portal_at return_url target sub (present sub.stripe_customer_id)

  -- `open_portal`
  unfoldable pub open_portal :
      String → Option String → Option (Tier × BillingInterval) → Exec (World R) String
  unfolding portal_for
  open_portal user_id return_url target = do
    found ← get_subscription user_id
    portal_for return_url target found
