-- ===== src/Billing/Portal/Keeps.antt =====
-- `open_portal` under the invariant of the service.
use subscription_service.Models.{Subscription}
use subscription_service.Service.Calm.{provider_call-Calm, query-Calm, raise-Calm, pure-Calm, Calm}
use subscription_service.Provider.{BillingProvider}
use subscription_service.Settings.{Settings}
use subscription_service.Prelude.{Option, String, none, opt_eq, present, some}
use subscription_service.Effects.Triple.{Triple-bind, Triple-if}
use subscription_service.Plans.{BillingInterval, Tier, limits_for}
use subscription_service.Billing.Portal.{
  open_portal, portal_for, portal_at, target_flow, plan_change_flow, flow_for, flow_at,
}
use subscription_service.Sync.Mirror.{get_subscription}

module _ {R : Type 0} (settings : Settings) (stripe : BillingProvider R) where
  flow_at-Calm :
      (price id : String) (customer : Option String)
      → Calm (flow_at settings stripe price id customer)
  unfolding flow_at
  flow_at-Calm price id none = raise-Calm _
  flow_at-Calm price id (some customer) =
      Triple-bind _ _ (provider_call-Calm _) λ remote. pure-Calm _

  flow_for-Calm :
      (sub : Subscription) (price id : Option String) → Calm (flow_for settings stripe sub price id)
  unfolding flow_for
  flow_for-Calm sub none id = pure-Calm none
  flow_for-Calm sub (some price) none = pure-Calm none
  flow_for-Calm sub (some price) (some id) =
      Triple-if (opt_eq sub.stripe_price_id (some price)) _ _ (λ _. pure-Calm none)
        λ _. flow_at-Calm price id sub.stripe_customer_id

  target_flow-Calm :
      (sub : Subscription) (target : Option (Tier × BillingInterval))
      → Calm (target_flow settings stripe sub target)
  unfolding target_flow plan_change_flow
  target_flow-Calm sub none = pure-Calm none
  target_flow-Calm sub (some (tier, interval)) =
      Triple-if (limits_for tier).purchasable _ _ (λ _. flow_for-Calm sub _ _) λ _. pure-Calm none

  portal_at-Calm :
      (return_url : Option String) (sub : Subscription) (target : Option (Tier × BillingInterval))
      (customer : Option String)
      → Calm (portal_at settings stripe return_url target sub customer)
  unfolding portal_at
  portal_at-Calm return_url sub target none = raise-Calm _
  portal_at-Calm return_url sub target (some customer) =
      Triple-bind _ _ (target_flow-Calm sub target) λ flow. provider_call-Calm _

  portal_for-Calm :
      (return_url : Option String) (target : Option (Tier × BillingInterval))
      (found : Option Subscription)
      → Calm (portal_for settings stripe return_url target found)
  unfolding portal_for
  portal_for-Calm return_url target none = raise-Calm _
  portal_for-Calm return_url target (some sub) =
      portal_at-Calm return_url sub target (present sub.stripe_customer_id)

  pub open_portal-Calm :
      (user_id : String) (return_url : Option String) (target : Option (Tier × BillingInterval))
      → Calm (open_portal settings stripe user_id return_url target)
  unfolding open_portal get_subscription
  open_portal-Calm user_id return_url target =
      Triple-bind _ _ (query-Calm _) λ found. portal_for-Calm return_url target found
