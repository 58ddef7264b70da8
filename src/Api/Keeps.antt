-- ===== src/Api/Keeps.antt =====
-- app/routers/billing.py under the invariant of the service.
use subscription_service.Billing.Portal.Keeps.{open_portal-Calm}
use subscription_service.Flags.{FlagClient}
use subscription_service.Plans.{BillingInterval, Tier}
use subscription_service.Provider.{BillingProvider}
use subscription_service.Billing.Keeps.{
  start_checkout-Calm, resume_subscription-Calm, schedule_cancellation-Calm, get_or_create-Calm,
}
use subscription_service.Service.Calm.{
  pure-Calm, raise_if-Calm, commit_and_invalidate-Calm, commit-Calm, rollback-IsCalm, Triple-fact,
  IsCalm, Calm,
}
use subscription_service.Settings.{Settings}
use subscription_service.Prelude.{Option, String, none}
use subscription_service.Effects.{Exec}
use subscription_service.Effects.Triple.{Triple-keeps, Triple-end, Triple-bind}
use subscription_service.World.{World}
use subscription_service.Api.{in_session, checkout, portal, resume, cancel, my_subscription}
use subscription_service.Billing.{CheckoutKey, CheckoutOrder}

module _ {R : Type 0} where
  pub in_session-Calm : {A : Type 0} (m : Exec (World R) A) → Calm m → Calm (in_session m)
  unfolding in_session
  in_session-Calm m k =
      Triple-keeps IsCalm (in_session m) λ w h. rollback-IsCalm (m w).1 (Triple-end IsCalm m w k h)

  pub my_subscription-Calm : (user_id : String) → Calm (my_subscription {R = R} user_id)
  unfolding my_subscription
  my_subscription-Calm user_id =
      Triple-bind _ _ (get_or_create-Calm user_id)
        λ sub. Triple-fact (λ _. Triple-bind _ _ commit-Calm λ _. pure-Calm sub)

module _ {R : Type 0} (digest : CheckoutKey → String) (settings : Settings)
    (stripe : BillingProvider R) where
  pub checkout-Calm :
      (flags : Option FlagClient) (order : CheckoutOrder)
      → Calm (checkout digest flags settings stripe order)
  unfolding checkout
  checkout-Calm flags order = Triple-bind _ _ (raise_if-Calm _ _) λ _.
      Triple-bind _ _ (start_checkout-Calm digest settings stripe order)
        λ session. Triple-bind _ _ commit-Calm λ _. pure-Calm session

module _ {R : Type 0} (settings : Settings) (stripe : BillingProvider R) where
  pub cancel-Calm : (user_id : String) → Calm (cancel settings stripe user_id)
  unfolding cancel
  cancel-Calm user_id =
      Triple-bind _ _ (schedule_cancellation-Calm settings stripe user_id)
        λ sub. Triple-bind _ _ commit_and_invalidate-Calm λ _. pure-Calm sub

  pub resume-Calm : (user_id : String) → Calm (resume settings stripe user_id)
  unfolding resume
  resume-Calm user_id =
      Triple-bind _ _ (resume_subscription-Calm settings stripe user_id)
        λ sub. Triple-bind _ _ commit_and_invalidate-Calm λ _. pure-Calm sub

  pub portal-Calm :
      (user_id : String) (target : Option (Tier × BillingInterval))
      → Calm (portal settings stripe user_id target)
  unfolding portal
  portal-Calm user_id target = open_portal-Calm settings stripe user_id none target
