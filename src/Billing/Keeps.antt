-- ===== src/Billing/Keeps.antt =====
-- app/services/subscriptions.py under the invariant of the service.
use subscription_service.Sync.{new_row}
use subscription_service.Plans.{limits_for}
use subscription_service.Models.{grants_access, Subscription}
use subscription_service.Provider.{BillingProvider}
use subscription_service.Sync.Project.{IsConsistent}
use subscription_service.Service.Calm.{
  raise_if-Calm, flush_row-Calm, sync-Calm, Triple-fact, pure-Calm, provider_call-Calm, query-Calm,
  raise-Calm, Calm, Found, get_subscription-Calm, IsCalm,
}
use subscription_service.Settings.{Settings}
use subscription_service.Prelude.{Option, String, none, not, opt_eq, present, refl, some}
use subscription_service.Effects.{gets}
use subscription_service.Effects.Triple.{Triple, Triple-keeps, Triple-bind, Triple-pure, Triple-if}
use subscription_service.World.{World}
use subscription_service.Billing.{
  CheckoutOrder, CheckoutKey, checkout_at, refuse_live, attach_customer, open_session, cancel_found,
  cancel_named, cancel_live, resume_found, resume_named, resume_live, resync_or,
  schedule_cancellation, resume_subscription, start_checkout,
}
use subscription_service.Sync.Mirror.{row_or_new, get_subscription, get_or_create_subscription}

module _ {R : Type 0} where
  -- a row that comes back is consistent
  row_or_new-Calm :
      (user_id : String) (found : Option Subscription)
      → Found found
      → Triple {S = World R} IsCalm
          (λ sub w. IsCalm w × IsConsistent sub)
          IsCalm
          (row_or_new user_id found)
  unfolding row_or_new
  row_or_new-Calm user_id (some sub) c = Triple-pure sub (λ w h. (h, c sub refl))
  row_or_new-Calm user_id none c =
      Triple-bind _ _ (flush_row-Calm (new_row user_id) (new_row-IsConsistent user_id))
        λ _. Triple-pure (new_row user_id) (λ w h. (h, new_row-IsConsistent user_id))
    where
      new_row-IsConsistent : (u : String) → IsConsistent (new_row u)
      new_row-IsConsistent u = record { dunning = refl; paid = λ t. absurd (t refl) }

  pub get_or_create-Calm :
      (user_id : String)
      → Triple {S = World R} IsCalm
          (λ sub w. IsCalm w × IsConsistent sub)
          IsCalm
          (get_or_create_subscription user_id)
  unfolding get_or_create_subscription
  get_or_create-Calm user_id =
      Triple-bind _ _ (get_subscription-Calm user_id)
        λ found. Triple-fact (λ c. row_or_new-Calm user_id found c)

module _ {R : Type 0} (digest : CheckoutKey → String) (settings : Settings)
    (stripe : BillingProvider R) where
  refuse_live-Calm : (customer : Option String) → Calm (refuse_live digest settings stripe customer)
  unfolding refuse_live
  refuse_live-Calm none = pure-Calm tt
  refuse_live-Calm (some customer) =
      Triple-bind _ _ (provider_call-Calm _) λ remote. raise_if-Calm _ _

  attach_customer-Calm :
      (sub : Subscription) (customer : String)
      → IsConsistent sub
      → Calm (attach_customer digest settings stripe sub customer)
  unfolding attach_customer
  attach_customer-Calm sub customer c =
      Triple-if (opt_eq sub.stripe_customer_id (some customer)) _ _ (λ _. pure-Calm tt)
        λ _. flush_row-Calm _ (record { dunning = c.dunning; paid = c.paid })

  open_session-Calm :
      (order : CheckoutOrder) (price customer : String)
      → Calm (open_session digest settings stripe order price customer)
  unfolding open_session
  open_session-Calm order price customer =
      Triple-bind _ _ (Triple-keeps IsCalm (gets (λ w. w.now)) (λ w h. h))
        λ now. provider_call-Calm _

  checkout_at-Calm :
      (order : CheckoutOrder) (price : Option String)
      → Calm (checkout_at digest settings stripe order price)
  unfolding checkout_at
  checkout_at-Calm order none = raise-Calm _
  checkout_at-Calm order (some price) = Triple-bind _ _ (get_or_create-Calm order.user_id) λ sub.
      Triple-fact λ c. Triple-bind _ _ (raise_if-Calm _ _) λ _.
        Triple-bind _ _ (refuse_live-Calm _) λ _. Triple-bind _ _ (provider_call-Calm _) λ customer.
          Triple-bind _ _ (attach_customer-Calm sub customer c)
            λ _. open_session-Calm order price customer

  pub start_checkout-Calm :
      (order : CheckoutOrder) → Calm (start_checkout digest settings stripe order)
  unfolding start_checkout
  start_checkout-Calm order =
      Triple-if (limits_for order.tier).purchasable _ _ (λ _. checkout_at-Calm order _)
        λ _. raise-Calm _

module _ {R : Type 0} (settings : Settings) (stripe : BillingProvider R) where
  resync_or-Calm :
      (reason : String) (sub : Subscription) (customer : Option String)
      → Calm (resync_or settings stripe reason sub customer)
  unfolding resync_or
  resync_or-Calm reason sub none = raise-Calm _
  resync_or-Calm reason sub (some customer) =
      Triple-bind _ _ (sync-Calm settings stripe reason none customer) λ synced. pure-Calm _

  cancel_named-Calm :
      (sub : Subscription) (id : Option String) → Calm (cancel_named settings stripe sub id)
  unfolding cancel_named cancel_live
  cancel_named-Calm sub none = raise-Calm _
  cancel_named-Calm sub (some id) =
      Triple-if (not (grants_access sub.status)) _ _ (λ _. raise-Calm _)
        λ _.
          Triple-if sub.cancel_at_period_end _ _ (λ _. pure-Calm sub)
            λ _. Triple-bind _ _ (provider_call-Calm _) λ _. resync_or-Calm _ sub _

  cancel_found-Calm : (found : Option Subscription) → Calm (cancel_found settings stripe found)
  unfolding cancel_found
  cancel_found-Calm none = raise-Calm _
  cancel_found-Calm (some sub) = cancel_named-Calm sub (present sub.stripe_subscription_id)

  resume_named-Calm :
      (sub : Subscription) (id : Option String) → Calm (resume_named settings stripe sub id)
  unfolding resume_named resume_live
  resume_named-Calm sub none = raise-Calm _
  resume_named-Calm sub (some id) =
      Triple-if (not sub.cancel_at_period_end) _ _ (λ _. pure-Calm sub)
        λ _. Triple-bind _ _ (provider_call-Calm _) λ _. resync_or-Calm _ sub _

  resume_found-Calm : (found : Option Subscription) → Calm (resume_found settings stripe found)
  unfolding resume_found
  resume_found-Calm none = raise-Calm _
  resume_found-Calm (some sub) = resume_named-Calm sub (present sub.stripe_subscription_id)

  pub schedule_cancellation-Calm :
      (user_id : String) → Calm (schedule_cancellation settings stripe user_id)
  unfolding schedule_cancellation get_subscription
  schedule_cancellation-Calm user_id =
      Triple-bind _ _ (query-Calm _) λ found. cancel_found-Calm found

  pub resume_subscription-Calm :
      (user_id : String) → Calm (resume_subscription settings stripe user_id)
  unfolding resume_subscription get_subscription
  resume_subscription-Calm user_id = Triple-bind _ _ (query-Calm _) λ found. resume_found-Calm found
