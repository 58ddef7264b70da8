-- ===== src/Admin/Keeps.antt =====
-- app/routers/admin.py under the invariant of the service.
use subscription_service.Provider.{BillingProvider}
use subscription_service.Sync.Project.{IsConsistent}
use subscription_service.Settings.{Settings}
use subscription_service.Service.Calm.{
  mark-Calm, flush_row-Calm, commit_and_invalidate-Calm, record_audit-Calm, get_subscription-Calm,
  sync-Calm, raise-Calm, raise_if-Calm, Triple-fact, pure-Calm, query-Calm, Calm-of, Found, IsCalm,
  Calm,
}
use subscription_service.Models.{Subscription, EntitlementGrant}
use subscription_service.Prelude.{
  Bool, List, Option, String, ap, false, is_some, none, refl, some, sym, true, ℕ, ◌∙◌, ◌≡◌,
}
use subscription_service.Effects.{gets}
use subscription_service.Effects.Triple.{
  Triple, Triple-keeps, Triple-bind, Triple-pure, Triple-raise,
}
use subscription_service.World.{World}
use subscription_service.Admin.{
  Days, GrantOrder, shift, required, require_subscription, extend_from, extend_grace, put_grants,
  create_grant, revoke_open, revoke_found, revoke_grant, resync_customer, resync,
}

module _ {R : Type 0} where
  required-Calm :
      (found : Option Subscription)
      → Found found
      → Triple {S = World R} IsCalm (λ sub w. IsCalm w × IsConsistent sub) IsCalm (required found)
  unfolding required
  required-Calm none c = Triple-raise _ (λ w h. h)
  required-Calm (some sub) c = Triple-pure sub (λ w h. (h, c sub refl))

  require_subscription-Calm :
      (user_id : String)
      → Triple {S = World R} IsCalm
          (λ sub w. IsCalm w × IsConsistent sub)
          IsCalm
          (require_subscription user_id)
  unfolding require_subscription
  require_subscription-Calm user_id =
      Triple-bind _ _ (get_subscription-Calm user_id) λ found. Triple-fact (required-Calm found)

  now-Calm : Calm (gets {S = World R} (λ w. w.now))
  now-Calm = Triple-keeps IsCalm (gets (λ w. w.now)) (λ w h. h)

  -- a row whose grace window is moved stays past due since some time
  extend_from-Calm :
      (days : Days) (sub : Subscription) (since : Option ℕ)
      → sub.past_due_since ≡ since
      → IsConsistent sub
      → Calm (extend_from {R = R} days sub since)
  unfolding extend_from
  extend_from-Calm days sub none e c = raise-Calm _
  extend_from-Calm days sub (some since) e c = Triple-bind _ _ now-Calm λ now.
      Triple-bind _ _ (record_audit-Calm _) λ _.
        Triple-bind _ _
          (flush_row-Calm _ (record { dunning = ap is_some (sym e) ∙ c.dunning; paid = c.paid }))
          λ _.
            Triple-bind _ _ (mark-Calm sub.user_id)
              λ _. Triple-bind _ _ commit_and_invalidate-Calm λ _. pure-Calm (shift days since)

  pub extend_grace-Calm :
      (user_id : String) (days : Days) → Calm (extend_grace {R = R} user_id days)
  unfolding extend_grace
  extend_grace-Calm user_id days =
      Triple-bind _ _ (require_subscription-Calm user_id)
        λ sub. Triple-fact (λ c. extend_from-Calm days sub sub.past_due_since refl c)

  put_grants-Calm : (grants : List EntitlementGrant) → Calm (put_grants {R = R} grants)
  unfolding put_grants
  put_grants-Calm grants = Calm-of (put_grants grants) (λ w. (refl, refl, refl))

  pub create_grant-Calm : (id : String) (order : GrantOrder) → Calm (create_grant {R = R} id order)
  unfolding create_grant
  create_grant-Calm id order = Triple-bind _ _ (raise_if-Calm _ _) λ _.
      Triple-bind _ _ (query-Calm _) λ grants. Triple-bind _ _ (put_grants-Calm _) λ _.
        Triple-bind _ _ now-Calm λ now. Triple-bind _ _ (record_audit-Calm _) λ _.
          Triple-bind _ _ (mark-Calm _)
            λ _. Triple-bind _ _ commit_and_invalidate-Calm λ _. pure-Calm _

  revoke_open-Calm :
      (grant : EntitlementGrant) (revoked : Bool) → Calm (revoke_open {R = R} grant revoked)
  unfolding revoke_open
  revoke_open-Calm grant true = pure-Calm tt
  revoke_open-Calm grant false = Triple-bind _ _ now-Calm λ now.
      Triple-bind _ _ (query-Calm _) λ grants. Triple-bind _ _ (put_grants-Calm _) λ _.
        Triple-bind _ _ (record_audit-Calm _)
          λ _. Triple-bind _ _ (mark-Calm _) λ _. commit_and_invalidate-Calm

  revoke_found-Calm : (found : Option EntitlementGrant) → Calm (revoke_found {R = R} found)
  unfolding revoke_found
  revoke_found-Calm none = raise-Calm _
  revoke_found-Calm (some grant) = revoke_open-Calm grant _

  pub revoke_grant-Calm : (id : String) → Calm (revoke_grant {R = R} id)
  unfolding revoke_grant
  revoke_grant-Calm id = Triple-bind _ _ (query-Calm _) λ found. revoke_found-Calm found

module _ {R : Type 0} (settings : Settings) (stripe : BillingProvider R) where
  resync_customer-Calm :
      (customer : Option String) → Calm (resync_customer settings stripe customer)
  unfolding resync_customer
  resync_customer-Calm none = raise-Calm _
  resync_customer-Calm (some customer) =
      Triple-bind _ _ (sync-Calm settings stripe "admin.resync" none customer)
        λ _. commit_and_invalidate-Calm

  pub resync-Calm : (user_id : String) → Calm (resync settings stripe user_id)
  unfolding resync
  resync-Calm user_id =
      Triple-bind _ _ (require_subscription-Calm user_id)
        λ sub. Triple-fact (λ _. resync_customer-Calm _)
