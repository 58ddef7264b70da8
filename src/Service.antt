-- ===== src/Service.antt =====
-- The service as it runs: requests, deliveries, operations of support and jobs, one after the other,
-- each in a session of its own, with anything happening outside in between. Metered uses (Quota) and
-- rate limits (RateLimit), which write no row of `subscriptions`, are left out.
pub mod Calm
pub mod Invariant
use subscription_service.Prelude.{
  All, Bool, Bool-cases, Dict, IsDistinct, List, Option, Option-cases, String, [], any, ap,
  append-nil, append_assoc, arith, eq_iff, eq_refl, eqb, false, find, if◌then◌else◌, inl, inr,
  insert, insert-IsDistinct, is_some, leb, length, length-append, length-map, lookup, lookup-insert,
  lookup-remove, ltb, map, max, min, none, not, opt_eq, present, refl, remove, select, some,
  some-injective, subst, suc, sym, true, zero, ℕ, ◌%◌, ◌&&◌, ◌*◌, ◌++◌, ◌+◌, ◌-◌, ◌/◌, ◌<◌, ◌==◌,
  ◌||◌, ◌∙◌, ◌∷◌, ◌≡◌, ◌≢◌, ◌≤◌, ◌⊎◌,
}
use subscription_service.Plans.{Tier, BillingInterval}
use subscription_service.Settings.{Settings}
use subscription_service.Provider.{BillingProvider}
use subscription_service.Effects.{Exec, Result}
use subscription_service.World.{World}
use subscription_service.World.Session.{rollback}
use subscription_service.Flags.{FlagClient}
use subscription_service.Billing.{CheckoutKey, CheckoutOrder}
use subscription_service.Api.{in_session, checkout, portal, resume, cancel, my_subscription}
use subscription_service.Admin.{Days, GrantOrder, resync, extend_grace, create_grant, revoke_grant}
use subscription_service.Entitlements.Read.{resolve_entitlements}
use subscription_service.Webhooks.{Delivery, stripe_webhook}
use subscription_service.Jobs.ExpireGrace.{expire_grace_windows}
use subscription_service.Jobs.Reconcile.Report.{ReconcileReport}
use subscription_service.Jobs.Reconcile.Walk.{reconcile}

-- what a deployment of the service is made with
pub record Deployment (R : Type 0) : Type 0 where
  pub settings : Settings
  pub stripe : BillingProvider R
  pub flags : Option FlagClient
  pub digest : CheckoutKey → String
  pub missing : List String → Option (List String)
  pub notifier : Option (String → String → Exec R (Unit {0}))

-- one thing that happens
pub data Step {R : Type 0} (d : Deployment R) (w : World R) : World R → Type 0 where
  delivered :
      (delivery : Delivery)
      → Step d w (in_session (stripe_webhook d.settings d.stripe delivery) w).1
  checked_out :
      (order : CheckoutOrder)
      → Step d w (in_session (checkout d.digest d.flags d.settings d.stripe order) w).1
  cancelled : (user_id : String) → Step d w (in_session (cancel d.settings d.stripe user_id) w).1
  resumed : (user_id : String) → Step d w (in_session (resume d.settings d.stripe user_id) w).1
  opened :
      (user_id : String) (target : Option (Tier × BillingInterval))
      → Step d w (in_session (portal d.settings d.stripe user_id target) w).1
  looked_up : (user_id : String) → Step d w (in_session (my_subscription user_id) w).1
  answered :
      (user_id : String) → Step d w (in_session (resolve_entitlements d.settings user_id) w).1
  resynced : (user_id : String) → Step d w (in_session (resync d.settings d.stripe user_id) w).1
  extended :
      (user_id : String) (days : Days) → Step d w (in_session (extend_grace user_id days) w).1
  granted : (id : String) (order : GrantOrder) → Step d w (in_session (create_grant id order) w).1
  revoked : (id : String) → Step d w (in_session (revoke_grant id) w).1
  expired : Step d w (in_session (expire_grace_windows d.settings) w).1
  reconciled :
      (dry_run : Bool) (fuel : ℕ) {r : Result ReconcileReport} {w' : World R}
      → reconcile d.settings d.stripe d.missing dry_run fuel d.notifier w ≡ some (r, w')
      → Step d w (rollback w')
  -- time passes, Stripe changes, the cache forgets, an outage begins or ends
  outside : {w' : World R} → w'.db ≡ w.db → w'.saved ≡ w.saved → w'.rivals ≡ [] → Step d w w'

-- the worlds that come about from an empty table of subscriptions
pub data Reach {R : Type 0} (d : Deployment R) : World R → Type 0 where
  start : (w : World R) → w.saved.subscriptions ≡ [] → w.db ≡ w.saved → w.rivals ≡ [] → Reach d w
  later : {w w' : World R} → Reach d w → Step d w w' → Reach d w'
