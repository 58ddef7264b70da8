-- ===== src/Api/Cancel.antt =====
-- app/routers/billing.py: what a cancellation commits.
use subscription_service.Sync.{project, write_state}
use subscription_service.Sync.Existing.{mirrored}
use subscription_service.Sync.Idempotent.{sync_result, sync_writes, HasRow}
use subscription_service.Api.{cancel}
use subscription_service.Prelude.{
  Option, String, [], ap, false, none, present, refl, some, true, ◌==◌, ◌∙◌, ◌≡◌,
}
use subscription_service.Models.{Subscription, grants_access}
use subscription_service.Settings.{Settings}
use subscription_service.Provider.{RemoteSubscription, BillingProvider}
use subscription_service.Effects.{◌>>◌, continue, pure, Result, ok, ◌>>=◌}
use subscription_service.World.{Db, World}
use subscription_service.World.Database.{clashes, find_by_user}
use subscription_service.World.Session.{commit_and_invalidate, provider_call}
use subscription_service.World.Session.Commit.{commit_and_invalidate_lem, query_up}
use subscription_service.Sync.Mirror.{get_subscription, sync_subscription}
use subscription_service.Billing.{schedule_cancellation}

module _ {R : Type 0} (settings : Settings) (stripe : BillingProvider R) where
  abbrev reason : String
  reason = "customer.cancel_at_period_end"

  -- the sync that follows Stripe's answer
  abbrev after_stripe : String → World R → R → Result (Option Subscription) × World R
  after_stripe customer w r =
      sync_subscription settings stripe reason none customer (record w { remote = r })

  scheduled :
      (user_id customer id : String) (w : World R) {sub sub' : Subscription} {r : R}
      → w.db_up ≡ true
      → find_by_user user_id w.db.subscriptions ≡ some sub
      → sub.stripe_customer_id ≡ some customer
      → present sub.stripe_subscription_id ≡ some id
      → grants_access sub.status ≡ true
      → sub.cancel_at_period_end ≡ false
      → stripe.set_cancel_at_period_end id true w.remote ≡ (ok tt, r)
      → (after_stripe customer w r).0 ≡ ok (some sub')
      → schedule_cancellation settings stripe user_id w ≡ (ok sub', (after_stripe customer w r).1)
  unfolding schedule_cancellation get_subscription provider_call ◌>>=◌
  scheduled user_id customer id w up found named subscribed live uncancelled flagged synced =
      rw (query_up (λ db. find_by_user user_id db.subscriptions) w up)
        (rw (found, subscribed, live, uncancelled) (rw (flagged, named) (rw synced refl)))

  committed :
      (sub' : Subscription) (v : World R)
      → v.db_up ≡ true
      → let (result, w') = continue (ok sub') (λ sub. commit_and_invalidate >> pure sub) v in
        (result ≡ ok sub') × (w'.saved ≡ v.db) × (w'.marks ≡ [])
  unfolding ◌>>=◌
  committed sub' v up =
      let (done, saved, _, clear, _, _) = commit_and_invalidate_lem v up in
      rw done (refl, saved, clear)

  -- The cancellation of a live subscription with a row, where the database, Stripe and the row's
  -- lock allow it and the written row breaks no unique constraint, is asked of Stripe, and the row
  -- that is committed and returned is what Stripe says after that: access ends when Stripe ends it,
  -- and no other user's row changes.
  pub cancel_mirrors :
      (user_id customer id : String) (w : World R) {sub : Subscription}
      {remote : Option RemoteSubscription} {r r' : R}
      → HasRow customer sub w
      → find_by_user user_id w.db.subscriptions ≡ some sub
      → sub.stripe_customer_id ≡ some customer
      → present sub.stripe_subscription_id ≡ some id
      → grants_access sub.status ≡ true
      → sub.cancel_at_period_end ≡ false
      → stripe.set_cancel_at_period_end id true w.remote ≡ (ok tt, r)
      → stripe.fetch_current_subscription customer r ≡ (ok remote, r')
      → clashes (mirrored settings stripe w.now sub remote) w.db.subscriptions ≡ false
      → let (result, w') = cancel settings stripe user_id w in
        let sub' = write_state w.now sub (project settings.stripe_price_ids remote) in
        (result ≡ ok sub')
        × (find_by_user sub.user_id w'.saved.subscriptions ≡ some sub')
        × ((j : String)
            → (sub.user_id == j) ≡ false
            → find_by_user j w'.saved.subscriptions ≡ find_by_user j w.db.subscriptions)
        × (w'.marks ≡ [])
  unfolding cancel ◌>>=◌
  cancel_mirrors user_id customer id w {sub} {remote} {r} {r'} h found named subscribed live
        uncancelled flagged fetched free =
      let asked : World R = record w { remote = r } in
      let row : HasRow customer sub asked = record {
        up = h.up;
        unlocked = h.unlocked;
        unique = h.unique;
        found = h.found;
      } in
      let (back, own, others, _) =
        sync_writes settings stripe reason none customer asked row fetched free in
      let v = (after_stripe customer w r).1 in
      let up : v.db_up ≡ true =
        ap (λ p. p.1.db_up)
          (sync_result settings stripe reason none customer asked row fetched free)
        ∙ h.up in
      let sub' = write_state w.now sub (project settings.stripe_price_ids remote) in
      let (result, saved, clear) = committed sub' v up in
      rw (scheduled user_id customer id w h.up found named subscribed live uncancelled flagged back)
        (
          result,
          ap (λ (d : Db). find_by_user sub.user_id d.subscriptions) saved ∙ own,
          λ j other. ap (λ (d : Db). find_by_user j d.subscriptions) saved ∙ others j other,
          clear,
        )
