-- ===== src/Sync/Idempotent.antt =====
-- app/services/subscriptions.py: what a sync of a customer with a row leaves behind, once and twice.
use subscription_service.World.Database.Writes.{
  store-store, clashes-store_self, find_by_customer-store,
}
use subscription_service.Effects.{ok}
use subscription_service.World.Database.{store, find_by_user, clashes, find_by_customer}
use subscription_service.World.Database.Rows.{find_by_user-store, store-IsUnique, IsUnique}
use subscription_service.Sync.{same_fingerprint_refl, project, write_state}
use subscription_service.Provider.{RemoteSubscription, BillingProvider}
use subscription_service.World.{World}
use subscription_service.Settings.{Settings}
use subscription_service.Models.{Subscription}
use subscription_service.Sync.Mirror.{mirror, sync_subscription, same_snapshot}
use subscription_service.Prelude.{
  Option, String, any, arith, eq_refl, false, refl, some, true, ℕ, ◌==◌, ◌∙◌, ◌≡◌,
}
use mathlib.Core.List.{append-nil}
use subscription_service.Sync.Existing.{mirrored, synced, mirror_lem, sync_existing}
use subscription_service.Sync.Project.{write_state_again}

-- The session can read the row `sub` of the customer, and no one holds its lock.
pub record HasRow {R : Type 0} (customer : String) (sub : Subscription) (w : World R) : Type 0 where
  pub up : w.db_up ≡ true
  pub unlocked : any (λ c. c == customer) w.locked ≡ false
  pub unique : IsUnique w.db.subscriptions
  pub found : find_by_customer customer w.db.subscriptions ≡ some sub

same_snapshot_refl : (sub : Subscription) → same_snapshot sub sub ≡ true
unfolding same_snapshot
same_snapshot_refl sub = ground arith

module _ {R : Type 0} (settings : Settings) (stripe : BillingProvider R) where
  -- A sync of a customer with a row, in a table that keeps the unique constraints, writes what Stripe
  -- says onto that row, leaves the rows of all other users, commits nothing, and returns the row,
  -- provided that the database and Stripe answer, that the row's lock is free and that the written
  -- row breaks no unique constraint.
  pub sync_writes :
      (reason : String) (event : Option String) (customer : String) (w : World R)
      {sub : Subscription} {remote : Option RemoteSubscription} {r : R}
      → HasRow customer sub w
      → stripe.fetch_current_subscription customer w.remote ≡ (ok remote, r)
      → clashes (mirrored settings stripe w.now sub remote) w.db.subscriptions ≡ false
      → let (result, w') = sync_subscription settings stripe reason event customer w in
        let sub' = write_state w.now sub (project settings.stripe_price_ids remote) in
        (result ≡ ok (some sub'))
        × (find_by_user sub.user_id w'.db.subscriptions ≡ some sub')
        × ((j : String)
            → (sub.user_id == j) ≡ false
            → find_by_user j w'.db.subscriptions ≡ find_by_user j w.db.subscriptions)
        × (w'.saved ≡ w.saved)
  unfolding write_state
  sync_writes reason event customer w {sub} {remote} {r} h fetched free =
      rw (sync_existing settings stripe reason event customer w h.up h.unlocked h.found fetched) (
        rw (mirror_lem settings stripe reason event sub remote (record w { remote = r }) free) (
          refl,
          rw (find_by_user-store, eq_refl sub.user_id),
          λ j other. rw (find_by_user-store, other),
          refl,
        ))

  pub sync_result :
      (reason : String) (event : Option String) (customer : String) (w : World R)
      {sub : Subscription} {remote : Option RemoteSubscription} {r : R}
      → HasRow customer sub w
      → stripe.fetch_current_subscription customer w.remote ≡ (ok remote, r)
      → clashes (mirrored settings stripe w.now sub remote) w.db.subscriptions ≡ false
      → sync_subscription settings stripe reason event customer w ≡ (
        ok (some (mirrored settings stripe w.now sub remote)),
        synced settings stripe reason event sub
            (mirrored settings stripe w.now sub remote)
            (record w { remote = r }),
      )
  sync_result reason event customer w {sub} {remote} {r} h fetched free =
      sync_existing settings stripe reason event customer w h.up h.unlocked h.found fetched
      ∙ mirror_lem settings stripe reason event sub remote (record w { remote = r }) free

  synced-HasRow :
      (reason : String) (event : Option String) (customer : String) (w : World R)
      (sub : Subscription) (remote : Option RemoteSubscription)
      → HasRow customer sub w
      → clashes (mirrored settings stripe w.now sub remote) w.db.subscriptions ≡ false
      → HasRow customer
          (mirrored settings stripe w.now sub remote)
          (synced settings stripe reason event sub (mirrored settings stripe w.now sub remote) w)
  unfolding write_state
  synced-HasRow reason event customer w sub remote h free = record {
    up = h.up;
    unlocked = h.unlocked;
    unique = store-IsUnique _ _ h.unique free;
    found = find_by_customer-store customer w.db.subscriptions sub _ h.unique h.found refl refl;
  }

  -- a row that already says what Stripe says is left as it is
  settled_mirror :
      (event : Option String) (sub : Subscription) (remote : Option RemoteSubscription)
      (w : World R)
      → mirrored settings stripe w.now sub remote ≡ sub
      → clashes sub w.db.subscriptions ≡ false
      → store sub w.db.subscriptions ≡ w.db.subscriptions
      → mirror settings stripe "stripe.sync" event sub remote w ≡ (ok (some sub), w)
  settled_mirror event sub remote w same free stored =
      rw (mirror_lem settings stripe "stripe.sync" event sub remote w (rw same free)) (
        rw same
          (rw (same_snapshot_refl sub, same_fingerprint_refl sub sub refl, stored, append-nil)))

  -- After a sync of a customer with a row that went through, a second one to which Stripe gives the
  -- same answer, at any time, finds nothing to do: with the reason `stripe.sync` it leaves the tables, the audit trail and the marks
  -- as they are.
  pub sync_idempotent :
      (reason : String) (event event' : Option String) (customer : String) (later : ℕ) (w : World R)
      {sub : Subscription} {remote : Option RemoteSubscription} {r r' : R}
      → HasRow customer sub w
      → stripe.fetch_current_subscription customer w.remote ≡ (ok remote, r)
      → stripe.fetch_current_subscription customer r ≡ (ok remote, r')
      → clashes (mirrored settings stripe w.now sub remote) w.db.subscriptions ≡ false
      → let w' = (sync_subscription settings stripe reason event customer w).1 in
        let again =
          sync_subscription settings stripe "stripe.sync" event' customer
            (record w' { now = later }) in
        (again.0 ≡ (sync_subscription settings stripe reason event customer w).0)
        × (again.1.db ≡ w'.db)
        × (again.1.marks ≡ w'.marks)
  sync_idempotent reason event event' customer later w {sub} {remote} {r} {r'} h fetched again
        free =
      let sub' = mirrored settings stripe w.now sub remote in
      let w' = record (synced settings stripe reason event sub sub' (record w { remote = r })) {
        now = later;
      } in
      let row = synced-HasRow reason event customer w sub remote h free in
      rw (sync_result reason event customer w h fetched free) (
        rw
          (sync_existing settings stripe "stripe.sync" event' customer w' h.up h.unlocked row.found
            again)
          (rw
            (settled_mirror event' sub' remote (record w' { remote = r' })
              (write_state_again w.now later sub (project settings.stripe_price_ids remote))
              (clashes-store_self sub' w.db.subscriptions free)
              (store-store sub' w.db.subscriptions))
            (refl, refl, refl)))
