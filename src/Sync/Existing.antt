-- ===== src/Sync/Existing.antt =====
-- The sync of a customer who has a row.
use subscription_service.World.{World}
use subscription_service.Effects.{ok, ◌>>=◌}
use subscription_service.World.Session.{
  provider_call, query, mark_entitlements_stale, record_audit, flush_row, add_mark,
}
use subscription_service.Provider.{RemoteSubscription, BillingProvider}
use subscription_service.Models.{SubscriptionAudit, Subscription}
use subscription_service.Settings.{Settings}
use subscription_service.Prelude.{
  Bool, List, Option, String, [], any, false, if◌then◌else◌, not, some, true, ℕ, ◌++◌, ◌==◌, ◌||◌,
  ◌∷◌, ◌≡◌,
}
use subscription_service.Sync.{same_fingerprint, project, write_state}
use subscription_service.Sync.Mirror.{
  write_row, find_customer, find_locked, audit_row, same_snapshot, mirror, sync_subscription,
  audit_if, mark_if,
}
use mathlib.Core.List.{append-nil}
use subscription_service.World.Database.{store, clashes, find_by_customer}

-- what an audit of the change adds to the trail
abbrev pub audited :
    String → Option String → ℕ → Subscription → Subscription → List SubscriptionAudit
audited reason event now sub sub' =
    if not (same_snapshot sub sub') || not (reason == "stripe.sync")
    then audit_row now sub sub' reason event ∷ []
    else []

abbrev pub marked : List String → Subscription → Subscription → List String
marked marks sub sub' =
    if not (same_fingerprint sub' sub) then add_mark sub.user_id marks else marks

module _ {R : Type 0} where
  write_row_lem :
      (b c : Bool) (row : SubscriptionAudit) (sub : Subscription) (w : World R)
      → clashes sub w.db.subscriptions ≡ false
      → write_row b row c sub w ≡ (
        ok (some sub),
        record w {
          db = record w.db {
            subscriptions = store sub w.db.subscriptions;
            audit = w.db.audit ++ (if b then row ∷ [] else []);
          };
          marks = if c then add_mark sub.user_id w.marks else w.marks;
        },
      )
  unfolding write_row ◌>>=◌ audit_if mark_if flush_row record_audit mark_entitlements_stale
  write_row_lem true true row sub w free = rw free
  write_row_lem true false row sub w free = rw free
  write_row_lem false true row sub w free = rw (free, append-nil)
  write_row_lem false false row sub w free = rw (free, append-nil)

module _ {R : Type 0} (settings : Settings) (stripe : BillingProvider R) where
  -- what Stripe's answer makes of a row
  abbrev pub mirrored : ℕ → Subscription → Option RemoteSubscription → Subscription
  mirrored now sub remote = write_state now sub (project settings.stripe_price_ids remote)

  -- the world after a sync that wrote `sub'` over `sub`
  abbrev pub synced : String → Option String → Subscription → Subscription → World R → World R
  synced reason event sub sub' w = record w {
    db = record w.db {
      subscriptions = store sub' w.db.subscriptions;
      audit = w.db.audit ++ audited reason event w.now sub sub';
    };
    marks = marked w.marks sub sub';
  }

  -- The row is written, the change is audited, and its user is marked, unless the constraints refuse.
  pub mirror_lem :
      (reason : String) (event : Option String) (sub : Subscription)
      (remote : Option RemoteSubscription) (w : World R)
      → clashes (mirrored w.now sub remote) w.db.subscriptions ≡ false
      → mirror settings stripe reason event sub remote w ≡ (
        ok (some (mirrored w.now sub remote)),
        synced reason event sub (mirrored w.now sub remote) w,
      )
  unfolding mirror write_state
  mirror_lem reason event sub remote w free =
      write_row_lem
        (not (same_snapshot sub (mirrored w.now sub remote)) || not (reason == "stripe.sync"))
        (not (same_fingerprint (mirrored w.now sub remote) sub))
        (audit_row w.now sub (mirrored w.now sub remote) reason event) (mirrored w.now sub remote) w
        free

  pub sync_existing :
      (reason : String) (event : Option String) (customer : String) (w : World R)
      {sub : Subscription} {remote : Option RemoteSubscription} {r : R}
      → w.db_up ≡ true
      → any (λ c. c == customer) w.locked ≡ false
      → find_by_customer customer w.db.subscriptions ≡ some sub
      → stripe.fetch_current_subscription customer w.remote ≡ (ok remote, r)
      → sync_subscription settings stripe reason event customer w
        ≡ mirror settings stripe reason event sub remote (record w { remote = r })
  unfolding sync_subscription ◌>>=◌ find_locked find_customer query provider_call
  sync_existing reason event customer w up free found fetched = rw (free, up, found, fetched)
