-- ===== src/Jobs/Reconcile.antt =====
-- app/jobs/reconcile.py: the nightly comparison with Stripe. `missing` is the account directory
-- (app/accounts.py): which of these users have no account, or none where it cannot tell. The
-- notifier is a parameter that may raise, with the mail in app/notify.py as one.
pub mod Keeps
pub mod Report
pub mod Counts
pub mod Isolation
pub mod ReadOnly
pub mod Notify
pub mod Walk
use mathlib.Core.Option
use subscription_service.Prelude.{
  All, Bool, Bool-cases, Dict, IsDistinct, List, Option, Option-cases, String, [], any, ap,
  append-nil, append_assoc, arith, eq_iff, eq_refl, eqb, false, find, if◌then◌else◌, inl, inr,
  insert, insert-IsDistinct, is_some, leb, length, length-append, lookup, lookup-insert,
  lookup-remove, ltb, map, max, min, none, not, opt_eq, present, refl, remove, select, some,
  some-injective, subst, suc, sym, true, zero, ℕ, ◌%◌, ◌&&◌, ◌*◌, ◌++◌, ◌+◌, ◌-◌, ◌/◌, ◌<◌, ◌==◌,
  ◌||◌, ◌∙◌, ◌∷◌, ◌≡◌, ◌≢◌, ◌≤◌, ◌⊎◌,
}
use subscription_service.Plans.{Tier, same_tier}
use subscription_service.Models.{SubscriptionStatus, same_status, Subscription}
use subscription_service.Settings.{Settings}
use subscription_service.Provider.{BillingProvider, RemoteSubscription}
use subscription_service.Effects.{
  Exec, Result, Error, ok, err, pure, raise, gets, modify, ◌>>=◌, ◌>>◌,
}
use subscription_service.World.{World}
use subscription_service.World.Session.{query, provider_call, commit_and_invalidate, rollback}
use subscription_service.World.Database.{find_by_customer}
use subscription_service.Sync.{project, belongs_to_this_service}
use subscription_service.Sync.Mirror.{sync_subscription, orphaned_at}
use subscription_service.Jobs.Reconcile.Report.{
  Orphan, Mismatch, Run, on_world, tally, notified_at, ReconcileReport,
}
use subscription_service.Timestamps.{iso_text}

-- the value of a mark, if it is there and not empty
unfoldable pub mark_of : String → RemoteSubscription → Option String
mark_of key remote = present (lookup key remote.metadata)

-- `_marks(remote)` is not empty
unfoldable pub has_marks : RemoteSubscription → Bool
has_marks remote = is_some (mark_of orphaned_at remote) || is_some (mark_of notified_at remote)

orphan_of : RemoteSubscription → String → String → Option String → Orphan
orphan_of remote customer user_id since = record {
  user_id = user_id;
  stripe_customer_id = customer;
  stripe_subscription_id = remote.id;
  status = remote.provider_status;
  cancel_at_period_end = remote.cancel_at_period_end;
  orphaned = since;
  notified = mark_of notified_at remote;
}

-- the row says what a sync would write, in the two fields that decide access
unfoldable pub agrees : Dict String → Subscription → RemoteSubscription → Bool
agrees prices local remote =
    let expected = project prices (some remote) in
    same_tier local.tier expected.tier && same_status local.status expected.status

mismatch_of : Dict String → Subscription → RemoteSubscription → String → Mismatch
mismatch_of prices local remote customer = record {
  user_id = local.user_id;
  stripe_customer_id = customer;
  local_tier = local.tier;
  local_status = local.status;
  stripe_tier = (project prices (some remote)).tier;
  stripe_status = remote.provider_status;
}

module _ {R : Type 0} (settings : Settings) (stripe : BillingProvider R)
    (missing : List String → Option (List String)) (dry_run : Bool) where
  -- the customer is read where the subscription does not name its user
  named_user : String → Option String → Exec (World R) (Option String)
  named_user customer (some user_id) = pure (some user_id)
  named_user customer none = do
    found ← provider_call (stripe.retrieve_customer customer)
    pure found.user_id

  -- `_user_id_of`
  unfoldable pub user_id_of : RemoteSubscription → String → Exec (World R) (Option String)
  unfolding named_user
  user_id_of remote customer = named_user customer (present (lookup "user_id" remote.metadata))

  user_of : Option Subscription → RemoteSubscription → String → Exec (World R) (Option String)
  user_of none remote customer = user_id_of remote customer
  user_of (some local) remote customer = pure (some local.user_id)

  -- `_account_state`, of a user that may not be known
  account_state : Option String → Exec (World R) (Option Bool)
  account_state none = pure none
  account_state (some user_id) = do
    found ← query (λ db. missing (user_id ∷ []))
    pure (Option.map (λ ids. any (λ i. i == user_id) ids) found)

  -- the mark of an orphan: the one that is there, or one that is set now
  orphan_mark : RemoteSubscription → Option String → Exec (World R) (Option String)
  orphan_mark remote (some since) = pure (some since)
  orphan_mark remote none = if dry_run then pure none else (do
    now ← gets (λ w. w.now)
    provider_call (stripe.set_subscription_metadata remote.id ((orphaned_at, iso_text now) ∷ []))
    pure (some (iso_text now)))

  -- `_record_orphan`
  unfoldable pub record_orphan : RemoteSubscription → String → String → Exec (Run R) (Unit {0})
  unfolding orphan_mark orphan_of
  record_orphan remote customer user_id =
      if remote.ended
      then tally (λ r. record r { orphaned_closed = r.orphaned_closed + 1 })
      else (do
        since ← on_world (orphan_mark remote (mark_of orphaned_at remote))
        tally (λ r. record r {
          orphaned = r.orphaned ++ orphan_of remote customer user_id since ∷ [];
        }))

  -- a mark on a subscription whose account is there is cleared
  clear_marks : RemoteSubscription → Option Bool → Exec (World R) (Unit {0})
  clear_marks remote (some false) =
      if has_marks remote && not dry_run
      then provider_call
          (stripe.set_subscription_metadata remote.id ((orphaned_at, "") ∷ (notified_at, "") ∷ []))
      else pure tt
  clear_marks remote _ = pure tt

  -- the sync of a customer, unless nothing is to be written
  repair : String → String → Exec (Run R) Bool
  repair reason customer =
      if dry_run
      then pure false
      else (do on_world (sync_subscription settings stripe reason none customer); pure true)

  compare_row : Option Subscription → RemoteSubscription → String → Exec (Run R) Bool
  unfolding repair mismatch_of
  compare_row none remote customer = do
    tally (λ r. record r { unknown_customers = r.unknown_customers ++ customer ∷ [] })
    repair "reconcile.unknown_customer" customer
  compare_row (some local) remote customer =
      if agrees settings.stripe_price_ids local remote then pure false else (do
        tally (λ r. record r {
          mismatched = r.mismatched + 1;
          details = r.details ++ mismatch_of settings.stripe_price_ids local remote customer ∷ [];
        })
        repair "reconcile.drift" customer)

  -- a subscription of ours, once it is known whether its account is gone
  settle :
      Option Subscription
      → RemoteSubscription
      → String
      → Option String
      → Option Bool
      → Exec (Run R) Bool
  unfolding clear_marks compare_row
  settle local remote customer (some user_id) (some true) = do
    record_orphan remote customer user_id
    pure false
  settle local remote customer user_id gone = do
    on_world (clear_marks remote gone)
    compare_row local remote customer

  reconcile_ours : Option Subscription → RemoteSubscription → String → Exec (Run R) Bool
  unfolding user_of account_state settle
  reconcile_ours local remote customer = do
    user_id ← on_world (user_of local remote customer)
    gone ← on_world (account_state (present user_id))
    settle local remote customer (present user_id) gone

  -- `_reconcile_one`
  unfoldable pub reconcile_one : RemoteSubscription → String → Exec (Run R) Bool
  unfolding reconcile_ours
  reconcile_one remote customer = do
    local ← on_world (query (λ db. find_by_customer customer db.subscriptions))
    if not (is_some local) && not (belongs_to_this_service settings.stripe_price_ids (some remote))
        then (do tally (λ r. record r { ignored = r.ignored + 1 }); pure false)
        else reconcile_ours local remote customer

  -- the end of a customer's transaction
  end_one : Exec (World R) (Unit {0})
  end_one w = if dry_run then (ok tt, rollback w) else commit_and_invalidate w

  one_transaction : RemoteSubscription → String → Exec (Run R) Bool
  unfolding end_one
  one_transaction remote customer = do
    repaired ← reconcile_one remote customer
    on_world end_one
    pure repaired

  -- what a customer's transaction leaves: a failure is rolled back and listed
  after_one : String → Result Bool × Run R → Run R
  after_one customer (ok repaired, run) =
      if repaired
      then record run { report = record run.report { repaired = run.report.repaired + 1 } }
      else run
  after_one customer (err e, run) = record {
    report = record run.report { failed = run.report.failed ++ customer ∷ [] };
    world = rollback run.world;
  }

  check_customer : RemoteSubscription → Option String → Run R → Run R
  unfolding one_transaction after_one
  check_customer remote none run = run
  check_customer remote (some customer) run =
      after_one customer (one_transaction remote customer run)

  unfoldable pub check_item : RemoteSubscription → Run R → Run R
  unfolding check_customer
  check_item remote run =
      check_customer remote (present remote.customer_id)
        (record run { report = record run.report { checked = run.report.checked + 1 } })

  -- the items of a page
  unfoldable pub check_items : List RemoteSubscription → Run R → Run R
  unfolding check_item
  check_items [] run = run
  check_items (remote ∷ items) run = check_items items (check_item remote run)
