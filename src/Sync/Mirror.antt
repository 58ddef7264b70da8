-- ===== src/Sync/Mirror.antt =====
-- app/services/subscriptions.py, the write path: `sync_subscription_from_stripe` and the helpers that
-- it reads and creates rows with. The row is read under its lock before Stripe is asked. A `log` line
-- and a metric change no state and are left out, and so is the JSON `detail` of an audit row.
use subscription_service.Provider.{RemoteSubscription, BillingProvider}
use subscription_service.Plans.{same_tier, Tier}
use subscription_service.Effects.{
  lock_timeout, ◌>>◌, integrity_error, ◌>>=◌, pure, err, raise, ok, Exec, Result,
}
use subscription_service.World.Database.{find_by_user, find_by_customer}
use subscription_service.Settings.{Settings}
use subscription_service.World.Session.{
  mark_entitlements_stale, provider_call, record_audit, query, flush_row,
}
use subscription_service.Models.{same_status, SubscriptionAudit, Subscription, SubscriptionStatus}
pub mod Sound
pub mod Keeps
pub mod Quiet
pub mod Unknown
use subscription_service.Prelude.{
  is_some, ◌||◌, lookup, any, ◌||◌, if◌then◌else◌, true, ◌==◌, eqb, none, not, ◌&&◌, ◌&&◌, [],
  false, some, ◌++◌, Bool, ◌++◌, String, Option, ℕ,
}
use subscription_service.World.{World}
use subscription_service.Sync.{
  same_fingerprint, write_state, project, belongs_to_this_service, new_row,
}

-- the columns that an audit row compares, `audit.snapshot`
abbrev pub snapshot : Subscription → Tier × SubscriptionStatus
snapshot sub = (sub.tier, sub.status)

unfoldable pub same_snapshot : Subscription → Subscription → Bool
same_snapshot a b = same_tier a.tier b.tier && same_status a.status b.status

-- the row that `audit.record` adds; `created_at` is the server's default
unfoldable pub audit_row :
    ℕ → Subscription → Subscription → String → Option String → SubscriptionAudit
audit_row now before after reason event = record {
  user_id = after.user_id;
  from_tier = some before.tier;
  to_tier = some after.tier;
  from_status = some before.status;
  to_status = some after.status;
  reason = reason;
  stripe_event_id = event;
  created_at = now;
}

-- ORPHANED_AT, as a key of Stripe's metadata
abbrev pub orphaned_at : String
orphaned_at = "orphaned_at"

-- `if metadata.get(key)`
abbrev pub is_marked : Option String → Bool
is_marked none = false
is_marked (some value) = not (value == "")

-- the row as the savepoint is about to write it
unfoldable pub claimed_row : String → String → Option Subscription → Subscription
claimed_row customer user_id none = record (new_row user_id) { stripe_customer_id = some customer }
claimed_row customer user_id (some sub) = record sub { stripe_customer_id = some customer }

module _ {R : Type 0} where
  -- `_find_by_customer`
  unfoldable pub find_customer : String → Exec (World R) (Option Subscription)
  find_customer customer = query (λ db. find_by_customer customer db.subscriptions)

  -- `_find_by_customer(lock=True)`: the wait for the row's lock is bounded
  unfoldable pub find_locked : String → Exec (World R) (Option Subscription)
  find_locked customer w =
      if any (λ c. c == customer) w.locked then (err lock_timeout, w) else find_customer customer w

  -- `get_subscription`
  unfoldable pub get_subscription : String → Exec (World R) (Option Subscription)
  get_subscription user_id = query (λ db. find_by_user user_id db.subscriptions)

  -- other workers' inserts become visible
  unfoldable pub rivals_commit : World R → World R
  rivals_commit w = record w {
    db = record w.db { subscriptions = w.db.subscriptions ++ w.rivals };
    saved = record w.saved { subscriptions = w.saved.subscriptions ++ w.rivals };
    rivals = [];
  }

  unfoldable pub row_or_new : String → Option Subscription → Exec (World R) Subscription
  row_or_new user_id (some sub) = pure sub
  row_or_new user_id none = do flush_row (new_row user_id); pure (new_row user_id)

  -- `get_or_create_subscription`
  unfoldable pub get_or_create_subscription : String → Exec (World R) Subscription
  unfolding row_or_new
  get_or_create_subscription user_id = do found ← get_subscription user_id; row_or_new user_id found

  -- the flush inside the savepoint: an insert of a user that meanwhile has a row, or of a customer
  -- that another row holds, fails and leaves nothing behind
  insert_row : Option Subscription → Subscription → Exec (World R) (Unit {0})
  insert_row (some _) sub w = flush_row sub w
  insert_row none sub w =
      if is_some (find_by_user sub.user_id w.db.subscriptions)
      then (err integrity_error, w)
      else flush_row sub w

  -- the row found after a lost race: by customer, or else by user
  lost_row : Option Subscription → String → Exec (World R) (Option Subscription)
  lost_row (some sub) user_id = pure (some sub)
  lost_row none user_id = get_subscription user_id

  use_lost : String → Option Subscription → Exec (World R) Subscription
  use_lost customer none = raise integrity_error
  use_lost customer (some sub) = pure (record sub { stripe_customer_id = some customer })

  pub recover_row : String → String → Exec (World R) Subscription
  unfolding lost_row use_lost
  recover_row customer user_id = do
    by_customer ← find_locked customer
    found ← lost_row by_customer user_id
    use_lost customer found

  after_insert : String → Subscription → Result (Unit {0}) × World R → Result Subscription × World R
  unfolding recover_row
  after_insert customer sub (ok _, w) = (ok sub, w)
  after_insert customer sub (err integrity_error, w) = recover_row customer sub.user_id w
  after_insert customer sub (err e, w) = (err e, w)

  -- the `begin_nested` block and its `except`, on the row that was read
  claim_found : String → String → Option Subscription → Exec (World R) Subscription
  unfolding insert_row after_insert
  claim_found customer user_id found w =
      after_insert customer (claimed_row customer user_id found)
        (insert_row found (claimed_row customer user_id found) (rivals_commit w))

  unfoldable pub claim_row : String → String → Exec (World R) Subscription
  unfolding claim_found
  claim_row customer user_id = do
    found ← get_subscription user_id
    claim_found customer user_id found

module _ {R : Type 0} where
  unfoldable pub audit_if : Bool → SubscriptionAudit → Exec (World R) (Unit {0})
  audit_if true row = record_audit row
  audit_if false row = pure tt

  unfoldable pub mark_if : Bool → String → Exec (World R) (Unit {0})
  mark_if true user_id = mark_entitlements_stale user_id
  mark_if false user_id = pure tt

  -- the audit row, the flush and the mark of a changed row
  unfoldable pub write_row :
      Bool → SubscriptionAudit → Bool → Subscription → Exec (World R) (Option Subscription)
  write_row audit_needed row stale sub = do
    audit_if audit_needed row
    flush_row sub
    mark_if stale sub.user_id
    pure (some sub)

module _ {R : Type 0} (settings : Settings) (stripe : BillingProvider R) where
  -- the second half of the sync: what Stripe said is written onto the row
  unfoldable pub mirror :
      String
      → Option String
      → Subscription
      → Option RemoteSubscription
      → Exec (World R) (Option Subscription)
  mirror reason event sub remote w =
      let sub' = write_state w.now sub (project settings.stripe_price_ids remote) in
      write_row (not (same_snapshot sub sub') || not (reason == "stripe.sync"))
        (audit_row w.now sub sub' reason event) (not (same_fingerprint sub' sub)) sub' w

  -- a customer with no row whose subscription is ours and who names a user
  adopt_user :
      String
      → Option String
      → String
      → RemoteSubscription
      → Option String
      → Exec (World R) (Option Subscription)
  adopt_user reason event customer remote none = pure none
  adopt_user reason event customer remote (some user_id) =
      if user_id == ""
      then pure none
      else if is_marked (lookup orphaned_at remote.metadata)
      then pure none
      else (do sub ← claim_row customer user_id; mirror reason event sub (some remote))

  adopt :
      String
      → Option String
      → String
      → Option RemoteSubscription
      → Exec (World R) (Option Subscription)
  unfolding adopt_user
  adopt reason event customer none = pure none
  adopt reason event customer (some remote) =
      if belongs_to_this_service settings.stripe_price_ids (some remote)
      then (do
        found ← provider_call (stripe.retrieve_customer customer)
        adopt_user reason event customer remote found.user_id)
      else pure none

  sync_found :
      String → Option String → String → Option Subscription → Exec (World R) (Option Subscription)
  unfolding adopt
  sync_found reason event customer none = do
    remote ← provider_call (stripe.fetch_current_subscription customer)
    adopt reason event customer remote
  sync_found reason event customer (some sub) = do
    remote ← provider_call (stripe.fetch_current_subscription customer)
    mirror reason event sub remote

  -- `sync_subscription_from_stripe`
  unfoldable pub sync_subscription :
      String → Option String → String → Exec (World R) (Option Subscription)
  unfolding sync_found
  sync_subscription reason event customer = do
    found ← find_locked customer
    sync_found reason event customer found
