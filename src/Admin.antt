-- ===== src/Admin.antt =====
-- app/routers/admin.py: the operations of support that change something. The identifier that a grant
-- gets is an argument. Reports, which only read, are left out.
pub mod Keeps
pub mod Grants
use subscription_service.Prelude.{
  Bool, List, Option, String, [], false, find, if◌then◌else◌, is_some, none, present, some, true, ℕ,
  ◌*◌, ◌++◌, ◌+◌, ◌-◌, ◌==◌, ◌∷◌,
}
use subscription_service.Plans.{Tier, same_tier}
use subscription_service.Models.{Subscription, EntitlementGrant, SubscriptionAudit}
use subscription_service.Settings.{Settings, one_day}
use subscription_service.Provider.{BillingProvider}
use subscription_service.Effects.{Exec, ok, pure, raise, raise_if, gets, http_error, ◌>>=◌, ◌>>◌}
use subscription_service.World.{World}
use subscription_service.World.Session.{
  query, flush_row, record_audit, mark_entitlements_stale, commit_and_invalidate,
}
use subscription_service.Sync.Mirror.{get_subscription, sync_subscription, audit_row}

-- days to move a cut-off by, which may be negative
pub data Days : Type 0 where
  forward back : ℕ → Days

shift : Days → ℕ → ℕ
shift (forward n) since = since + n * one_day
shift (back n) since = since - n * one_day

-- `session.get(EntitlementGrant, grant_id)`
unfoldable pub find_grant : String → List EntitlementGrant → Option EntitlementGrant
find_grant id grants = find (λ g. g.id == id) grants

-- the UPDATE of that row
unfoldable pub store_grant : EntitlementGrant → List EntitlementGrant → List EntitlementGrant
store_grant grant [] = []
store_grant grant (g ∷ gs) = if g.id == grant.id then grant ∷ gs else g ∷ store_grant grant gs

pub record GrantOrder : Type 0 where
  pub user_id : String
  pub tier : Tier
  pub reason : String
  pub expires_at : Option ℕ
  pub created_by : String

-- the audit row of a change of grants
grant_audit : ℕ → String → Option Tier → Option Tier → String → SubscriptionAudit
grant_audit now user_id from_tier to_tier reason = record {
  user_id = user_id;
  from_tier = from_tier;
  to_tier = to_tier;
  from_status = none;
  to_status = none;
  reason = reason;
  stripe_event_id = none;
  created_at = now;
}

unfoldable pub new_grant : String → GrantOrder → EntitlementGrant
new_grant id order = record {
  id = id;
  user_id = order.user_id;
  tier = order.tier;
  expires_at = order.expires_at;
  reason = order.reason;
  created_by = order.created_by;
  revoked_at = none;
}

module _ {R : Type 0} where
  required : Option Subscription → Exec (World R) Subscription
  required none = raise (http_error 404)
  required (some sub) = pure sub

  -- `_require_subscription`
  unfoldable pub require_subscription : String → Exec (World R) Subscription
  unfolding required
  require_subscription user_id = do found ← get_subscription user_id; required found

  extend_from : Days → Subscription → Option ℕ → Exec (World R) ℕ
  unfolding shift
  extend_from days sub none = raise (http_error 400)
  extend_from days sub (some since) = do
    now ← gets (λ w. w.now)
    record_audit (audit_row now sub sub "admin.extend_grace" none)
    flush_row (record sub { past_due_since = some (shift days since) })
    mark_entitlements_stale sub.user_id
    commit_and_invalidate
    pure (shift days since)

  -- `extend_grace`
  unfoldable pub extend_grace : String → Days → Exec (World R) ℕ
  unfolding extend_from
  extend_grace user_id days = do
    sub ← require_subscription user_id
    extend_from days sub sub.past_due_since

  unfoldable pub put_grants : List EntitlementGrant → Exec (World R) (Unit {0})
  put_grants grants w = (ok tt, record w { db = record w.db { grants = grants } })

  -- `create_grant`
  unfoldable pub create_grant : String → GrantOrder → Exec (World R) EntitlementGrant
  unfolding new_grant grant_audit
  create_grant id order = do
    raise_if (same_tier order.tier Tier.free) (http_error 400)
    grants ← query (λ db. db.grants)
    put_grants (grants ++ new_grant id order ∷ [])
    now ← gets (λ w. w.now)
    record_audit (grant_audit now order.user_id none (some order.tier) "admin.grant_created")
    mark_entitlements_stale order.user_id
    commit_and_invalidate
    pure (new_grant id order)

  revoke_open : EntitlementGrant → Bool → Exec (World R) (Unit {0})
  unfolding grant_audit
  revoke_open grant true = pure tt
  revoke_open grant false = do
    now ← gets (λ w. w.now)
    grants ← query (λ db. db.grants)
    put_grants (store_grant (record grant { revoked_at = some now }) grants)
    record_audit (grant_audit now grant.user_id (some grant.tier) none "admin.grant_revoked")
    mark_entitlements_stale grant.user_id
    commit_and_invalidate

  revoke_found : Option EntitlementGrant → Exec (World R) (Unit {0})
  unfolding revoke_open
  revoke_found none = raise (http_error 404)
  revoke_found (some grant) = revoke_open grant (is_some grant.revoked_at)

  -- `revoke_grant`
  unfoldable pub revoke_grant : String → Exec (World R) (Unit {0})
  unfolding revoke_found
  revoke_grant id = do found ← query (λ db. find_grant id db.grants); revoke_found found

module _ {R : Type 0} (settings : Settings) (stripe : BillingProvider R) where
  resync_customer : Option String → Exec (World R) (Unit {0})
  resync_customer none = raise (http_error 400)
  resync_customer (some customer) = do
    sync_subscription settings stripe "admin.resync" none customer
    commit_and_invalidate

  -- `resync`
  unfoldable pub resync : String → Exec (World R) (Unit {0})
  unfolding resync_customer
  resync user_id = do
    sub ← require_subscription user_id
    resync_customer (present sub.stripe_customer_id)
