-- ===== src/World/Session.antt =====
-- The session of app/db.py as the services use it, the invalidation marks that live on it
-- (app/services/entitlements.py), the audit trail (app/services/audit.py), and the calls that leave
-- the process.
pub mod Commit
use subscription_service.Cache.{CacheValue, Cache}
use subscription_service.World.Database.{store, clashes}
use subscription_service.Models.{Subscription, SubscriptionAudit}
use subscription_service.Effects.{
  cache_error, database_error, integrity_error, err, ok, Exec, Result,
}
use subscription_service.Prelude.{
  ◌==◌, ◌==◌, if◌then◌else◌, ◌++◌, false, ◌∷◌, Bool, Option, List, [], String, ℕ,
}
use Prim.Native.String.{◌++◌ as append}
use subscription_service.Cache
use subscription_service.World.{World, Db}

-- the keys of `_key` and `_stale_key`
abbrev pub entitlement_key : String → String
entitlement_key user_id = append "ent:v2:" user_id

abbrev pub stale_key : String → String
stale_key user_id = append "ent:v2:stale:" user_id

-- `set.add`
unfoldable pub add_mark : String → List String → List String
add_mark user_id [] = user_id ∷ []
add_mark user_id (m ∷ ms) = if m == user_id then m ∷ ms else m ∷ add_mark user_id ms

module _ {R : Type 0} where
  -- a statement that reads, which fails when the database cannot be reached
  unfoldable pub query : {A : Type 0} → (Db → A) → Exec (World R) A
  query read w = if w.db_up then (ok (read w.db), w) else (err database_error, w)

  -- `session.add` of an audit row: `audit.record`
  unfoldable pub record_audit : SubscriptionAudit → Exec (World R) (Unit {0})
  record_audit row w = (ok tt, record w { db = record w.db { audit = w.db.audit ++ row ∷ [] } })

  -- flushing a changed or a new row, under the unique constraints
  unfoldable pub flush_row : Subscription → Exec (World R) (Unit {0})
  flush_row sub w =
      if clashes sub w.db.subscriptions
      then (err integrity_error, w)
      else (ok tt, record w { db = record w.db { subscriptions = store sub w.db.subscriptions } })

  -- `mark_entitlements_stale`
  unfoldable pub mark_entitlements_stale : String → Exec (World R) (Unit {0})
  mark_entitlements_stale user_id w = (ok tt, record w { marks = add_mark user_id w.marks })

  -- `session.commit()`; `_warn_on_undrained_marks` drops the marks that are left
  unfoldable pub commit : Exec (World R) (Unit {0})
  commit w =
      if w.db_up then (ok tt, record w { saved = w.db; marks = [] }) else (err database_error, w)

  -- `session.rollback()`, with `_discard_marks_on_rollback`
  unfoldable pub rollback : World R → World R
  rollback w = record w { db = w.saved; marks = [] }

  -- whether the next call of the cache fails, and the world after it
  cache_fault : World R → List Bool → Bool × World R
  cache_fault w [] = (false, w)
  cache_fault w (f ∷ fs) = (f, record w { cache_faults = fs })

  cache_result : {A : Type 0} → World R → Result A × Cache → Result A × World R
  cache_result w (r, cache') = (r, record w { cache = cache' })

  -- a call of the cache backend
  unfoldable pub cache_call : {A : Type 0} → (ℕ → Exec Cache A) → Exec (World R) A
  unfolding cache_fault cache_result
  cache_call op w =
      let (failing, w') = cache_fault w w.cache_faults in
      if failing then (err cache_error, w') else cache_result w' (op w'.now w'.cache)

  -- `get_cache().get`, `.set` and `.delete` as calls
  unfoldable pub cache_read : String → Exec (World R) (Option CacheValue)
  cache_read key =
      cache_call (λ now cache. (ok (Cache.get now key cache).0, (Cache.get now key cache).1))

  unfoldable pub cache_write : String → CacheValue → ℕ → Exec (World R) (Unit {0})
  cache_write key value ttl = cache_call (λ now cache. (ok tt, Cache.set now key value ttl cache))

  -- `invalidate_entitlements`
  unfoldable pub invalidate_entitlements : String → Exec (World R) (Unit {0})
  invalidate_entitlements user_id =
      cache_call (λ now cache. (ok tt, Cache.delete (entitlement_key user_id) cache))

  -- the loop of `commit_and_invalidate`: a delete that fails is swallowed
  unfoldable pub invalidate_all : List String → World R → World R
  invalidate_all [] w = w
  invalidate_all (u ∷ us) w = invalidate_all us (invalidate_entitlements u w).1

  unfoldable pub drain : List String → Result (Unit {0}) × World R → Result (Unit {0}) × World R
  drain users (err e, w) = (err e, w)
  drain users (ok _, w) = (ok tt, invalidate_all users w)

  -- `commit_and_invalidate`: the marks are taken, then the commit, then the deletes
  unfoldable pub commit_and_invalidate : Exec (World R) (Unit {0})
  unfolding drain
  commit_and_invalidate w = drain w.marks (commit (record w { marks = [] }))

  -- a call of the billing provider
  unfoldable pub provider_call : {A : Type 0} → Exec R A → Exec (World R) A
  provider_call call w = let (r, remote') = call w.remote in (r, record w { remote = remote' })
