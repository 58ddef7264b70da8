-- ===== src/Entitlements/Read.antt =====
-- app/services/entitlements.py: `resolve_entitlements`, through the cache and with its fallbacks.
pub mod Keeps
pub mod Laws
mod Copies
pub mod Outage
use subscription_service.World.Session.{query, entitlement_key, cache_read, stale_key, cache_write}
use subscription_service.Effects.{cache_error, ok, err, Exec, Error, Result}
use subscription_service.World.{World}
use subscription_service.Settings.{Settings}
use subscription_service.Prelude.{Option, String, if◌then◌else◌, ltb, none, some, ℕ}
use subscription_service.Entitlements.{Entitlements}
use subscription_service.Cache.{CacheValue, payload, number}
use subscription_service.Entitlements.Resolve.{resolve_from, ttl_for}

-- _STALE_TTL, in seconds
abbrev pub stale_ttl : ℕ
stale_ttl = 86_400

module _ {R : Type 0} where
  caught : Result (Option CacheValue) × World R → Option CacheValue × World R
  caught (ok found, w) = (found, w)
  caught (err e, w) = (none, w)

  -- `_cache_get`: a cache that fails is a miss
  unfoldable pub try_read : String → World R → Option CacheValue × World R
  unfolding caught
  try_read key w = caught (cache_read key w)

  -- `_cache_set`: a write that fails is ignored
  unfoldable pub try_write : String → CacheValue → ℕ → World R → World R
  try_write key value ttl w = (cache_write key value ttl w).1

  -- the copies kept of a fresh answer
  unfoldable pub remember : Settings → String → Entitlements → World R → World R
  remember settings user_id e w =
      let ttl = ttl_for settings w.now e in
      try_write (stale_key user_id) (payload e) stale_ttl
        (if ltb 0 ttl then try_write (entitlement_key user_id) (payload e) ttl w else w)

  -- what is left when the database failed with `e`
  serve_stale : Error → Option CacheValue × World R → Result Entitlements × World R
  serve_stale e (none, w) = (err e, w)
  serve_stale e (some (payload stale), w) = (ok stale, w)
  serve_stale e (some (number n), w) = (err cache_error, w)

  answer : Settings → String → Result Entitlements × World R → Result Entitlements × World R
  unfolding serve_stale
  answer settings user_id (ok fresh, w) = (ok fresh, remember settings user_id fresh w)
  answer settings user_id (err e, w) = serve_stale e (try_read (stale_key user_id) w)

  after_read : Settings → String → Option CacheValue × World R → Result Entitlements × World R
  unfolding answer
  after_read settings user_id (some (payload cached), w) = (ok cached, w)
  after_read settings user_id (some (number n), w) = (err cache_error, w)
  after_read settings user_id (none, w) =
      answer settings user_id (query (resolve_from settings w.now user_id) w)

  unfoldable pub resolve_entitlements : Settings → String → Exec (World R) Entitlements
  unfolding after_read
  resolve_entitlements settings user_id w =
      after_read settings user_id (try_read (entitlement_key user_id) w)
