-- ===== src/Cache.antt =====
-- app/cache.py: `InMemoryBackend`, at a time given in microseconds. A stored text is the value that
-- it is the JSON of: a counter, or a cached entitlement set.
pub mod Calls
pub mod Refines
use subscription_service.Prelude.{
  ℕ, String, Option, none, some, ◌+◌, ◌*◌, leb, Dict, lookup, insert, remove, if◌then◌else◌,
}
use subscription_service.Effects.{Exec, Result, ok, err, cache_error}
use subscription_service.Entitlements.{Entitlements}
use subscription_service.Settings.{second}

pub data CacheValue : Type 0 where
  number : ℕ → CacheValue
  payload : Entitlements → CacheValue

-- a value and the time at which it expires
abbrev pub Cache : Type 0
Cache = Dict (CacheValue × ℕ)

-- the entry of `_live`, before an expired one is dropped
live_entry : ℕ → Option (CacheValue × ℕ) → Option CacheValue
live_entry now none = none
live_entry now (some (v, expires_at)) = if leb expires_at now then none else some v

drop_expired : ℕ → String → Option (CacheValue × ℕ) → Cache → Cache
drop_expired now key none cache = cache
drop_expired now key (some (v, expires_at)) cache =
    if leb expires_at now then remove key cache else cache

-- `_live`, which is also `get`
unfoldable pub get : ℕ → String → Cache → Option CacheValue × Cache
unfolding live_entry drop_expired
get now key cache =
    (live_entry now (lookup key cache), drop_expired now key (lookup key cache) cache)

unfoldable pub set : ℕ → String → CacheValue → ℕ → Cache → Cache
set now key value ttl cache = insert key (value, now + ttl * second) cache

unfoldable pub delete : String → Cache → Cache
delete key cache = remove key cache

expiry_of : Option (CacheValue × ℕ) → ℕ
expiry_of none = 0
expiry_of (some (v, expires_at)) = expires_at

-- `incr` on what `_live` returned; `int` of a text that is no number raises
bump : ℕ → String → ℕ → Option CacheValue → Cache → Result ℕ × Cache
unfolding expiry_of
bump now key ttl none cache = (ok 1, insert key (number 1, now + ttl * second) cache)
bump now key ttl (some (number n)) cache =
    (ok (n + 1), insert key (number (n + 1), expiry_of (lookup key cache)) cache)
bump now key ttl (some (payload e)) cache = (err cache_error, cache)

unfoldable pub incr : ℕ → String → ℕ → Exec Cache ℕ
unfolding bump get
incr now key ttl cache = let (found, cache') = get now key cache in bump now key ttl found cache'

as_int : Option CacheValue → Result ℕ
as_int none = ok 0
as_int (some (number n)) = ok n
as_int (some (payload e)) = err cache_error

unfoldable pub get_int : ℕ → String → Exec Cache ℕ
unfolding as_int get
get_int now key cache = let (found, cache') = get now key cache in (as_int found, cache')
