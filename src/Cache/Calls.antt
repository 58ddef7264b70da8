-- ===== src/Cache/Calls.antt =====
-- app/cache.py: sequences of calls of the in-memory backend, and of a store that forgets nothing.
use subscription_service.Prelude.{
  List, Option, String, [], if◌then◌else◌, leb, none, some, ℕ, ◌*◌, ◌+◌, ◌==◌, ◌∷◌,
}
use subscription_service.Settings.{second}
use subscription_service.Effects.{Result, ok, err, cache_error}
use subscription_service.Cache.{CacheValue, number, payload, Cache, get, set, delete, incr}

-- what a caller asks of the cache
pub data CacheCall : Type 0 where
  reading : String → CacheCall
  writing : String → CacheValue → ℕ → CacheCall
  dropping : String → CacheCall
  counting : String → ℕ → CacheCall

-- what it is told: nothing, a value that may be there, or a count
pub data Told : Type 0 where
  done : Told
  found : Option CacheValue → Told
  counted : Result ℕ → Told

-- the specification: an entry for each key, with the time at which it ends
abbrev pub Entries : Type 0
Entries = String → Option (CacheValue × ℕ)

abbrev pub put : String → Option (CacheValue × ℕ) → Entries → Entries
put k entry entries j = if k == j then entry else entries j

-- an entry, unless it has ended
abbrev pub live : ℕ → Option (CacheValue × ℕ) → Option (CacheValue × ℕ)
live now none = none
live now (some (v, ends)) = if leb ends now then none else some (v, ends)

abbrev pub value_in : Option (CacheValue × ℕ) → Option CacheValue
value_in none = none
value_in (some (v, ends)) = some v

unfoldable pub spec_count : ℕ → String → ℕ → Option (CacheValue × ℕ) → Entries → Told × Entries
spec_count now k ttl none entries =
    (counted (ok 1), put k (some (number 1, now + ttl * second)) entries)
spec_count now k ttl (some (number n, ends)) entries =
    (counted (ok (n + 1)), put k (some (number (n + 1), ends)) entries)
spec_count now k ttl (some (payload e, ends)) entries = (counted (err cache_error), entries)

-- the specification of a call
unfoldable pub spec : ℕ → CacheCall → Entries → Told × Entries
unfolding spec_count
spec now (reading k) entries = (found (value_in (live now (entries k))), entries)
spec now (writing k v ttl) entries = (done, put k (some (v, now + ttl * second)) entries)
spec now (dropping k) entries = (done, put k none entries)
spec now (counting k ttl) entries = spec_count now k ttl (live now (entries k)) entries

unfoldable pub told_read : Option CacheValue × Cache → Told × Cache
told_read (v, cache) = (found v, cache)

unfoldable pub told_count : Result ℕ × Cache → Told × Cache
told_count (r, cache) = (counted r, cache)

-- the backend
unfoldable pub backend : ℕ → CacheCall → Cache → Told × Cache
unfolding told_read told_count
backend now (reading k) cache = told_read (get now k cache)
backend now (writing k v ttl) cache = (done, set now k v ttl cache)
backend now (dropping k) cache = (done, delete k cache)
backend now (counting k ttl) cache = told_count (incr now k ttl cache)

-- what the callers of a sequence of calls, each at its time, are told
unfoldable pub run_backend : List (ℕ × CacheCall) → Cache → List Told
run_backend [] cache = []
run_backend ((now, call) ∷ calls) cache =
    let (told, cache') = backend now call cache in told ∷ run_backend calls cache'

unfoldable pub run_spec : List (ℕ × CacheCall) → Entries → List Told
run_spec [] entries = []
run_spec ((now, call) ∷ calls) entries =
    let (told, entries') = spec now call entries in told ∷ run_spec calls entries'
