-- ===== src/Entitlements/Read/Outage.antt =====
-- `resolve_entitlements` while the database cannot be reached, after it could.
use subscription_service.Prelude.{
  Bool-cases, String, [], ap, arith, false, if◌then◌else◌, inl, inr, lookup, ltb, none, refl,
  remove, some, sym, true, ℕ, ◌+◌, ◌*◌, ◌<◌, ◌∙◌, ◌≡◌, ◌≤◌, ◌⊎◌,
}
use subscription_service.Cache
use subscription_service.Cache.{Cache, CacheValue, number, payload}
use subscription_service.Effects.{database_error, err, ok}
use subscription_service.Entitlements.{Entitlements}
use subscription_service.Entitlements.Resolve.{resolve_from, ttl_for}
use subscription_service.Entitlements.Read.{
  stale_ttl, try_read, caught, try_write, remember, after_read, answer, serve_stale,
  resolve_entitlements,
}
use subscription_service.Settings.{Settings, second}
use subscription_service.World.{World, Db}
use subscription_service.World.Session.Commit.{query_up}
use subscription_service.World.Session.{
  cache_call, cache_read, cache_write, entitlement_key, stale_key, query,
}
use subscription_service.Entitlements.Read.Copies.{
  IsKept, get_live, get_absent, get_dead, absent_after, insert-IsKept, inserted, stale_stays,
  still-IsKept,
}

module _ {R : Type 0} where
  query_down :
      {A : Type 0} (read : Db → A) (w : World R)
      → w.db_up ≡ false
      → query read w ≡ (err database_error, w)
  unfolding query
  query_down read w down = ap (λ b. if b then (ok (read w.db), w) else (err database_error, w)) down

  -- where the cache answers
  try_read_clear :
      (key : String) (w : World R)
      → w.cache_faults ≡ []
      → try_read key w
        ≡ ((Cache.get w.now key w.cache).0, record w { cache = (Cache.get w.now key w.cache).1 })
  unfolding try_read caught cache_read cache_call
  try_read_clear key w clear = rw clear refl

  try_write_clear :
      (key : String) (value : CacheValue) (ttl : ℕ) (w : World R)
      → w.cache_faults ≡ []
      → try_write key value ttl w ≡ record w { cache = Cache.set w.now key value ttl w.cache }
  unfolding try_write cache_write cache_call
  try_write_clear key value ttl w clear = rw clear refl

  remember_clear :
      (settings : Settings) (user_id : String) (e : Entitlements) (w : World R)
      → w.cache_faults ≡ []
      → lookup (entitlement_key user_id) w.cache ≡ none
      → IsKept user_id e (w.now + stale_ttl * second) (remember settings user_id e w).cache
  unfolding remember Cache.set
  remember_clear settings user_id e w clear absent =
      elim (Bool-cases (ltb 0 (ttl_for settings w.now e))) [
        | inl kept ↦ rw kept (
            rw
              (try_write_clear (entitlement_key user_id) (payload e) (ttl_for settings w.now e) w
                clear)
              (rw
                (try_write_clear (stale_key user_id) (payload e) stale_ttl
                  (record w {
                    cache =
                        Cache.set w.now (entitlement_key user_id) (payload e)
                          (ttl_for settings w.now e) w.cache;
                  })
                  clear)
                (insert-IsKept user_id e (w.now + stale_ttl * second)
                  (Cache.set w.now (entitlement_key user_id) (payload e) (ttl_for settings w.now e)
                    w.cache)
                  (inr (_, inserted (entitlement_key user_id) (payload e, _) w.cache)))))
        | inr short ↦ rw short (
            rw (try_write_clear (stale_key user_id) (payload e) stale_ttl w clear)
              (insert-IsKept user_id e (w.now + stale_ttl * second) w.cache (inl absent)))
      ]

  -- a miss while the database answers
  asked :
      (settings : Settings) (user_id : String) (w : World R)
      → w.db_up ≡ true
      → w.cache_faults ≡ []
      → (Cache.get w.now (entitlement_key user_id) w.cache).0 ≡ none
      → let e = resolve_from settings w.now user_id w.db in
        let (r, w') = resolve_entitlements settings user_id w in
        (r ≡ ok e) × IsKept user_id e (w.now + stale_ttl * second) w'.cache
  unfolding resolve_entitlements after_read answer
  asked settings user_id w up clear miss =
      let key = entitlement_key user_id in
      rw (try_read_clear key w clear) (
        rw miss (
          rw
            (query_up (resolve_from settings w.now user_id)
              (record w { cache = (Cache.get w.now key w.cache).1 }) up)
            (
              refl,
              remember_clear settings user_id (resolve_from settings w.now user_id w.db)
                  (record w { cache = (Cache.get w.now key w.cache).1 }) clear
                  (absent_after w.now key w.cache miss),
            )))

  -- nothing fresh is left, and the database does not answer
  served :
      (settings : Settings) (user_id : String) (v : World R) (e : Entitlements) (until : ℕ)
      → v.db_up ≡ false
      → v.cache_faults ≡ []
      → lookup (stale_key user_id) v.cache ≡ some (payload e, until)
      → v.now < until
      → (after_read settings user_id (none, v)).0 ≡ ok e
  unfolding after_read answer serve_stale
  served settings user_id v e until down clear held early =
      rw (query_down (resolve_from settings v.now user_id) v down) (
        rw (try_read_clear (stale_key user_id) v clear)
          (rw (get_live v.now (stale_key user_id) v.cache (payload e) until held early) refl))

  -- a read while it does not
  told :
      (settings : Settings) (user_id : String) (v : World R) (e : Entitlements) (until : ℕ)
      → v.db_up ≡ false
      → v.cache_faults ≡ []
      → IsKept user_id e until v.cache
      → v.now < until
      → (resolve_entitlements settings user_id v).0 ≡ ok e
  unfolding resolve_entitlements after_read
  told settings user_id v e until down clear kept early =
      let key = entitlement_key user_id in
      rw (try_read_clear key v clear) (elim kept.fresh [
        | inl absent ↦
            rw (get_absent v.now key v.cache absent)
              (served settings user_id v e until down clear kept.stale early)
        | inr (t, held) ↦ elim (Bool-cases (ltb v.now t)) [
          | inl live ↦
              rw (get_live v.now key v.cache (payload e) t held (ground (arith, live))) refl
          | inr dead ↦
              let dead' : t ≤ v.now = ground (arith, dead) in
              rw (get_dead v.now key v.cache (payload e) t held dead') (
                served settings user_id (record v { cache = remove key v.cache }) e until down clear
                  (stale_stays user_id e until t v.now v.cache held kept.stale dead' early) early)
        ]
      ])

  -- A user is asked for while the database and the cache answer and no answer is cached; later, while
  -- the database does not answer and the cache does, and less than a day after that, the same answer
  -- is given again, where the copy for outages has not been touched and the other one has not been
  -- either, or is gone, as after an invalidation.
  pub resolve_entitlements_outage :
      (settings : Settings) (user_id : String) (w v : World R)
      → w.db_up ≡ true
      → w.cache_faults ≡ []
      → (Cache.get w.now (entitlement_key user_id) w.cache).0 ≡ none
      → v.db_up ≡ false
      → v.cache_faults ≡ []
      → v.now < w.now + stale_ttl * second
      → lookup (stale_key user_id) v.cache
        ≡ lookup (stale_key user_id) (resolve_entitlements settings user_id w).1.cache
      → (lookup (entitlement_key user_id) v.cache
          ≡ lookup (entitlement_key user_id) (resolve_entitlements settings user_id w).1.cache)
        ⊎ (lookup (entitlement_key user_id) v.cache ≡ none)
      → ((resolve_entitlements settings user_id w).0
          ≡ ok (resolve_from settings w.now user_id w.db))
        × ((resolve_entitlements settings user_id v).0
            ≡ (resolve_entitlements settings user_id w).0)
  resolve_entitlements_outage settings user_id w v up clear miss down clear' early same_stale
        same_fresh =
      let (answered, kept) = asked settings user_id w up clear miss in
      (
        answered,
        told settings user_id v (resolve_from settings w.now user_id w.db) _ down clear'
              (still-IsKept user_id _ _ (resolve_entitlements settings user_id w).1.cache v.cache
                kept same_stale same_fresh)
              early
            ∙ sym answered,
      )
