-- ===== src/Entitlements/Read/Keeps.antt =====
-- app/services/entitlements.py: the read path under the invariant of the service.
use subscription_service.Prelude.{Bool-cases, Option, String, arith, inl, inr, ltb, none, some, ℕ}
use subscription_service.Cache.{Cache, CacheValue, payload, number}
use subscription_service.Settings.{Settings}
use subscription_service.Effects.{Exec, Result, Error, ok, err}
use subscription_service.Effects.Triple.{Triple-end, Triple-keeps}
use subscription_service.World.{World}
use subscription_service.World.Session.{
  cache_call, cache_read, cache_write, entitlement_key, stale_key,
}
use subscription_service.Entitlements.{Entitlements}
use subscription_service.Entitlements.Resolve.{ttl_for}
use subscription_service.Entitlements.Read.{
  try_read, caught, try_write, remember, serve_stale, answer, after_read, resolve_entitlements,
}
use subscription_service.Service.Calm.{IsCalm, Calm, Calm-of, query-Calm}

module _ {R : Type 0} where
  cache_call-Calm : {A : Type 0} (op : ℕ → Exec Cache A) → Calm (cache_call {R = R} op)
  unfolding cache_call
  cache_call-Calm op = Calm-of (cache_call op) (λ w. ground arith)

  caught-IsCalm :
      (r : Result (Option CacheValue)) (w : World R) → IsCalm w → IsCalm (caught (r, w)).1
  unfolding caught
  caught-IsCalm (ok v) w h = h
  caught-IsCalm (err e) w h = h

  try_read-IsCalm : (key : String) (w : World R) → IsCalm w → IsCalm (try_read key w).1
  unfolding try_read cache_read
  try_read-IsCalm key w h = caught-IsCalm _ _ (Triple-end IsCalm _ w (cache_call-Calm _) h)

  try_write-IsCalm :
      (key : String) (value : CacheValue) (ttl : ℕ) (w : World R)
      → IsCalm w
      → IsCalm (try_write key value ttl w)
  unfolding try_write cache_write
  try_write-IsCalm key value ttl w h = Triple-end IsCalm _ w (cache_call-Calm _) h

  remember-IsCalm :
      (settings : Settings) (user_id : String) (e : Entitlements) (w : World R)
      → IsCalm w
      → IsCalm (remember settings user_id e w)
  unfolding remember
  remember-IsCalm settings user_id e w h = elim (Bool-cases (ltb 0 (ttl_for settings w.now e))) [
    | inl kept ↦ rw kept (try_write-IsCalm _ _ _ _ (try_write-IsCalm _ _ _ w h))
    | inr short ↦ rw short (try_write-IsCalm _ _ _ w h)
  ]

  serve_stale-IsCalm :
      (x : Error) (found : Option CacheValue) (w : World R)
      → IsCalm w
      → IsCalm (serve_stale x (found, w)).1
  unfolding serve_stale
  serve_stale-IsCalm x none w h = h
  serve_stale-IsCalm x (some (payload e)) w h = h
  serve_stale-IsCalm x (some (number n)) w h = h

  answer-IsCalm :
      (settings : Settings) (user_id : String) (r : Result Entitlements) (w : World R)
      → IsCalm w
      → IsCalm (answer settings user_id (r, w)).1
  unfolding answer
  answer-IsCalm settings user_id (ok fresh) w h = remember-IsCalm settings user_id fresh w h
  answer-IsCalm settings user_id (err e) w h =
      serve_stale-IsCalm e _ _ (try_read-IsCalm (stale_key user_id) w h)

  after_read-IsCalm :
      (settings : Settings) (user_id : String) (found : Option CacheValue) (w : World R)
      → IsCalm w
      → IsCalm (after_read settings user_id (found, w)).1
  unfolding after_read
  after_read-IsCalm settings user_id (some (payload e)) w h = h
  after_read-IsCalm settings user_id (some (number n)) w h = h
  after_read-IsCalm settings user_id none w h =
      answer-IsCalm settings user_id _ _ (Triple-end IsCalm _ w (query-Calm _) h)

  pub resolve_entitlements-Calm :
      (settings : Settings) (user_id : String)
      → Calm (resolve_entitlements {R = R} settings user_id)
  unfolding resolve_entitlements
  resolve_entitlements-Calm settings user_id =
      Triple-keeps IsCalm _ λ w h.
        after_read-IsCalm settings user_id _ _ (try_read-IsCalm (entitlement_key user_id) w h)
