-- ===== src/RateLimit.antt =====
-- app/ratelimit.py: `enforce` and the windows of the contact form, for a caller that is already known.
-- Metrics and log lines are left out.
pub mod Laws
use subscription_service.World.{World}
use subscription_service.Effects.{rate_limited, err, Result, ok, Exec}
use subscription_service.Prelude.{
  All, Bool, Bool-cases, Dict, IsDistinct, List, Option, Option-cases, String, [], any, ap,
  append-nil, append_assoc, arith, eq_iff, eq_refl, eqb, false, find, if◌then◌else◌, inl, inr,
  insert, insert-IsDistinct, is_some, leb, length, length-append, lookup, lookup-insert,
  lookup-remove, ltb, map, max, min, none, not, opt_eq, refl, remove, select, some, some-injective,
  subst, suc, sym, true, zero, ℕ, ◌%◌, ◌&&◌, ◌*◌, ◌++◌, ◌+◌, ◌-◌, ◌/◌, ◌<◌, ◌==◌, ◌||◌, ◌∙◌, ◌∷◌,
  ◌≡◌, ◌≢◌, ◌≤◌, ◌⊎◌,
}
use Prim.Native.String.{◌++◌ as append}
use subscription_service.Cache
use subscription_service.Decimal.{decimal}
use subscription_service.Settings.{Settings, second}
use subscription_service.World.Session.{cache_call}

pub record Window : Type 0 where
  pub name : String
  pub limit : ℕ
  pub seconds : ℕ

-- the number of the window that holds a time
unfoldable pub bucket_of : ℕ → ℕ → ℕ
bucket_of now seconds = now / (seconds * second)

unfoldable pub rate_key : String → String → String → ℕ → String
rate_key scope name identity bucket = append "rl:" (
    append scope
      (append ":" (append name (append ":" (append identity (append ":" (decimal bucket)))))))

-- the seconds to wait for the next window
unfoldable pub retry_after : ℕ → ℕ → ℕ
retry_after now seconds = max 1 (((bucket_of now seconds + 1) * seconds * second - now) / second)

-- `contact_sales_windows`
unfoldable pub contact_sales_windows : Settings → List Window
contact_sales_windows settings =
    record { name = "hour"; limit = settings.contact_sales_per_hour; seconds = 3_600 }
    ∷ record { name = "day"; limit = settings.contact_sales_per_day; seconds = 86_400 }
    ∷ []

module _ {R : Type 0} where
  unfoldable pub count_request : String → String → Window → Exec (World R) ℕ
  count_request scope identity window w =
      cache_call
        (λ now cache.
          Cache.incr now (rate_key scope window.name identity (bucket_of now window.seconds))
            window.seconds cache)
        w

  -- what follows a count: a cache that fails ends the check, and a count over the limit refuses
  judge :
      String → Window → Exec (World R) (Unit {0}) → Result ℕ × World R → Result (Unit {0}) × World R
  judge scope window rest (err x, w) = (ok tt, w)
  judge scope window rest (ok used, w) =
      if ltb window.limit used
      then (
        err (rate_limited scope window.limit window.seconds (retry_after w.now window.seconds)),
        w,
      )
      else rest w

  -- `enforce`; a limit of 0 disables a window, and there are no limits below 0
  unfoldable pub enforce : String → String → List Window → Exec (World R) (Unit {0})
  unfolding judge
  enforce scope identity [] w = (ok tt, w)
  enforce scope identity (window ∷ windows) w =
      if eqb window.limit 0
      then enforce scope identity windows w
      else judge scope window (enforce scope identity windows)
          (count_request scope identity window w)
