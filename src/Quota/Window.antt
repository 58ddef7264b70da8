-- ===== src/Quota/Window.antt =====
-- app/services/quota.py: `window_for`, the key of a counter and the time for which it is kept.
pub mod Bounds
use subscription_service.Entitlements.{Entitlements}
use subscription_service.Prelude.{
  All, Bool, Bool-cases, Dict, IsDistinct, List, Option, Option-cases, String, [], any, ap,
  append-nil, append_assoc, arith, eq_iff, eq_refl, eqb, false, find, if◌then◌else◌, inl, inr,
  insert, insert-IsDistinct, is_some, leb, length, length-append, lookup, lookup-insert,
  lookup-remove, ltb, map, max, min, none, not, opt_eq, refl, remove, select, some, some-injective,
  subst, suc, sym, true, zero, ℕ, ◌%◌, ◌&&◌, ◌*◌, ◌++◌, ◌+◌, ◌-◌, ◌/◌, ◌<◌, ◌==◌, ◌||◌, ◌∙◌, ◌∷◌,
  ◌≡◌, ◌≢◌, ◌≤◌, ◌⊎◌,
}
use Prim.Native.String.{◌++◌ as append}
use subscription_service.Plans.{daily, billing_period, QuotaWindow}
use subscription_service.Decimal.{decimal}
use subscription_service.Settings.{second, one_day}
use subscription_service.Calendar.{month_start, midnight}

-- `_calendar_month`
unfoldable pub calendar_month : ℕ → ℕ × ℕ
calendar_month now =
    let start = month_start (now / one_day) in (start * one_day, month_start (start + 32) * one_day)

period_or_month : ℕ → Option ℕ → Option ℕ → ℕ × ℕ
unfolding calendar_month
period_or_month now (some start) (some end) =
    if leb start now && ltb now end then (start, end) else calendar_month now
period_or_month now _ _ = calendar_month now

unfoldable pub window_for : QuotaWindow → ℕ → Entitlements → ℕ × ℕ
unfolding period_or_month
window_for daily now e = (midnight now, midnight now + one_day)
window_for billing_period now e = period_or_month now e.current_period_start e.current_period_end

-- `_counter_key`
unfoldable pub counter_key : String → String → ℕ → String
counter_key user_id key start =
    let stamp = start / second in
    append "quota:" (append user_id (append ":" (append key (append ":" (decimal stamp)))))

-- the seconds for which a counter is kept
unfoldable pub quota_ttl : ℕ → ℕ → ℕ
quota_ttl now end = max 60 ((end - now) / second)
