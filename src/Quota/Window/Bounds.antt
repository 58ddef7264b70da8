-- ===== src/Quota/Window/Bounds.antt =====
-- app/services/quota.py: the window of a use against the time of the use.
use subscription_service.Entitlements.{Entitlements}
use subscription_service.Plans.{billing_period, daily, QuotaWindow}
use subscription_service.Calendar.Months.{month_start_bounds}
use subscription_service.Calendar.{midnight}
use subscription_service.Quota.Window.{period_or_month, quota_ttl, calendar_month, window_for}
use subscription_service.Prelude.{Option, arith, none, some, ℕ, ◌*◌, ◌+◌, ◌/◌, ◌<◌, ◌≤◌}
use subscription_service.Settings.{second, one_day}

midnight_bounds : (now : ℕ) → (midnight now ≤ now) × (now < midnight now + one_day)
unfolding midnight
midnight_bounds now = omega arith

calendar_month_bounds :
    (now : ℕ) → let (start, end) = calendar_month now in (start ≤ now) × (now < end)
unfolding calendar_month
calendar_month_bounds now = let (a, b) = month_start_bounds (now / one_day) in omega (arith, a, b)

period_bounds :
    (now : ℕ) (from until : Option ℕ)
    → let (start, end) = period_or_month now from until in (start ≤ now) × (now < end)
unfolding period_or_month
period_bounds now (some start) (some end) = ground (arith, calendar_month_bounds now)
period_bounds now (some start) none = calendar_month_bounds now
period_bounds now none until = calendar_month_bounds now

-- The window in which a use is counted has begun and has not ended, for a daily quota and for one of
-- a billing period, whatever period the entitlements name, or none; and its counter is kept until
-- less than a second before the end of the window, or longer.
pub window_for_bounds :
    (window : QuotaWindow) (now : ℕ) (e : Entitlements)
    → let (start, end) = window_for window now e in
      (start ≤ now) × (now < end) × (end < now + (quota_ttl now end + 1) * second)
unfolding window_for quota_ttl
window_for_bounds daily now e = let (a, b) = midnight_bounds now in (a, b, ground arith)
window_for_bounds billing_period now e =
    let (a, b) = period_bounds now e.current_period_start e.current_period_end in
    (a, b, ground arith)
