-- ===== src/Calendar.antt =====
-- The dates of Python's `datetime` as app/services/quota.py uses them: midnight, and the first day of
-- a month. A day is counted from 1970-01-01, and so is a month; years are Gregorian.
pub mod Months
use subscription_service.Prelude.{
  All, Bool, Bool-cases, Dict, IsDistinct, List, Option, Option-cases, String, [], any, ap,
  append-nil, append_assoc, arith, eq_iff, eq_refl, eqb, false, find, if◌then◌else◌, inl, inr,
  insert, insert-IsDistinct, is_some, leb, length, length-append, lookup, lookup-insert,
  lookup-remove, ltb, map, max, min, none, not, opt_eq, refl, remove, select, some, some-injective,
  subst, suc, sym, true, zero, ℕ, ◌%◌, ◌&&◌, ◌*◌, ◌++◌, ◌+◌, ◌-◌, ◌/◌, ◌<◌, ◌==◌, ◌||◌, ◌∙◌, ◌∷◌,
  ◌≡◌, ◌≢◌, ◌≤◌, ◌⊎◌,
}
use subscription_service.Settings.{one_day}

unfoldable pub is_leap : ℕ → Bool
is_leap year = eqb (year % 4) 0 && not (eqb (year % 100) 0) || eqb (year % 400) 0

-- the days of a month of a year, January as 0
days_of : ℕ → Bool → ℕ
days_of month leap =
    if eqb month 1
    then (if leap then 29 else 28)
    else if eqb month 3 || eqb month 5 || eqb month 8 || eqb month 10
    then 30
    else 31

-- the days of the k-th month since January 1970
unfoldable pub month_length : ℕ → ℕ
unfolding days_of is_leap
month_length k = days_of (k % 12) (is_leap (1_970 + k / 12))

-- the month in which a day falls that is `rest` days after the first of month `k`, and its place
-- there
unfoldable pub month_at : ℕ → ℕ → ℕ → ℕ × ℕ
month_at zero k rest = (k, rest)
month_at (suc fuel) k rest =
    let later = month_at fuel (k + 1) (rest - month_length k) in
    if ltb rest (month_length k) then (k, rest) else later

-- the walk from January 1970, with a round for every 28 days
unfoldable pub month_of : ℕ → ℕ × ℕ
month_of day = month_at (day / 28 + 1) 0 day

-- `date.replace(day=1)`
unfoldable pub month_start : ℕ → ℕ
month_start day = day - (month_of day).1

-- `now.replace(hour=0, minute=0, second=0, microsecond=0)`
unfoldable pub midnight : ℕ → ℕ
midnight now = now - now % one_day
