-- ===== src/Calendar/Months.antt =====
-- The months of the calendar as consecutive runs of days.
use subscription_service.Prelude.{
  ◌/◌, Bool-cases, ap, arith, inl, inr, ltb, suc, sym, zero, ℕ, ◌*◌, ◌+◌, ◌-◌, ◌<◌, ◌≡◌, ◌≤◌,
}
use subscription_service.Calendar.{month_start, month_of, month_length, month_at, days_of}

pub month_length_bounds : (k : ℕ) → (28 ≤ month_length k) × (month_length k ≤ 31)
unfolding month_length days_of
month_length_bounds k = ground arith

-- the days of `n` months from month `k` on
unfoldable days_before : ℕ → ℕ → ℕ
days_before k zero = 0
days_before k (suc n) = month_length k + days_before (k + 1) n

same_month : (k n : ℕ) → k + 1 + n ≡ k + suc n
same_month k n = omega arith

first_month : (k : ℕ) → k + 0 ≡ k
first_month k = omega arith

days_before_next : (n k : ℕ) → days_before k (suc n) ≡ days_before k n + month_length (k + n)
unfolding days_before
days_before_next zero k = rw (first_month k) (omega arith)
days_before_next (suc n) k =
    let ih = days_before_next n (k + 1) in
    let e = ap month_length (same_month k n) in omega (arith, ih, e)

-- every day falls into some month
locate :
    (fuel k rest : ℕ)
    → rest < 28 * fuel
    → (n : ℕ) × (off : ℕ) × (rest ≡ days_before k n + off) × (off < month_length (k + n))
unfolding days_before
locate zero k rest h = absurd (omega (arith, h))
locate (suc fuel) k rest h = elim (Bool-cases (ltb rest (month_length k))) [
  | inl here ↦ (0, rest, omega arith, rw (first_month k) (ground (arith, here)))
  | inr later ↦
      let long = month_length_bounds k in
      let past : month_length k ≤ rest = ground (arith, later) in
      let (n, off, e, p) =
        locate fuel (k + 1) (rest - month_length k) (omega (arith, long, past)) in
      (suc n, off, omega (arith, e, past), rw (sym (same_month k n)) p)
]

month_at_place :
    (n fuel k off : ℕ)
    → off < month_length (k + n)
    → days_before k n + off < 28 * fuel
    → month_at fuel k (days_before k n + off) ≡ (k + n, off)
unfolding days_before month_at
month_at_place n zero k off p h = absurd (omega (arith, h))
month_at_place zero (suc fuel) k off p h =
    let p' = rw (first_month k) at p in rw (first_month k) (ground arith)
month_at_place (suc n) (suc fuel) k off p h =
    let p' = rw (sym (same_month k n)) at p in
    let long = month_length_bounds k in
    let ih = month_at_place n fuel (k + 1) off p' (omega (arith, h, long)) in
    let skipped : month_length k + days_before (k + 1) n + off - month_length k
        ≡ days_before (k + 1) n + off =
      omega arith in
    rw (skipped, ih, same_month k n) (ground arith)

-- a day whose place in its month is known
month_of_place :
    (n off : ℕ) → off < month_length (0 + n) → month_of (days_before 0 n + off) ≡ (0 + n, off)
unfolding month_of
month_of_place n off p = month_at_place n _ 0 off p (omega arith)

month_start_place :
    (n off : ℕ) → off < month_length (0 + n) → month_start (days_before 0 n + off) ≡ days_before 0 n
unfolding month_start
month_start_place n off p = rw (month_of_place n off p) (omega arith)

-- the first of the month is at most the day, and 32 days on it is the first of the next month
pub month_start_bounds :
    (day : ℕ) → (month_start day ≤ day) × (day < month_start (month_start day + 32))
unfolding month_of
month_start_bounds day =
    let (n, off, e, p) = locate (day / 28 + 1) 0 day (omega arith) in
    let long = month_length_bounds (0 + n) in
    let next = month_length_bounds (0 + suc n) in
    let s = month_start_place n off p in
    let step = days_before_next n 0 in
    let later : days_before 0 n + 32 ≡ days_before 0 (suc n) + (32 - month_length (0 + n)) =
      omega (arith, long, step) in
    let t = month_start_place (suc n) (32 - month_length (0 + n)) (omega (arith, long, next)) in
    rw (e, s, later, t) (omega (arith, long, p, step))
