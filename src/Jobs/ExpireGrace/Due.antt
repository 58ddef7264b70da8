-- ===== src/Jobs/ExpireGrace/Due.antt =====
-- app/jobs/expire_grace.py: the rows that are due for a report, described without the job's tests.
use subscription_service.Prelude.{
  Bool, Option-cases, ap, IsIn, List, String, [], any, arith, eq_iff, false, inl, inr, leb, not,
  refl, some, sym, true, ℕ, ◌+◌, ◌<◌, ◌&&◌, ◌∙◌, ◌∷◌, ◌≡◌, ◌≢◌, ◌≤◌,
}
use subscription_service.Plans.{Tier, same_tier}
use subscription_service.Models.{is_past_due, Subscription, SubscriptionAudit, SubscriptionStatus}
use subscription_service.Settings.{Settings, dunning_grace}
use subscription_service.Policy.{grace_expired, grace_ends_at, reached}
use subscription_service.Jobs.ExpireGrace.{
  reports, expired_reason, reported_since, already_reported, is_candidate,
}

-- A row is due for a report: it is past due on a paid tier since a known time, its grace window has
-- ended, and the trail holds no report about its user from after that time.
pub record IsDue (settings : Settings) (now : ℕ) (audit : List SubscriptionAudit)
    (sub : Subscription) : Type 0 where
  pub past_due : sub.status ≡ SubscriptionStatus.past_due
  pub paid : sub.tier ≢ Tier.free
  pub since : ℕ
  pub began : sub.past_due_since ≡ some since
  pub closed : since + dunning_grace settings ≤ now
  pub untold :
      (row : SubscriptionAudit)
      → IsIn row audit
      → row.user_id ≡ sub.user_id
      → row.reason ≡ expired_reason
      → row.created_at ≤ since

-- the job's test of one row, its query and its loop taken together
abbrev pub tests_due : Settings → ℕ → List SubscriptionAudit → Subscription → Bool
tests_due settings now audit sub =
    is_candidate sub && grace_expired settings now sub && not (already_reported sub audit)

none-any :
    {A : Type 0} (test : A → Bool) (x : A) (xs : List A)
    → any test xs ≡ false
    → IsIn x xs
    → test x ≡ false
none-any test x [] quiet h = absurd h
none-any test x (y ∷ ys) quiet (inl same) = ap test same ∙ ground (arith, quiet)
none-any test x (y ∷ ys) quiet (inr later) = none-any test x ys (ground (arith, quiet)) later

any-none :
    {A : Type 0} (test : A → Bool) (xs : List A)
    → ((x : A) → IsIn x xs → test x ≡ false)
    → any test xs ≡ false
any-none test [] h = refl
any-none test (y ∷ ys) h = rw (h y (inl refl)) (any-none test ys (λ x later. h x (inr later)))

reports-none :
    (user_id : String) (since : ℕ) (row : SubscriptionAudit)
    → (row.user_id ≡ user_id → row.reason ≡ expired_reason → row.created_at ≤ since)
    → reports user_id since row ≡ false
unfolding reports
reports-none user_id since row h =
    ground (arith, eq_iff row.user_id user_id, eq_iff row.reason expired_reason, h)

reports-late :
    (user_id : String) (since : ℕ) (row : SubscriptionAudit)
    → row.user_id ≡ user_id
    → row.reason ≡ expired_reason
    → reports user_id since row ≡ false
    → row.created_at ≤ since
unfolding reports
reports-late user_id since row mine reason h =
    ground (arith, eq_iff row.user_id user_id, eq_iff row.reason expired_reason)

past_due_only : (s : SubscriptionStatus) → is_past_due s ≡ true → s ≡ SubscriptionStatus.past_due
past_due_only SubscriptionStatus.past_due h = refl
past_due_only SubscriptionStatus.free h = cc
past_due_only SubscriptionStatus.trialing h = cc
past_due_only SubscriptionStatus.active h = cc
past_due_only SubscriptionStatus.incomplete h = cc
past_due_only SubscriptionStatus.paused h = cc

paid_tier : (t : Tier) → t ≢ Tier.free → same_tier t Tier.free ≡ false
paid_tier Tier.free h = absurd (h refl)
paid_tier Tier.plus h = refl
paid_tier Tier.pro h = refl
paid_tier Tier.enterprise h = refl

paid_row : (t : Tier) → t ≡ Tier.free → same_tier t Tier.free ≡ false → ⊥
paid_row t same h = let k = rw same at h in cc

-- the job's test, for a row whose cycle began at a known time
tests_due-since :
    (settings : Settings) (now since : ℕ) (audit : List SubscriptionAudit) (sub : Subscription)
    → sub.past_due_since ≡ some since
    → tests_due settings now audit sub ≡ (
        is_past_due sub.status
        && not (same_tier sub.tier Tier.free)
        && leb (since + dunning_grace settings) now
        && not (any (reports sub.user_id since) audit))
unfolding is_candidate grace_expired grace_ends_at reached already_reported reported_since
tests_due-since settings now since audit sub began = rw began (ground arith)

-- the job's test holds of the rows that are due
pub IsDue-tests_due :
    (settings : Settings) (now : ℕ) (audit : List SubscriptionAudit) (sub : Subscription)
    → IsDue settings now audit sub
    → tests_due settings now audit sub ≡ true
IsDue-tests_due settings now audit sub h =
    let quiet =
      any-none (reports sub.user_id h.since) audit
        (λ row listed. reports-none sub.user_id h.since row (h.untold row listed)) in
    tests_due-since settings now h.since audit sub h.began
    ∙ rw h.past_due (rw (paid_tier sub.tier h.paid) (rw quiet (ground (arith, h.closed))))

due_since :
    (settings : Settings) (now : ℕ) (audit : List SubscriptionAudit) (sub : Subscription)
    → tests_due settings now audit sub ≡ true
    → (since : ℕ) × (sub.past_due_since ≡ some since)
unfolding is_candidate grace_expired grace_ends_at reached already_reported reported_since
due_since settings now audit sub h = elim (Option-cases sub.past_due_since) [
  | inl unknown ↦ absurd (let k = rw unknown at h in ground arith)
  | inr known ↦ known
]

-- and of no others
pub tests_due-IsDue :
    (settings : Settings) (now : ℕ) (audit : List SubscriptionAudit) (sub : Subscription)
    → tests_due settings now audit sub ≡ true
    → IsDue settings now audit sub
tests_due-IsDue settings now audit sub h =
    let (since, began) = due_since settings now audit sub h in
    let tests = sym (tests_due-since settings now since audit sub began) ∙ h in
    let quiet : any (reports sub.user_id since) audit ≡ false = ground (arith, tests) in
    record {
      past_due = past_due_only sub.status (ground (arith, tests));
      paid = λ same. paid_row sub.tier same (ground (arith, tests));
      since = since;
      began = began;
      closed = ground (arith, tests);
      untold = λ row listed mine reason.
          reports-late sub.user_id since row mine reason
            (none-any (reports sub.user_id since) row audit quiet listed);
    }

-- a user about whom the trail holds a report of this cycle is not due
pub told-not-IsDue :
    (settings : Settings) (now : ℕ) (audit : List SubscriptionAudit) (sub : Subscription)
    (row : SubscriptionAudit) {since : ℕ}
    → sub.past_due_since ≡ some since
    → IsIn row audit
    → row.user_id ≡ sub.user_id
    → row.reason ≡ expired_reason
    → since < row.created_at
    → ¬ IsDue settings now audit sub
told-not-IsDue settings now audit sub row began listed mine reason late due =
    let early = due.untold row listed mine reason in ground (arith, began, due.began, early)
