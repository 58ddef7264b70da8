-- ===== src/Quota/Upgrade/Laws.antt =====
-- app/services/quota.py: which tier `upgrade_tier_for` names, described without the tests of its loop.
use subscription_service.Quota.Upgrade.{
  upgrade_tier_for, is_upgrade, lifts, lifts_quota, current_limit,
}
use subscription_service.Prelude.{
  Bool, Option, Option-cases, String, arith, false, if◌then◌else◌, inl, inr, none, refl, some, true,
  ℕ, ◌<◌, ◌≡◌, ◌≤◌,
}
use subscription_service.Plans.{ranked, tier_rank, Tier, Quota, quota_of, limits_for}

-- One cap is above another, where `none` is no cap at all, which nothing is short of.
abbrev pub IsAboveCap : Option ℕ → Option ℕ → Type 0
IsAboveCap none current = Unit
IsAboveCap (some limit) none = ⊥
IsAboveCap (some limit) (some current) = current < limit

-- what a tier allows of a metered use: nothing, where the tier has no such quota
abbrev pub allowance : Option Quota → Option ℕ
allowance none = some 0
allowance (some quota) = quota.limit

-- A customer can move to this tier and gains by it: it stands above the customer's own, it is for
-- sale, and it meters the same use with a higher cap, or with none.
pub record IsUpgrade (key : String) (current tier : Tier) : Type 0 where
  pub above : tier_rank current < tier_rank tier
  pub for_sale : (limits_for tier).purchasable ≡ true
  pub quota : Quota
  pub metered : quota_of tier key ≡ some quota
  pub raised : IsAboveCap quota.limit (allowance (quota_of current key))

-- the lowest tier that passes a test, or none where no tier does
abbrev IsLowest : (Tier → Bool) → Option Tier → Type 0
IsLowest test none = (u : Tier) → test u ≡ false
IsLowest test (some t) = (test t ≡ true) × ((u : Tier) → test u ≡ true → tier_rank t ≤ tier_rank u)

every_tier :
    (P : Tier → Type 0)
    → P Tier.free
    → P Tier.plus
    → P Tier.pro
    → P Tier.enterprise
    → (u : Tier) → P u
every_tier P a b c d Tier.free = a
every_tier P a b c d Tier.plus = b
every_tier P a b c d Tier.pro = c
every_tier P a b c d Tier.enterprise = d

first_found :
    (test : Tier → Bool) (a b c d : Bool)
    → test Tier.free ≡ a
    → test Tier.plus ≡ b
    → test Tier.pro ≡ c
    → test Tier.enterprise ≡ d
    → IsLowest test (
        if a
        then some Tier.free
        else if b
        then some Tier.plus
        else if c
        then some Tier.pro
        else if d
        then some Tier.enterprise
        else none)
first_found test true b c d p q r s = (p, λ u h. omega arith)
first_found test false true c d p q r s =
    (q, every_tier _ (λ h. absurd (cc)) (λ h. omega arith) (λ h. omega arith) (λ h. omega arith))
first_found test false false true d p q r s =
    (r, every_tier _ (λ h. absurd (cc)) (λ h. absurd (cc)) (λ h. omega arith) (λ h. omega arith))
first_found test false false false true p q r s =
    (s, every_tier _ (λ h. absurd (cc)) (λ h. absurd (cc)) (λ h. absurd (cc)) (λ h. omega arith))
first_found test false false false false p q r s = every_tier _ p q r s

raised-lifts :
    (limit : Option ℕ) (held : Option Quota)
    → IsAboveCap limit (allowance held)
    → lifts (current_limit held) limit ≡ true
unfolding lifts current_limit
raised-lifts none held h = refl
raised-lifts (some limit) none h = ground (arith, h)
raised-lifts (some limit) (some held) h = elim (Option-cases held.limit) [
  | inl unlimited ↦ absurd (rw unlimited at h)
  | inr capped ↦ rw capped.1 (let less = rw capped.1 at h in ground (arith, less))
]

lifts-raised :
    (limit : Option ℕ) (held : Option Quota)
    → lifts (current_limit held) limit ≡ true
    → IsAboveCap limit (allowance held)
unfolding lifts current_limit
lifts-raised none held h = tt
lifts-raised (some limit) none h = ground (arith, h)
lifts-raised (some limit) (some held) h = elim (Option-cases held.limit) [
  | inl unlimited ↦ let never = rw unlimited at h in cc
  | inr capped ↦ rw capped.1 (let less = rw capped.1 at h in ground (arith, less))
]

-- the test of the loop holds of the upgrades
IsUpgrade-is_upgrade :
    (key : String) (current tier : Tier)
    → IsUpgrade key current tier
    → is_upgrade key current tier ≡ true
unfolding is_upgrade lifts_quota
IsUpgrade-is_upgrade key current tier h =
    let lifted = raised-lifts h.quota.limit (quota_of current key) h.raised in
    rw h.metered (rw h.for_sale (rw lifted (ground (arith, h.above))))

-- and of nothing else
is_upgrade-IsUpgrade :
    (key : String) (current tier : Tier)
    → is_upgrade key current tier ≡ true
    → IsUpgrade key current tier
unfolding is_upgrade lifts_quota
is_upgrade-IsUpgrade key current tier h = elim (Option-cases (quota_of tier key)) [
  | inl unmetered ↦ absurd (let never = rw unmetered at h in ground (arith, never))
  | inr metered ↦
      let tests = rw metered.1 at h in
      record {
        above = ground (arith, tests);
        for_sale = ground (arith, tests);
        quota = metered.0;
        metered = metered.1;
        raised = lifts-raised metered.0.limit (quota_of current key) (ground (arith, tests));
      }
]

-- The answer to a customer who has run out.
abbrev pub IsBestUpgrade : String → Tier → Option Tier → Type 0
IsBestUpgrade key current none = (tier : Tier) → ¬ IsUpgrade key current tier
IsBestUpgrade key current (some best) =
    IsUpgrade key current best
    × ((tier : Tier) → IsUpgrade key current tier → tier_rank best ≤ tier_rank tier)

IsLowest-IsBestUpgrade :
    (key : String) (current : Tier) (found : Option Tier)
    → IsLowest (is_upgrade key current) found
    → IsBestUpgrade key current found
IsLowest-IsBestUpgrade key current none h =
    λ tier up. let passes = IsUpgrade-is_upgrade key current tier up in let fails = h tier in cc
IsLowest-IsBestUpgrade key current (some best) (passes, least) = (
  is_upgrade-IsUpgrade key current best passes,
  λ tier up. least tier (IsUpgrade-is_upgrade key current tier up),
)

-- `upgrade_tier_for` answers the lowest tier, by rank, that is above the current one, is for sale and
-- meters the use with a higher cap, or with none, and answers none only when there is no such tier;
-- a tier without the quota counts as a cap of 0 for the customer who has it, and is never an answer.
pub upgrade_tier_for-IsLowest :
    (key : String) (current : Tier) → IsBestUpgrade key current (upgrade_tier_for key current)
unfolding upgrade_tier_for ranked
upgrade_tier_for-IsLowest key current =
    IsLowest-IsBestUpgrade key current _
      (first_found (is_upgrade key current) _ _ _ _ refl refl refl refl)
