-- ===== src/Quota/Upgrade.antt =====
-- app/services/quota.py: `upgrade_tier_for`.
pub mod Laws
use subscription_service.Prelude.{
  All, Bool, Bool-cases, Dict, IsDistinct, List, Option, Option-cases, String, [], any, ap,
  append-nil, append_assoc, arith, eq_iff, eq_refl, eqb, false, find, if◌then◌else◌, inl, inr,
  insert, insert-IsDistinct, is_some, leb, length, length-append, lookup, lookup-insert,
  lookup-remove, ltb, map, max, min, none, not, opt_eq, refl, remove, select, some, some-injective,
  subst, suc, sym, true, zero, ℕ, ◌%◌, ◌&&◌, ◌*◌, ◌++◌, ◌+◌, ◌-◌, ◌/◌, ◌<◌, ◌==◌, ◌||◌, ◌∙◌, ◌∷◌,
  ◌≡◌, ◌≢◌, ◌≤◌, ◌⊎◌,
}
use subscription_service.Plans.{quota_of, limits_for, tier_rank, ranked, Tier, Quota}

-- `quota.limit is None or (current_limit is not None and quota.limit > current_limit)`
unfoldable pub lifts : Option ℕ → Option ℕ → Bool
lifts current none = true
lifts none (some limit) = false
lifts (some current) (some limit) = ltb current limit

-- the cap of a tier; a tier that has no such quota counts as 0
unfoldable pub current_limit : Option Quota → Option ℕ
current_limit none = some 0
current_limit (some q) = q.limit

lifts_quota : Option ℕ → Option Quota → Bool
lifts_quota current none = false
lifts_quota current (some q) = lifts current q.limit

-- a tier that the loop of `upgrade_tier_for` does not pass over
unfoldable pub is_upgrade : String → Tier → Tier → Bool
unfolding lifts_quota
is_upgrade key current tier =
    ltb (tier_rank current) (tier_rank tier)
    && (limits_for tier).purchasable
    && lifts_quota (current_limit (quota_of current key)) (quota_of tier key)

unfoldable pub upgrade_tier_for : String → Tier → Option Tier
upgrade_tier_for key current = find (is_upgrade key current) ranked
