-- ===== src/Entitlements/Resolve/Laws.antt =====
-- `_resolve_from_db` as a specification: the effective tier, its limits and the grace window.
use subscription_service.World.Database.{find_by_user}
use subscription_service.World.{Db}
use subscription_service.Settings.{dunning_grace, Settings}
use subscription_service.Policy.{grace_ends_at, reached, grace_expired}
use subscription_service.Models.{SubscriptionStatus, Subscription, EntitlementGrant}
use subscription_service.Prelude.{
  Bool, Bool-cases, List, Option, String, [], arith, false, if◌then◌else◌, inl, inr, leb, ltb, none,
  refl, select, some, subst, sym, true, ℕ, ◌+◌, ◌∷◌, ◌≡◌, ◌≤◌, ◌⊎◌,
}
use subscription_service.Entitlements.Resolve.{
  max_tier, best_tier, active_grant_tier, is_active, effective_tier, subscription_tier,
  resolve_from, entitle,
}
use subscription_service.Entitlements.Resolve.Tiers.{
  Granted, NoneAbove, best_tier_ge, best_tier_above, best_tier-Granted,
}
use subscription_service.Plans.{limits_for, tier_rank, Tier, higher_tier}

NoneAbove-weaken :
    (now : ℕ) (user_id : String) (t u : Tier) (gs : List EntitlementGrant)
    → tier_rank t ≤ tier_rank u
    → NoneAbove now user_id t gs
    → NoneAbove now user_id u gs
NoneAbove-weaken now user_id t u [] h n = tt
NoneAbove-weaken now user_id t u (g ∷ gs) h (p, n) =
    (λ active. omega (arith, p active), NoneAbove-weaken now user_id t u gs h n)

-- `best` is the tier of the highest active grant, or none where there is no active grant
abbrev IsBest : ℕ → String → Option Tier → List EntitlementGrant → Type 0
IsBest now user_id none gs = (t : Tier) → NoneAbove now user_id t gs
IsBest now user_id (some t) gs = NoneAbove now user_id t gs × Granted now user_id t gs

IsBest-inactive :
    (now : ℕ) (user_id : String) (best : Option Tier) (g : EntitlementGrant)
    (gs : List EntitlementGrant)
    → is_active now user_id g ≡ false
    → IsBest now user_id best gs
    → IsBest now user_id best (g ∷ gs)
IsBest-inactive now user_id none g gs idle h = λ t. (λ active. cc, h t)
IsBest-inactive now user_id (some t) g gs idle h = ((λ active. cc, h.0), inr h.1)

IsBest-active :
    (now : ℕ) (user_id : String) (g : EntitlementGrant) (gs : List EntitlementGrant)
    → is_active now user_id g ≡ true
    → IsBest now user_id (some (best_tier g.tier (select (is_active now user_id) gs))) (g ∷ gs)
IsBest-active now user_id g gs active = (
  (
    λ _. best_tier_ge g.tier (select (is_active now user_id) gs),
    best_tier_above now user_id g.tier _ gs refl,
  ),
  elim (best_tier-Granted now user_id g.tier _ gs refl) [
    | inl first ↦ inl (active, sym first)
    | inr granted ↦ inr granted
  ],
)

max_tier-IsBest :
    (now : ℕ) (user_id : String) (gs : List EntitlementGrant)
    → IsBest now user_id (max_tier (select (is_active now user_id) gs)) gs
unfolding max_tier
max_tier-IsBest now user_id [] = λ t. tt
max_tier-IsBest now user_id (g ∷ gs) = elim (Bool-cases (is_active now user_id g)) [
  | inl active ↦
      subst (λ b. IsBest now user_id (max_tier b) (g ∷ gs)) (sym (kept active))
        (IsBest-active now user_id g gs active)
  | inr idle ↦
      subst (λ b. IsBest now user_id (max_tier b) (g ∷ gs)) (sym (dropped idle))
        (IsBest-inactive now user_id _ g gs idle (max_tier-IsBest now user_id gs))
]
  where
    kept :
        is_active now user_id g ≡ true
        → select (is_active now user_id) (g ∷ gs) ≡ g ∷ select (is_active now user_id) gs
    kept active = rw active

    dropped :
        is_active now user_id g ≡ false
        → select (is_active now user_id) (g ∷ gs) ≡ select (is_active now user_id) gs
    dropped idle = rw idle

-- what an effective tier is, of the paid tier and the grants
abbrev IsEffective : ℕ → String → Tier → Tier → List EntitlementGrant → Type 0
IsEffective now user_id paid t gs =
    (tier_rank paid ≤ tier_rank t)
    × NoneAbove now user_id t gs
    × ((t ≡ paid) ⊎ Granted now user_id t gs)

effective_tier-IsEffective :
    (now : ℕ) (user_id : String) (paid : Tier) (best : Option Tier) (gs : List EntitlementGrant)
    → IsBest now user_id best gs
    → IsEffective now user_id paid (effective_tier paid best) gs
unfolding effective_tier higher_tier
effective_tier-IsEffective now user_id paid none gs h = (omega arith, h paid, inl refl)
effective_tier-IsEffective now user_id paid (some t) gs (above, granted) =
    choose (leb (tier_rank t) (tier_rank paid)) refl
  where
    choose :
        (b : Bool)
        → leb (tier_rank t) (tier_rank paid) ≡ b
        → IsEffective now user_id paid (if b then paid else t) gs
    choose true e =
        (omega arith, NoneAbove-weaken now user_id t paid gs (ground arith) above, inl refl)
    choose false e = (ground arith, above, inr granted)

-- The tier of an answer is at least what the row pays for now, at least every active grant of the
-- user, and one of these; its quotas and features are those of that tier.
pub resolve_from_highest :
    (settings : Settings) (now : ℕ) (user_id : String) (db : Db)
    → let e = resolve_from settings now user_id db in
      let paid = subscription_tier settings now (find_by_user user_id db.subscriptions) in
      (tier_rank paid ≤ tier_rank e.tier)
      × NoneAbove now user_id e.tier db.grants
      × ((e.tier ≡ paid) ⊎ Granted now user_id e.tier db.grants)
      × (e.quotas ≡ (limits_for e.tier).quotas)
      × (e.features ≡ (limits_for e.tier).features)
unfolding resolve_from entitle active_grant_tier
resolve_from_highest settings now user_id db =
    let paid = subscription_tier settings now (find_by_user user_id db.subscriptions) in
    let (a, b, c) =
      effective_tier-IsEffective now user_id paid _ db.grants
        (max_tier-IsBest now user_id db.grants) in
    (a, b, c, refl, refl)

-- A row that is past due gives its paid tier while its grace window is open, and the free tier from
-- the moment at which the window closes, whatever the nightly job has done.
pub subscription_tier-grace :
    (settings : Settings) (now since : ℕ) (sub : Subscription)
    → sub.status ≡ SubscriptionStatus.past_due
    → sub.past_due_since ≡ some since
    → subscription_tier settings now (some sub)
      ≡ (if ltb now (since + dunning_grace settings) then sub.tier else Tier.free)
unfolding subscription_tier grace_expired reached grace_ends_at
subscription_tier-grace settings now since sub late since_then =
    rw (late, since_then) (ground arith)
