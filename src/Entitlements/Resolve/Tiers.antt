-- ===== src/Entitlements/Resolve/Tiers.antt =====
-- app/services/entitlements.py: the tier of the active grants.
use subscription_service.Models.{EntitlementGrant}
use subscription_service.Prelude.{
  Bool-cases, List, String, [], arith, if◌then◌else◌, inl, inr, ltb, select, sym, true, ℕ, ◌∙◌, ◌∷◌,
  ◌≡◌, ◌≤◌, ◌⊎◌,
}
use subscription_service.Plans.{tier_rank, Tier}
use subscription_service.Entitlements.Resolve.{best_tier, is_active}

-- some active grant of the user names this tier
abbrev pub Granted : ℕ → String → Tier → List EntitlementGrant → Type 0
Granted now user_id t [] = ⊥
Granted now user_id t (g ∷ gs) =
    ((is_active now user_id g ≡ true) × (g.tier ≡ t)) ⊎ Granted now user_id t gs

-- no active grant of the user is above this tier
abbrev pub NoneAbove : ℕ → String → Tier → List EntitlementGrant → Type 0
NoneAbove now user_id t [] = Unit
NoneAbove now user_id t (g ∷ gs) =
    (is_active now user_id g ≡ true → tier_rank g.tier ≤ tier_rank t) × NoneAbove now user_id t gs

abbrev step_best : Tier → EntitlementGrant → Tier
step_best t g = if ltb (tier_rank t) (tier_rank g.tier) then g.tier else t

step_best_upper :
    (t : Tier) (g : EntitlementGrant)
    → (tier_rank t ≤ tier_rank (step_best t g)) × (tier_rank g.tier ≤ tier_rank (step_best t g))
step_best_upper t g = ground arith

pub best_tier_ge :
    (t : Tier) (gs : List EntitlementGrant) → tier_rank t ≤ tier_rank (best_tier t gs)
unfolding best_tier
best_tier_ge t [] = omega arith
best_tier_ge t (g ∷ gs) = omega (arith, best_tier_ge (step_best t g) gs, (step_best_upper t g).0)

module _ (now : ℕ) (user_id : String) where
  pub best_tier_above :
      (t top : Tier) (gs : List EntitlementGrant)
      → best_tier t (select (is_active now user_id) gs) ≡ top
      → NoneAbove now user_id top gs
  unfolding best_tier
  best_tier_above t top [] e = tt
  best_tier_above t top (g ∷ gs) e = elim (Bool-cases (is_active now user_id g)) [
    | inl active ↦
        let rest = rw active at e in
        (
          λ _. ground (arith, best_tier_ge (step_best t g) (select (is_active now user_id) gs)),
          best_tier_above (step_best t g) top gs rest,
        )
    | inr other ↦ (λ h. cc, best_tier_above t top gs (rw other at e))
  ]

  step_best-cases :
      (t : Tier) (g : EntitlementGrant) → (step_best t g ≡ t) ⊎ (step_best t g ≡ g.tier)
  step_best-cases t g = ground arith

  pub best_tier-Granted :
      (t top : Tier) (gs : List EntitlementGrant)
      → best_tier t (select (is_active now user_id) gs) ≡ top
      → (top ≡ t) ⊎ Granted now user_id top gs
  unfolding best_tier
  best_tier-Granted t top [] e = inl (sym e)
  best_tier-Granted t top (g ∷ gs) e = elim (Bool-cases (is_active now user_id g)) [
    | inl active ↦ elim (best_tier-Granted (step_best t g) top gs (rw active at e)) [
      | inl first ↦ elim (step_best-cases t g) [
        | inl kept ↦ inl (first ∙ kept)
        | inr taken ↦ inr (inl (active, sym (first ∙ taken)))
      ]
      | inr granted ↦ inr (inr granted)
    ]
    | inr other ↦ elim (best_tier-Granted t top gs (rw other at e)) [
      | inl first ↦ inl first
      | inr granted ↦ inr (inr granted)
    ]
  ]
