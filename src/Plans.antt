-- ===== src/Plans.antt =====
-- app/plans.py: the tiers, their order, and what each one includes. `UNLIMITED` is `none`.
pub mod Prices
use subscription_service.Prelude.{
  ℕ, String, ◌+◌, Bool, true, false, Option, none, some, List, [], ◌∷◌, leb, ltb, eqb, find, ◌==◌,
  if◌then◌else◌,
}

pub data Tier : Type 0 where
  free plus pro enterprise : Tier

pub data BillingInterval : Type 0 where
  monthly annual : BillingInterval

pub data QuotaWindow : Type 0 where
  daily billing_period : QuotaWindow

-- TIER_RANK
abbrev pub tier_rank : Tier → ℕ
tier_rank free = 0
tier_rank plus = 1
tier_rank pro = 2
tier_rank enterprise = 3

-- the enumeration's values
abbrev pub tier_value : Tier → String
tier_value free = "free"
tier_value plus = "plus"
tier_value pro = "pro"
tier_value enterprise = "enterprise"

abbrev pub interval_value : BillingInterval → String
interval_value monthly = "monthly"
interval_value annual = "annual"

-- `a is b` for two members
abbrev pub same_tier : Tier → Tier → Bool
same_tier a b = eqb (tier_rank a) (tier_rank b)

abbrev pub same_interval : BillingInterval → BillingInterval → Bool
same_interval monthly monthly = true
same_interval annual annual = true
same_interval _ _ = false

pub record Quota : Type 0 where
  pub key : String
  pub limit : Option ℕ
  pub window : QuotaWindow

-- `Features` of app/schemas.py; `none` is unlimited
pub record Features : Type 0 where
  pub models : List String
  pub context_tokens : Option ℕ
  pub history_retention_days : Option ℕ
  pub api_access : Bool
  pub support_sla : String

pub record TierDefinition : Type 0 where
  pub tier : Tier
  pub display_name : String
  pub quotas : List Quota
  pub features : Features
  pub purchasable : Bool
  pub sales_led : Bool

-- `_q`, with its default window
abbrev daily_quota : String → Option ℕ → Quota
daily_quota key limit = record { key = key; limit = limit; window = daily }

-- CATALOG, through `limits_for`
unfoldable pub limits_for : Tier → TierDefinition
limits_for free = record {
  tier = free;
  display_name = "Free";
  quotas =
      daily_quota "messages_per_day" (some 20) ∷ daily_quota "file_uploads_per_day" (some 3) ∷ [];
  features = record {
    models = "small" ∷ [];
    context_tokens = some 32_000;
    history_retention_days = some 30;
    api_access = false;
    support_sla = "community";
  };
  purchasable = false;
  sales_led = false;
}
limits_for plus = record {
  tier = plus;
  display_name = "Plus";
  quotas =
      daily_quota "messages_per_day" (some 300) ∷ daily_quota "file_uploads_per_day" (some 50) ∷ [];
  features = record {
    models = "small" ∷ "large" ∷ [];
    context_tokens = some 200_000;
    history_retention_days = some 365;
    api_access = false;
    support_sla = "48h";
  };
  purchasable = true;
  sales_led = false;
}
limits_for pro = record {
  tier = pro;
  display_name = "Pro";
  quotas =
      daily_quota "messages_per_day" (some 1_500) ∷ daily_quota "file_uploads_per_day" none ∷ [];
  features = record {
    models = "small" ∷ "large" ∷ "reasoning" ∷ [];
    context_tokens = some 1_000_000;
    history_retention_days = none;
    api_access = true;
    support_sla = "8h";
  };
  purchasable = true;
  sales_led = false;
}
limits_for enterprise = record {
  tier = enterprise;
  display_name = "Enterprise";
  quotas = daily_quota "messages_per_day" none ∷ daily_quota "file_uploads_per_day" none ∷ [];
  features = record {
    models = "small" ∷ "large" ∷ "reasoning" ∷ [];
    context_tokens = none;
    history_retention_days = none;
    api_access = true;
    support_sla = "custom";
  };
  purchasable = false;
  sales_led = true;
}

unfoldable pub higher_tier : Tier → Tier → Tier
higher_tier a b = if leb (tier_rank b) (tier_rank a) then a else b

-- the members in the order of `TIER_RANK`
abbrev pub tiers : List Tier
tiers = free ∷ plus ∷ pro ∷ enterprise ∷ []

insert_ranked : Tier → List Tier → List Tier
insert_ranked t [] = t ∷ []
insert_ranked t (u ∷ us) =
    if leb (tier_rank t) (tier_rank u) then t ∷ u ∷ us else u ∷ insert_ranked t us

sort_ranked : List Tier → List Tier
unfolding insert_ranked
sort_ranked [] = []
sort_ranked (t ∷ ts) = insert_ranked t (sort_ranked ts)

-- `sorted(TIER_RANK, key=...)`
unfoldable pub ranked : List Tier
unfolding sort_ranked
ranked = sort_ranked tiers

-- `ranked[ranked.index(tier) + 1]`, or none past the end
after : Tier → List Tier → Option Tier
after t [] = none
after t (u ∷ []) = none
after t (u ∷ v ∷ us) = if same_tier t u then some v else after t (v ∷ us)

unfoldable pub next_tier_up : Tier → Option Tier
unfolding after ranked
next_tier_up tier = after tier ranked

-- `CATALOG[tier].quotas.get(key)`
unfoldable pub quota_of : Tier → String → Option Quota
unfolding limits_for
quota_of tier key = find (λ q. q.key == key) (limits_for tier).quotas
