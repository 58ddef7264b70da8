-- ===== src/Api/Plans.antt =====
-- app/routers/billing.py: the pricing page, as it is made when it is not in the cache.
use subscription_service.Prelude.{Bool, List, Option, String, [], none, present, some, ◌∷◌}
use subscription_service.Json.{Json, null, get_key}
use subscription_service.Plans.{Tier, BillingInterval, Features, Quota, limits_for}
use subscription_service.Plans.Prices.{intervals, price_id_for, intervals}
use subscription_service.Settings.{Settings}
use subscription_service.Provider.{BillingProvider}
use subscription_service.Effects.{Result, ok, err}

pub record PlanPrice : Type 0 where
  pub price_id : String
  pub unit_amount : Json
  pub currency : Json

pub record PlanResponse : Type 0 where
  pub tier : Tier
  pub display_name : String
  pub purchasable : Bool
  pub sales_led : Bool
  pub features : Features
  pub quotas : List Quota
  pub prices : List (BillingInterval × PlanPrice)

-- a key of what Stripe answered, null where the answer has none
field_or_null : String → Json → Json
field_or_null key price = elim (get_key key price) [ some v ↦ v | none ↦ null ]

amounts : String → Result Json → PlanPrice
unfolding field_or_null
amounts id (ok price) = record {
  price_id = id;
  unit_amount = field_or_null "unit_amount" price;
  currency = field_or_null "currency" price;
}
amounts id (err e) = record { price_id = id; unit_amount = null; currency = null }

module _ {R : Type 0} (settings : Settings) (stripe : BillingProvider R) where
  -- `_price_amount`, which does not raise
  unfoldable pub price_amount : String → R → PlanPrice × R
  unfolding amounts
  price_amount id r = let (answer, r') = stripe.retrieve_price id r in (amounts id answer, r')

  add_amount :
      Option String
      → BillingInterval
      → (R → List (BillingInterval × PlanPrice) × R)
      → R
      → List (BillingInterval × PlanPrice) × R
  add_amount none i others r = others r
  add_amount (some id) i others r =
      let (price, r') = price_amount id r in
      let (prices, r'') = others r' in ((i, price) ∷ prices, r'')

  tier_prices : Tier → List BillingInterval → R → List (BillingInterval × PlanPrice) × R
  unfolding add_amount
  tier_prices tier [] r = ([], r)
  tier_prices tier (i ∷ is) r =
      add_amount (present (price_id_for settings.stripe_price_ids tier i)) i (tier_prices tier is) r

  plan_of : Tier → List (BillingInterval × PlanPrice) → PlanResponse
  plan_of tier prices =
      let definition = limits_for tier in
      record {
        tier = tier;
        display_name = definition.display_name;
        purchasable = definition.purchasable;
        sales_led = definition.sales_led;
        features = definition.features;
        quotas = definition.quotas;
        prices = prices;
      }

  plans_of : List Tier → R → List PlanResponse × R
  unfolding tier_prices plan_of
  plans_of [] r = ([], r)
  plans_of (t ∷ ts) r =
      let (prices, r') = tier_prices t intervals r in
      let (others, r'') = plans_of ts r' in (plan_of t prices ∷ others, r'')

  -- `plans`, in the order of the tiers
  unfoldable pub plans : R → List PlanResponse × R
  unfolding plans_of
  plans r = plans_of (Tier.free ∷ Tier.plus ∷ Tier.pro ∷ Tier.enterprise ∷ []) r
