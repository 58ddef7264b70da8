-- ===== src/Plans/Prices.antt =====
-- app/plans.py, the prices: `price_catalog` and `price_id_for`, over the ids of app/config.py.
use Prim.Native.String.{◌++◌ as append}
use subscription_service.Prelude.{
  false, Bool, String, true, Option, none, some, List, [], ◌∷◌, ◌&&◌, ◌==◌, ◌≡◌, select, eq_iff,
  arith, if◌then◌else◌, Dict, lookup, insert, IsDistinct, insert-IsDistinct,
}
use subscription_service.Plans.{
  Tier, BillingInterval, monthly, annual, tier_value, interval_value, same_tier, same_interval,
  limits_for, tiers,
}

-- PURCHASABLE_TIERS
unfoldable pub purchasable_tiers : List Tier
unfolding limits_for
purchasable_tiers = select (λ t. (limits_for t).purchasable) tiers

abbrev pub intervals : List BillingInterval
intervals = monthly ∷ annual ∷ []

-- f"{tier.value}_{interval.value}"
abbrev price_key : Tier → BillingInterval → String
price_key tier interval = append (tier_value tier) (append "_" (interval_value interval))

abbrev pub Catalog : Type 0
Catalog = Dict (Tier × BillingInterval)

-- an empty id is as good as none
add_named : Bool → String → Tier × BillingInterval → Catalog → Catalog
add_named true price_id sold catalog = catalog
add_named false price_id sold catalog = insert price_id sold catalog

add_found : Option String → Tier × BillingInterval → Catalog → Catalog
unfolding add_named
add_found none sold catalog = catalog
add_found (some price_id) sold catalog = add_named (price_id == "") price_id sold catalog

-- one turn of the inner loop
add_price : Dict String → Tier → BillingInterval → Catalog → Catalog
unfolding add_found
add_price configured tier interval catalog =
    add_found (lookup (price_key tier interval) configured) (tier, interval) catalog

add_intervals : Dict String → Tier → List BillingInterval → Catalog → Catalog
add_intervals configured tier [] catalog = catalog
add_intervals configured tier (i ∷ is) catalog =
    add_intervals configured tier is (add_price configured tier i catalog)

add_tiers : Dict String → List Tier → Catalog → Catalog
add_tiers configured [] catalog = catalog
add_tiers configured (t ∷ ts) catalog =
    add_tiers configured ts (add_intervals configured t intervals catalog)

unfoldable pub price_catalog : Dict String → Catalog
unfolding add_price add_intervals add_tiers purchasable_tiers
price_catalog configured = add_tiers configured purchasable_tiers []

-- the loop of `price_id_for`
find_price : Tier → BillingInterval → Catalog → Option String
find_price tier interval [] = none
find_price tier interval ((price_id, (t, i)) ∷ rest) =
    if same_tier t tier && same_interval i interval
    then some price_id
    else find_price tier interval rest

unfoldable pub price_id_for : Dict String → Tier → BillingInterval → Option String
unfolding find_price
price_id_for configured tier interval = find_price tier interval (price_catalog configured)

add_named-IsDistinct :
    (b : Bool) (p : String) (v : Tier × BillingInterval) (c : Catalog)
    → IsDistinct c
    → IsDistinct (add_named b p v c)
unfolding add_named
add_named-IsDistinct true p v c h = h
add_named-IsDistinct false p v c h = insert-IsDistinct p v c h

add_found-IsDistinct :
    (o : Option String) (v : Tier × BillingInterval) (c : Catalog)
    → IsDistinct c
    → IsDistinct (add_found o v c)
unfolding add_found
add_found-IsDistinct none v c h = h
add_found-IsDistinct (some p) v c h = add_named-IsDistinct (p == "") p v c h

add_price-IsDistinct :
    (configured : Dict String) (t : Tier) (i : BillingInterval) (c : Catalog)
    → IsDistinct c
    → IsDistinct (add_price configured t i c)
unfolding add_price
add_price-IsDistinct configured t i c h =
    add_found-IsDistinct (lookup (price_key t i) configured) (t, i) c h

add_intervals-IsDistinct :
    (configured : Dict String) (t : Tier) (is : List BillingInterval) (c : Catalog)
    → IsDistinct c
    → IsDistinct (add_intervals configured t is c)
unfolding add_intervals
add_intervals-IsDistinct configured t [] c h = h
add_intervals-IsDistinct configured t (i ∷ is) c h =
    add_intervals-IsDistinct configured t is (add_price configured t i c)
      (add_price-IsDistinct configured t i c h)

add_tiers-IsDistinct :
    (configured : Dict String) (ts : List Tier) (c : Catalog)
    → IsDistinct c
    → IsDistinct (add_tiers configured ts c)
unfolding add_tiers
add_tiers-IsDistinct configured [] c h = h
add_tiers-IsDistinct configured (t ∷ ts) c h =
    add_tiers-IsDistinct configured ts (add_intervals configured t intervals c)
      (add_intervals-IsDistinct configured t intervals c h)

-- No price id stands twice in the catalog.
pub price_catalog-IsDistinct : (configured : Dict String) → IsDistinct (price_catalog configured)
unfolding price_catalog
price_catalog-IsDistinct configured = add_tiers-IsDistinct configured purchasable_tiers [] tt

same_tier-eq : (a b : Tier) → same_tier a b ≡ true → a ≡ b
same_tier-eq a b h = ground arith

same_interval-eq : (a b : BillingInterval) → same_interval a b ≡ true → a ≡ b
same_interval-eq a b h = ground arith

-- an id that the loop returns is a key of the catalog, with the pair that was asked for
find_price-lookup :
    (t : Tier) (i : BillingInterval) (c : Catalog) (p : String)
    → IsDistinct c
    → find_price t i c ≡ some p
    → lookup p c ≡ some (t, i)
unfolding find_price
find_price-lookup t i [] p h e = cc
find_price-lookup t i ((k, (u, j)) ∷ c) p h e =
    ground
      (arith, eq_iff k p, same_tier-eq u t, same_interval-eq j i, find_price-lookup t i c p h.1)

-- The price that checkout sells for a tier and an interval resolves, through the catalog, to that
-- tier and that interval, whatever price ids are configured.
pub lookup-price_id_for :
    (configured : Dict String) (t : Tier) (i : BillingInterval) (p : String)
    → price_id_for configured t i ≡ some p
    → lookup p (price_catalog configured) ≡ some (t, i)
unfolding price_id_for
lookup-price_id_for configured t i p =
    find_price-lookup t i (price_catalog configured) p (price_catalog-IsDistinct configured)
