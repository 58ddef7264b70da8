-- ===== src/Api.antt =====
-- app/routers/billing.py: the handlers that change something, and the session of a request
-- (`get_session` of app/db.py). Who the user is comes from app/auth.py and is an argument.
pub mod Keeps
pub mod Cancel
pub mod Plans
use subscription_service.Prelude.{
  All, Bool, Bool-cases, Dict, IsDistinct, List, Option, Option-cases, String, [], any, ap,
  append-nil, append_assoc, arith, eq_iff, eq_refl, eqb, false, find, if◌then◌else◌, inl, inr,
  insert, insert-IsDistinct, is_some, leb, length, length-append, length-map, lookup, lookup-insert,
  lookup-remove, ltb, map, max, min, none, not, opt_eq, present, refl, remove, select, some,
  some-injective, subst, suc, sym, true, zero, ℕ, ◌%◌, ◌&&◌, ◌*◌, ◌++◌, ◌+◌, ◌-◌, ◌/◌, ◌<◌, ◌==◌,
  ◌||◌, ◌∙◌, ◌∷◌, ◌≡◌, ◌≢◌, ◌≤◌, ◌⊎◌,
}
use subscription_service.Plans.{Tier, BillingInterval, tier_value, interval_value}
use subscription_service.Plans.Prices.{intervals, purchasable_tiers, price_id_for, price_catalog}
use subscription_service.Models.{Subscription}
use subscription_service.Settings.{Settings}
use subscription_service.Provider.{BillingProvider, CheckoutSession}
use subscription_service.Effects.{
  Exec, Result, Error, ok, err, pure, raise, raise_if, billing_error, ◌>>=◌, ◌>>◌,
}
use subscription_service.World.{World}
use subscription_service.World.Session.{commit, commit_and_invalidate, rollback}
use subscription_service.Sync.Mirror.{get_or_create_subscription}
use subscription_service.Billing.{
  CheckoutKey, CheckoutOrder, start_checkout, schedule_cancellation, resume_subscription,
}
use subscription_service.Billing.Portal.{open_portal}
use subscription_service.Flags.{FlagClient, is_enabled}
use Prim.Native.String.{◌++◌ as append}

-- a request in a session of its own: what it leaves uncommitted is gone with the session
unfoldable pub in_session : {R A : Type 0} → Exec (World R) A → Exec (World R) A
in_session handler w = let (r, w') = handler w in (r, rollback w')

module _ {R : Type 0} (digest : CheckoutKey → String) (flags : Option FlagClient)
    (settings : Settings) (stripe : BillingProvider R) where
  -- `checkout`, behind its kill switch
  unfoldable pub checkout : CheckoutOrder → Exec (World R) CheckoutSession
  checkout order = do
    raise_if (not (is_enabled flags "checkout-enabled" (some order.user_id))) (billing_error 503)
    session ← start_checkout digest settings stripe order
    commit
    pure session

module _ {R : Type 0} (settings : Settings) (stripe : BillingProvider R) where
  -- `portal`
  unfoldable pub portal : String → Option (Tier × BillingInterval) → Exec (World R) String
  portal user_id target = open_portal settings stripe user_id none target

  -- `resume` and `cancel`
  unfoldable pub resume : String → Exec (World R) Subscription
  resume user_id = do
    sub ← resume_subscription settings stripe user_id
    commit_and_invalidate
    pure sub

  unfoldable pub cancel : String → Exec (World R) Subscription
  cancel user_id = do
    sub ← schedule_cancellation settings stripe user_id
    commit_and_invalidate
    pure sub

-- `my_subscription`
unfoldable pub my_subscription : {R : Type 0} → String → Exec (World R) Subscription
my_subscription user_id = do sub ← get_or_create_subscription user_id; commit; pure sub

-- the prices of a tier that are not configured
missing_intervals : Dict String → Tier → List BillingInterval → List String
missing_intervals prices tier [] = []
missing_intervals prices tier (i ∷ is) =
    let rest = missing_intervals prices tier is in
    if is_some (present (price_id_for prices tier i))
    then rest
    else append (tier_value tier) (append "/" (interval_value i)) ∷ rest

missing_prices : Dict String → List Tier → List String
unfolding missing_intervals
missing_prices prices [] = []
missing_prices prices (t ∷ ts) = missing_intervals prices t intervals ++ missing_prices prices ts

-- `billing_health`: what is missing, or a 503 where nothing is configured
unfoldable pub billing_health : Settings → Result (List String)
unfolding missing_prices
billing_health settings = elim (price_catalog settings.stripe_price_ids) [
  | [] ↦ err (billing_error 503)
  | _ ↦ ok (missing_prices settings.stripe_price_ids purchasable_tiers)
]
