-- ===== src/Billing/Guards.antt =====
-- app/services/subscriptions.py: what `start_checkout` refuses.
use subscription_service.Prelude.{
  Bool, Bool-cases, Option, String, ap, false, inl, inr, is_some, none, present, refl, some, subst,
  sym, true, ◌≡◌,
}
use subscription_service.Plans.{limits_for}
use subscription_service.Models.{Subscription, grants_access}
use subscription_service.Settings.{Settings}
use subscription_service.Provider.{BillingProvider, RemoteSubscription, CheckoutSession}
use subscription_service.Effects.{Exec, Error, ok, raise_if, >>=-eq-ok}
use subscription_service.World.{World}
use subscription_service.World.Session.{provider_call}
use subscription_service.Plans.Prices.{price_id_for}
use subscription_service.Sync.Mirror.{get_or_create_subscription}
use subscription_service.Billing.{
  CheckoutKey, CheckoutOrder, start_checkout, checkout_at, refuse_live, live_remote,
}

module _ {R : Type 0} where
  passed :
      (b : Bool) (e : Error) (u v : World R) → raise_if b e u ≡ (ok tt, v) → (b ≡ false) × (v ≡ u)
  passed true e u v h = cc
  passed false e u v h = (refl, sym (ap (λ p. p.1) h))

  asked :
      {A : Type 0} (call : Exec R A) (u v : World R) {a : A}
      → provider_call call u ≡ (ok a, v)
      → (call u.remote).0 ≡ ok a
  unfolding provider_call
  asked call u v h = ap (λ p. p.0) h

module _ {R : Type 0} (digest : CheckoutKey → String) (settings : Settings)
    (stripe : BillingProvider R) where
  -- what `fetch_current_subscription` answers at this state of Stripe is no subscription, or one that
  -- grants no access; nothing is said of others that the customer may have
  abbrev pub HasNoLive : R → Option String → Type 0
  HasNoLive r none = Unit
  HasNoLive r (some customer) =
      (remote : Option RemoteSubscription) × ((stripe.fetch_current_subscription customer r).0
        ≡ ok remote)
      × (live_remote remote ≡ false)

  refuse_live-HasNoLive :
      (customer : Option String) (u v : World R)
      → refuse_live digest settings stripe customer u ≡ (ok tt, v)
      → HasNoLive u.remote customer
  unfolding refuse_live
  refuse_live-HasNoLive none u v h = tt
  refuse_live-HasNoLive (some customer) u v h =
      let (remote, x, answered, rest) = >>=-eq-ok _ _ u h in
      (remote, asked _ u x answered, (passed _ _ x v rest).0)

  -- what holds of the row and of Stripe when a checkout is opened
  abbrev pub IsAdmitted : CheckoutOrder → World R → Type 0
  IsAdmitted order w =
      (sub : Subscription) × (u : World R) × (get_or_create_subscription order.user_id w
        ≡ (ok sub, u))
      × (grants_access sub.status ≡ false)
      × HasNoLive u.remote (present sub.stripe_customer_id)

  checkout_at-IsAdmitted :
      (order : CheckoutOrder) (price : Option String) (w w' : World R) {session : CheckoutSession}
      → checkout_at digest settings stripe order price w ≡ (ok session, w')
      → is_some price ≡ true × IsAdmitted order w
  unfolding checkout_at
  checkout_at-IsAdmitted order none w w' h = cc
  checkout_at-IsAdmitted order (some price) w w' h =
      let (sub, u, found, h₁) = >>=-eq-ok _ _ w h in
      let (_, x, guard, h₂) = >>=-eq-ok _ _ u h₁ in
      let (idle, same) = passed _ _ u x guard in
      let (_, y, refused, h₃) = >>=-eq-ok _ _ x h₂ in
      (
        refl,
        (
          sub,
          u,
          found,
          idle,
          subst (λ (t : World R). HasNoLive t.remote (present sub.stripe_customer_id)) same
              (refuse_live-HasNoLive (present sub.stripe_customer_id) x y refused),
        ),
      )

  -- When a checkout is opened, the tier can be bought and has a configured price, the user's row, as
  -- it was found or made, grants no access, and, where that row names a customer of Stripe's, the
  -- subscription that `fetch_current_subscription` answers for them at that moment, if any, grants
  -- none either.
  pub start_checkout-IsAdmitted :
      (order : CheckoutOrder) (w : World R) {session : CheckoutSession} {w' : World R}
      → start_checkout digest settings stripe order w ≡ (ok session, w')
      → ((limits_for order.tier).purchasable ≡ true)
        × (is_some (present (price_id_for settings.stripe_price_ids order.tier order.interval))
            ≡ true)
        × IsAdmitted order w
  unfolding start_checkout
  start_checkout-IsAdmitted order w {session} {w'} h =
      elim (Bool-cases (limits_for order.tier).purchasable) [
        | inl can ↦
            let (priced, admitted) = checkout_at-IsAdmitted order _ w w' (rw can at h) in
            (can, priced, admitted)
        | inr cannot ↦ let stopped = rw cannot at h in cc
      ]
