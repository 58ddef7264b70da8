-- ===== src/Stripe.antt =====
-- app/stripe_client.py: the calls of Stripe's library as a billing provider. The library is a
-- parameter, `StripeApi`: what it sends over the network is not part of the program, and its answers
-- are decoded JSON. The SDK's configuration (keys, version, timeout) and the threads are left out.
pub mod Parse
pub mod Params
pub mod Current
pub mod Access
use subscription_service.Stripe.Params.{
  page_fields, checkout_fields, expand, portal_fields, from_texts,
}
use subscription_service.Stripe.Parse.{parse_customer, parse_subscription}
use subscription_service.Stripe.Current.{current}
use subscription_service.Prelude.{
  present, All, Bool, Bool-cases, Dict, IsDistinct, List, Option, Option-cases, String, [], any, ap,
  append-nil, append_assoc, arith, eq_iff, eq_refl, eqb, false, find, if◌then◌else◌, inl, inr,
  insert, insert-IsDistinct, is_some, leb, length, length-append, lookup, lookup-insert,
  lookup-remove, ltb, map, max, min, none, not, opt_eq, refl, remove, select, some, some-injective,
  subst, suc, sym, true, zero, ℕ, ◌%◌, ◌&&◌, ◌*◌, ◌++◌, ◌+◌, ◌-◌, ◌/◌, ◌<◌, ◌==◌, ◌||◌, ◌∙◌, ◌∷◌,
  ◌≡◌, ◌≢◌, ◌≤◌, ◌⊎◌,
}
use Prim.Native.String.{◌++◌ as append}
use mathlib.Core.Option
use subscription_service.Json.{
  as_text, truthy, as_string, get_key, require_key, Fields, Json, Values, null, text, number,
  boolean, array, object, nil, cons, field, end,
}
use subscription_service.Json
use subscription_service.Settings.{Settings}
use subscription_service.Effects.{Exec, ok, err, pure, raise, provider_error, ◌>>=◌, ◌>>◌}
use subscription_service.Provider.{
  BillingProvider, RemoteSubscription, RemoteCustomer, SubscriptionPage, CheckoutParams,
  CheckoutSession, PortalFlow,
}

pub record StripeApi (R : Type 0) : Type 0 where
  pub customer_create : Option String → Json → String → Exec R Json
  pub session_create : String → Json → Exec R Json
  pub subscription_modify : String → Json → Exec R Json
  pub portal_create : Json → Exec R Json
  pub subscription_list : Json → Exec R Json
  pub price_retrieve : String → Exec R Json
  pub customer_retrieve : String → Exec R Json
  pub charge_retrieve : String → Exec R Json

unfoldable pub parse_all : Values → Option (List RemoteSubscription)
parse_all nil = some []
parse_all (cons raw rest) = elim (parse_subscription raw) [
  | none ↦ none
  | some sub ↦ Option.map (λ subs. sub ∷ subs) (parse_all rest)
]

-- the values of `page.get("data", [])`
data_values : Option Json → Option Values
data_values none = some nil
data_values (some (array subs)) = some subs
data_values (some _) = none

module _ {R : Type 0} where
  -- an answer that cannot be read raises
  read_as : {A : Type 0} → Option A → Exec R A
  read_as none = raise provider_error
  read_as (some a) = pure a

  parse_listed : Values → Exec R (Option RemoteSubscription)
  unfolding read_as
  parse_listed nil = pure none
  parse_listed (cons sub subs) = do
    chosen ← read_as (current (cons sub subs))
    parsed ← read_as (parse_subscription chosen)
    pure (some parsed)

module _ {R : Type 0} (api : StripeApi R) (settings : Settings) where
  -- `ensure_customer`
  unfoldable pub ensure_customer : String → Option String → Option String → Exec R String
  unfolding read_as
  ensure_customer user_id email existing = elim (present existing) [
    | some id ↦ pure id
    | none ↦ (do
      customer ←
          api.customer_create email (object (field "user_id" (text user_id) end))
            (append "customer:" user_id)
      id ← read_as (require_key "id" customer)
      read_as (as_string id))
  ]

  -- `create_checkout_session`, with what its callers read of the answer
  unfoldable pub create_checkout_session : CheckoutParams → Exec R CheckoutSession
  unfolding read_as
  create_checkout_session p = do
    session ← api.session_create p.idempotency_key (object (checkout_fields settings p))
    url ← read_as (require_key "url" session)
    url' ← read_as (as_string url)
    id ← read_as (require_key "id" session)
    id' ← read_as (as_string id)
    pure (record { id = id'; url = url' })

  unfoldable pub set_cancel_at_period_end : String → Bool → Exec R (Unit {0})
  set_cancel_at_period_end id value = do
    api.subscription_modify id (object (field "cancel_at_period_end" (boolean value) end))
    pure tt

  unfoldable pub set_subscription_metadata : String → Dict String → Exec R (Unit {0})
  set_subscription_metadata id metadata = do
    api.subscription_modify id (object (field "metadata" (object (from_texts metadata)) end))
    pure tt

  unfoldable pub create_portal_session : String → String → Option PortalFlow → Exec R String
  unfolding read_as
  create_portal_session customer return_url flow = do
    portal ← api.portal_create (object (portal_fields settings customer return_url flow))
    url ← read_as (require_key "url" portal)
    read_as (as_string url)

  -- `fetch_current_subscription`
  unfoldable pub fetch_current_subscription : String → Exec R (Option RemoteSubscription)
  unfolding parse_listed read_as data_values
  fetch_current_subscription customer = do
    result ← api.subscription_list (
        object (
          field "customer" (text customer)
            (field "status" (text "all") (field "limit" (number 100) (field "expand" expand end)))))
    listed ← read_as (data_values (require_key "data" result))
    parse_listed listed

  -- `list_subscriptions_page`
  unfoldable pub list_subscriptions_page : Option String → Exec R SubscriptionPage
  unfolding read_as data_values
  list_subscriptions_page after = do
    page ← api.subscription_list (
        object (
          field "status" (text "all")
            (field "limit" (number 100) (field "expand" expand (page_fields after)))))
    listed ← read_as (data_values (require_key "data" page))
    items ← read_as (parse_all listed)
    more ← read_as (get_key "has_more" page)
    pure (record { items = items; has_more = truthy more })

  unfoldable pub retrieve_customer : String → Exec R RemoteCustomer
  unfolding read_as
  retrieve_customer id = do customer ← api.customer_retrieve id; read_as (parse_customer customer)

  -- `retrieve_charge`, with what its caller reads of the answer
  unfoldable pub retrieve_charge : String → Exec R (Option String)
  unfolding read_as
  retrieve_charge id = do
    charge ← api.charge_retrieve id
    customer ← read_as (get_key "customer" charge)
    read_as (as_text customer)

  -- the module as a provider
  unfoldable pub stripe_provider : BillingProvider R
  stripe_provider = record {
    ensure_customer = ensure_customer;
    retrieve_customer = retrieve_customer;
    fetch_current_subscription = fetch_current_subscription;
    list_subscriptions_page = list_subscriptions_page;
    set_cancel_at_period_end = set_cancel_at_period_end;
    set_subscription_metadata = set_subscription_metadata;
    create_checkout_session = create_checkout_session;
    create_portal_session = create_portal_session;
    retrieve_price = api.price_retrieve;
    retrieve_charge = retrieve_charge;
  }
