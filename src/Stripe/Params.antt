-- ===== src/Stripe/Params.antt =====
-- app/stripe_client.py: the arguments that the calls of Stripe's library are made with.
use subscription_service.Json.{
  nil, text, boolean, number, object, cons, end, field, array, Json, Fields,
}
use subscription_service.Prelude.{
  Bool, Dict, Option, String, [], eqb, false, if◌then◌else◌, none, some, true, ℕ, ◌==◌, ◌∷◌,
}
use subscription_service.Settings.{Settings}
use subscription_service.Provider.{CheckoutParams, PortalFlow}

-- a dictionary of texts as an argument
abbrev pub from_texts : Dict String → Fields
from_texts [] = end
from_texts ((k, v) ∷ d) = field k (text v) (from_texts d)

-- one entry more, at the end, where there is one
abbrev append_field : Fields → Fields → Fields
append_field end fs = fs
append_field (field k v rest) fs = field k v (append_field rest fs)

-- `["data.items.data.price", "data.discounts.source.coupon"]`
abbrev pub expand : Json
expand =
    array (cons (text "data.items.data.price") (cons (text "data.discounts.source.coupon") nil))

-- `if trial_period_days`
trial_fields : ℕ → Fields
trial_fields days = if eqb days 0 then end else field "trial_period_days" (number days) end

-- `if s.automatic_tax`
tax_fields : Bool → Fields
tax_fields true =
    field "automatic_tax" (object (field "enabled" (boolean true) end))
      (field "customer_update" (object (field "address" (text "auto") end)) end)
tax_fields false = end

-- `if promo_code`
promo_fields : Option String → Fields
promo_fields none = field "allow_promotion_codes" (boolean true) end
promo_fields (some code) =
    if code == ""
    then field "allow_promotion_codes" (boolean true) end
    else field "discounts" (array (cons (object (field "promotion_code" (text code) end)) nil)) end

-- the `params` of `create_checkout_session`
unfoldable pub checkout_fields : Settings → CheckoutParams → Fields
unfolding trial_fields tax_fields promo_fields
checkout_fields settings p = field "mode" (text "subscription") (
    field "customer" (text p.customer_id) (
      field "client_reference_id" (text p.user_id) (
        field "line_items"
          (array
            (cons (object (field "price" (text p.price_id) (field "quantity" (number 1) end))) nil))
          (field "success_url" (text p.success_url) (
            field "cancel_url" (text p.cancel_url) (
              field "subscription_data"
                (object (
                  field "metadata" (object (field "user_id" (text p.user_id) end))
                    (trial_fields p.trial_period_days)))
                (append_field (tax_fields settings.automatic_tax) (promo_fields p.promo_code))))))))

-- the `params` of `create_portal_session`
flow_fields : Option PortalFlow → Fields
flow_fields none = end
flow_fields (some flow) =
    field "flow_data"
      (object (
        field "type" (text "subscription_update_confirm") (
          field "subscription_update_confirm"
            (object (
              field "subscription" (text flow.subscription) (
                field "items"
                  (array (
                    cons
                      (object (
                        field "id" (text flow.item)
                          (field "price" (text flow.price) (field "quantity" (number 1) end))))
                      nil))
                  end)))
            end)))
      end

unfoldable pub portal_fields : Settings → String → String → Option PortalFlow → Fields
unfolding flow_fields
portal_fields settings customer return_url flow = field "customer" (text customer) (
    field "return_url" (text return_url) (
      append_field
        (if settings.stripe_portal_configuration_id == ""
          then end
          else field "configuration" (text settings.stripe_portal_configuration_id) end)
        (flow_fields flow)))

-- the arguments of a listing
unfoldable pub page_fields : Option String → Fields
page_fields none = end
page_fields (some id) = if id == "" then end else field "starting_after" (text id) end
