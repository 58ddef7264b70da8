-- ===== src/Stripe/Parse/Shapes.antt =====
-- The shapes that a subscription has had across versions of Stripe's API.
use subscription_service.Stripe.Parse.{
  customer_ref, item_ids_of, line_items, if_dict, section, parse_period, parse_discount,
  parse_subscription,
}
use subscription_service.Prelude.{Bool, Option, String, none, refl, some, ℕ, ◌≡◌}
use subscription_service.Json.{
  ◌>>=◌, require_key, as_string, as_text, truthy, as_values, get_key, boolean, number, field,
  Fields, null, text, array, object, nil, cons, end, Json,
}

-- a discount, with the identifier of its coupon
pub record DiscountParts : Type 0 where
  pub coupon_id : String
  pub coupon : Fields
  pub promotion_code : Json
  pub ends_at : Json

-- what a payload says, whatever its shape
pub record Parts : Type 0 where
  pub id : String
  pub status : String
  pub customer : String
  pub item_id : String
  pub price : Json
  pub period_start : ℕ
  pub period_end : ℕ
  pub cancel_at_period_end : Bool
  pub trial_end : Json
  pub discount : Option DiscountParts
  pub metadata : Fields

coupon_of : DiscountParts → Json
coupon_of d = object (field "id" (text d.coupon_id) d.coupon)

one : Json → Json
one v = array (cons v nil)

recent_discounts : Option DiscountParts → Json
unfolding coupon_of one
recent_discounts none = array nil
recent_discounts (some d) = one (
    object (
      field "source" (object (field "coupon" (coupon_of d) end))
        (field "promotion_code" d.promotion_code (field "end" d.ends_at end))))

legacy_discount : Option DiscountParts → Json
unfolding coupon_of
legacy_discount none = null
legacy_discount (some d) = object (
    field "coupon" (coupon_of d)
      (field "promotion_code" d.promotion_code (field "end" d.ends_at end)))

-- the fields that every shape has
shared_fields : Parts → Fields → Fields
shared_fields p rest = field "id" (text p.id) (
    field "status" (text p.status) (
      field "cancel_at_period_end" (boolean p.cancel_at_period_end)
        (field "trial_end" p.trial_end (field "metadata" (object p.metadata) rest))))

-- the customer expanded, the period on the item, discounts in a list with the coupon under `source`
unfoldable pub recent : Parts → Json
unfolding shared_fields recent_discounts one
recent p = object (
    shared_fields p (
      field "customer" (object (field "id" (text p.customer) end)) (
        field "items"
          (object (
            field "data"
              (one (
                object (
                  field "id" (text p.item_id) (
                    field "price" p.price (
                      field "current_period_start" (number p.period_start)
                        (field "current_period_end" (number p.period_end) end))))))
              end))
          (field "discounts" (recent_discounts p.discount) end))))

-- the customer by its id, the period on the subscription, a single discount that holds its coupon
unfoldable pub legacy : Parts → Json
unfolding shared_fields legacy_discount one
legacy p = object (
    shared_fields p (
      field "customer" (text p.customer) (
        field "current_period_start" (number p.period_start) (
          field "current_period_end" (number p.period_end) (
            field "items"
              (object (
                field "data"
                  (one (object (field "id" (text p.item_id) (field "price" p.price end)))) end))
              (field "discount" (legacy_discount p.discount) end))))))

-- the shapes differ in the discount only by its case
read_alike :
    (d : Option DiscountParts) (p : Parts)
    → parse_subscription (recent (record p { discount = d }))
      ≡ parse_subscription (legacy (record p { discount = d }))
unfolding parse_subscription parse_period parse_discount recent legacy get_key as_values truthy
    section if_dict line_items item_ids_of customer_ref as_text as_string require_key ◌>>=◌
read_alike none p = refl
read_alike (some d) p = refl

-- A subscription is read alike in the shape of the recent API versions and in that of the older
-- ones, whatever its values are.
pub parse_subscription-legacy :
    (p : Parts) → parse_subscription (recent p) ≡ parse_subscription (legacy p)
parse_subscription-legacy p = read_alike p.discount p
