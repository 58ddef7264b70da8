-- ===== src/Stripe/Parse/Status.antt =====
-- What the status of a parsed subscription says of Stripe's own word for it.
use subscription_service.Stripe.Parse.{is_ended, status_named, parse_subscription}
use subscription_service.Prelude.{
  Bool, Bool-cases, List, Option, String, [], any, ap, arith, eq_iff, false, inl, inr, none, refl,
  some, some-injective, subst, sym, true, ◌==◌, ◌∙◌, ◌∷◌, ◌≡◌, ◌⊎◌,
}
use subscription_service.Json.{text, or_else, as_string, get_key, Json, ◌>>=◌}
use subscription_service.Models.{grants_access}
use subscription_service.Provider.{remote_grants_access, RemoteSubscription}

abbrev paid_words : List String
paid_words = "active" ∷ "trialing" ∷ "past_due" ∷ "unpaid" ∷ []

abbrev pub says_paid : String → Bool
says_paid word = any (λ n. n == word) paid_words

status_named_paid : (word : String) → grants_access (status_named word) ≡ says_paid word
unfolding status_named
status_named_paid word = ground arith

ended_word :
    (word : String) → is_ended word ≡ true → (word ≡ "canceled") ⊎ (word ≡ "incomplete_expired")
unfolding is_ended
ended_word word h = elim (Bool-cases ("canceled" == word)) [
  | inl e ↦ inl (sym ((eq_iff "canceled" word).0 e))
  | inr no_match ↦ inr (sym ((eq_iff "incomplete_expired" word).0 (ground (arith, no_match))))
]

ended_free : (word : String) → is_ended word ≡ true → grants_access (status_named word) ≡ false
unfolding status_named
ended_free word h = elim (ended_word word h) [ inl e ↦ rw e refl | inr e ↦ rw e refl ]

-- Stripe's word for the status of a payload, with none as the empty text
abbrev pub Says : Json → String → Type 0
Says raw word =
    (status : Json) × (get_key "status" raw ≡ some status)
    × (as_string (or_else status (text "")) ≡ some word)

abbrev IsNamed : Json → RemoteSubscription → Type 0
IsNamed raw r =
    (r.status ≡ status_named r.provider_status)
    × (r.ended ≡ is_ended r.provider_status)
    × Says raw r.provider_status

-- it holds of what was read, if nothing raised
record OnRead (raw : Json) (result : Option RemoteSubscription) : Type 0 where
  at : (r : RemoteSubscription) → result ≡ some r → IsNamed raw r

then_read {ℓ} :
    {A : Type ℓ} (raw : Json) (m : Option A) (f : A → Option RemoteSubscription)
    → ((a : A) → m ≡ some a → OnRead raw (f a))
    → OnRead raw (m >>= f)
unfolding ◌>>=◌
then_read raw none f h = record { at = λ r e. cc }
then_read raw (some a) f h = h a refl

named :
    (raw : Json) (r : RemoteSubscription)
    → r.status ≡ status_named r.provider_status
    → r.ended ≡ is_ended r.provider_status
    → Says raw r.provider_status
    → OnRead raw (some r)
named raw r p q s = record { at = λ r' e. subst (IsNamed raw) (some-injective r r' e) (p, q, s) }

parsed_named : (raw : Json) → OnRead raw (parse_subscription raw)
unfolding parse_subscription
parsed_named raw = then_read raw _ _ λ status found. then_read raw _ _ λ word is_word.
    then_read raw _ _ λ customer _. then_read raw _ _ λ period _. then_read raw _ _ λ items _.
      then_read raw _ _ λ id _. then_read raw _ _ λ id' _. then_read raw _ _ λ customer_id _.
        then_read raw _ _ λ price _. then_read raw _ _ λ item_ids _. then_read raw _ _ λ start _.
          then_read raw _ _ λ end' _. then_read raw _ _ λ cancel _. then_read raw _ _ λ trial _.
            then_read raw _ _ λ trial_end _. then_read raw _ _ λ discount _.
              then_read raw _ _ λ metadata _.
                then_read raw _ _ λ metadata' _. named raw _ refl refl (status, found, is_word)

-- A subscription that was read grants access exactly when Stripe's word for its status is `active`,
-- `trialing`, `past_due` or `unpaid`, and one that has ended grants none.
pub parse_subscription-access :
    (raw : Json) {r : RemoteSubscription}
    → parse_subscription raw ≡ some r
    → (remote_grants_access r ≡ says_paid r.provider_status)
      × (r.ended ≡ true → remote_grants_access r ≡ false)
parse_subscription-access raw {r} h =
    let (named, ended, _) = (parsed_named raw).at r h in
    (
      ap grants_access named ∙ status_named_paid r.provider_status,
      λ over. ap grants_access named ∙ ended_free r.provider_status (sym ended ∙ over),
    )

pub parse_subscription-Says :
    (raw : Json) {r : RemoteSubscription}
    → parse_subscription raw ≡ some r
    → Says raw r.provider_status
parse_subscription-Says raw {r} h = ((parsed_named raw).at r h).2
