-- ===== src/Stripe/Access.antt =====
-- `fetch_current_subscription` of app/stripe_client.py against the list that Stripe answers.
use subscription_service.Stripe.Current.Best.{
  has_status-text, current-IsBest, InValues, AllValues, text-has_status, IsBest,
}
use subscription_service.Stripe.Parse.Status.{
  parse_subscription-access, parse_subscription-Says, Says, says_paid,
}
use subscription_service.Stripe.Parse.{parse_subscription}
use subscription_service.Stripe.Current.{status_priority, current, has_status}
use subscription_service.Provider.{remote_grants_access, RemoteSubscription}
use subscription_service.Prelude.{
  Bool-cases, String, ap, arith, eq_iff, false, inl, inr, refl, some, some-injective, sym, true,
  ◌==◌, ◌∙◌, ◌≡◌, ◌⊎◌,
}
use subscription_service.Json.{
  end, field, or_else, get_key, as_string, truthy, nil, cons, Json, Values, text,
}

-- one of the listed subscriptions has a status that is paid for
abbrev pub SomePaid : Values → Type 0
SomePaid nil = ⊥
SomePaid (cons sub subs) =
    ((word : String) × (has_status word sub ≡ some true) × (says_paid word ≡ true)) ⊎ SomePaid subs

-- what `Says` names where the status is a text that is not empty
word_of_status :
    (raw : Json) (word said : String)
    → Says raw said
    → get_key "status" raw ≡ some (text word)
    → (word == "") ≡ false
    → said ≡ word
unfolding truthy as_string
word_of_status raw word said (status, found, is_said) h full =
    let same : status ≡ text word = some-injective _ _ (sym found ∙ h) in
    let read = rw same at is_said in let read' = rw full at read in cc

paid_full : (word : String) → says_paid word ≡ true → (word == "") ≡ false
paid_full word h = elim (Bool-cases (word == "")) [
  | inl e ↦ let blank = rw ((eq_iff word "").0 e) at h in cc
  | inr e ↦ e
]

-- a word that is not empty was the payload's status
text_of_word :
    (status : Json) (said : String)
    → as_string (or_else status (text "")) ≡ some said
    → (said == "") ≡ false
    → status ≡ text said
unfolding truthy as_string
text_of_word (text s) said h full = ground (arith, eq_iff s "", eq_iff said "")
text_of_word Json.null said h full = ground (arith, eq_iff said "")
text_of_word (Json.boolean b) said h full = ground (arith, eq_iff said "")
text_of_word (Json.number n) said h full = ground (arith, eq_iff said "")
text_of_word (Json.fraction s) said h full = ground (arith, eq_iff said "")
text_of_word (Json.array nil) said h full = ground (arith, eq_iff said "")
text_of_word (Json.array (cons v vs)) said h full = cc
text_of_word (Json.object end) said h full = ground (arith, eq_iff said "")
text_of_word (Json.object (field k v fs)) said h full = cc

said_status :
    (raw : Json) (said : String)
    → Says raw said
    → says_paid said ≡ true
    → has_status said raw ≡ some true
said_status raw said (status, found, is_said) paid =
    text-has_status said raw
      (found ∙ ap some (text_of_word status said is_said (paid_full said paid)))

SomePaid-of :
    (subs : Values) (sub : Json) (word : String)
    → InValues sub subs
    → has_status word sub ≡ some true
    → says_paid word ≡ true
    → SomePaid subs
SomePaid-of nil sub word there has paid = elim there [ ]
SomePaid-of (cons v vs) sub word (inl same) has paid = inl (word, rw same has, paid)
SomePaid-of (cons v vs) sub word (inr there) has paid = inr (SomePaid-of vs sub word there has paid)

-- no listed subscription has this status
abbrev Lacks : Values → String → Type 0
Lacks subs word = AllValues (λ s. has_status word s ≡ some false) subs

paid_word :
    (word : String)
    → says_paid word ≡ true
    → (word ≡ "active") ⊎ (word ≡ "trialing") ⊎ (word ≡ "past_due") ⊎ (word ≡ "unpaid")
paid_word word h = elim (Bool-cases ("active" == word)) [
  | inl e ↦ inl (sym ((eq_iff "active" word).0 e))
  | inr a ↦ elim (Bool-cases ("trialing" == word)) [
    | inl e ↦ inr (inl (sym ((eq_iff "trialing" word).0 e)))
    | inr b ↦ elim (Bool-cases ("past_due" == word)) [
      | inl e ↦ inr (inr (inl (sym ((eq_iff "past_due" word).0 e))))
      | inr c ↦ inr (inr (inr (sym ((eq_iff "unpaid" word).0 (ground (arith, a, b, c))))))
    ]
  ]
]

none_paid :
    (subs : Values)
    → Lacks subs "active"
    → Lacks subs "trialing"
    → Lacks subs "past_due"
    → Lacks subs "unpaid"
    → SomePaid subs
    → ⊥
none_paid nil a b c d some_paid = elim some_paid [ ]
none_paid (cons v vs) (a, as') (b, bs) (c, cs) (d, ds) (inl (word, has, paid)) =
    elim (paid_word word paid) [
      | inl e ↦ let has' = rw e at has in cc
      | inr (inl e) ↦ let has' = rw e at has in cc
      | inr (inr (inl e)) ↦ let has' = rw e at has in cc
      | inr (inr (inr e)) ↦ let has' = rw e at has in cc
    ]
none_paid (cons v vs) (a, as') (b, bs) (c, cs) (d, ds) (inr there) = none_paid vs as' bs cs ds there

-- where some listed subscription is paid for, so is the best one
best_paid :
    (subs : Values) (sub : Json)
    → IsBest status_priority sub subs
    → SomePaid subs
    → (word : String) × (has_status word sub ≡ some true) × (says_paid word ≡ true)
best_paid subs sub (inl has) paid = ("active", has, refl)
best_paid subs sub (inr (a, inl has)) paid = ("trialing", has, refl)
best_paid subs sub (inr (a, inr (b, inl has))) paid = ("past_due", has, refl)
best_paid subs sub (inr (a, inr (b, inr (c, inl has)))) paid = ("unpaid", has, refl)
best_paid subs sub (inr (a, inr (b, inr (c, inr (d, rest))))) paid =
    absurd (none_paid subs a b c d paid)

-- The subscription that is read of the one that `_current` chooses grants access exactly when some
-- listed subscription of the customer is active, on trial, past due or unpaid.
pub current-access :
    (subs : Values) {chosen : Json} {r : RemoteSubscription}
    → current subs ≡ some chosen
    → parse_subscription chosen ≡ some r
    → (remote_grants_access r ≡ true → SomePaid subs)
      × (SomePaid subs → remote_grants_access r ≡ true)
current-access subs {chosen} {r} chose read =
    let (there, best) = current-IsBest subs chose in
    let says = parse_subscription-Says chosen read in
    let (paid, _) = parse_subscription-access chosen read in
    (
      λ live.
          let said = sym paid ∙ live in
          SomePaid-of subs chosen r.provider_status there
            (said_status chosen r.provider_status says said) said,
      λ some_paid.
          let (word, has, is_paid) = best_paid subs chosen best some_paid in
          let same =
            word_of_status chosen word r.provider_status says (has_status-text word chosen has)
              (paid_full word is_paid) in
          paid ∙ rw same is_paid,
    )
