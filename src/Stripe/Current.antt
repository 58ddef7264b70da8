-- ===== src/Stripe/Current.antt =====
-- app/stripe_client.py: `_current`, which of a customer's subscriptions is mirrored.
pub mod Best
use subscription_service.Prelude.{
  All, Bool, Bool-cases, Dict, IsDistinct, List, Option, Option-cases, String, [], any, ap,
  append-nil, append_assoc, arith, eq_iff, eq_refl, eqb, false, find, if◌then◌else◌, inl, inr,
  insert, insert-IsDistinct, is_some, leb, length, length-append, lookup, lookup-insert,
  lookup-remove, ltb, map, max, min, none, not, opt_eq, refl, remove, select, some, some-injective,
  subst, suc, sym, true, zero, ℕ, ◌%◌, ◌&&◌, ◌*◌, ◌++◌, ◌+◌, ◌-◌, ◌/◌, ◌<◌, ◌==◌, ◌||◌, ◌∙◌, ◌∷◌,
  ◌≡◌, ◌≢◌, ◌≤◌, ◌⊎◌,
}
use subscription_service.Json.{or_else, as_number, get_key, ◌>>=◌, nil, cons, Json, Values, text}

-- _STATUS_PRIORITY
abbrev pub status_priority : List String
status_priority = "active" ∷ "trialing" ∷ "past_due" ∷ "unpaid" ∷ "paused" ∷ "incomplete" ∷ []

is_text : String → Json → Bool
is_text name (text s) = s == name
is_text name _ = false

-- `sub.get("status") == name`
unfoldable pub has_status : String → Json → Option Bool
unfolding is_text
has_status name sub = do status ← get_key "status" sub; some (is_text name status)

-- the inner loop
unfoldable pub first_with : String → Values → Option (Option Json)
first_with name nil = some none
first_with name (cons sub subs) =
    let rest = first_with name subs in
    do found ← has_status name sub; if found then some (some sub) else rest

-- `s.get("created") or 0`
unfoldable pub created_at : Json → Option ℕ
created_at sub = do
  created ← get_key "created" sub
  found ← as_number (or_else created (Json.number 0))
  found

-- `max(subscriptions, key=...)`, the first of the latest
latest : Json → ℕ → Values → Option Json
latest best at nil = some best
latest best at (cons sub subs) = do
  created ← created_at sub
  latest (if ltb at created then sub else best) (if ltb at created then created else at) subs

newest : Values → Option Json
unfolding latest
newest nil = none
newest (cons sub subs) = do created ← created_at sub; latest sub created subs

-- the outer loop, from some priority on
by_priority : List String → Values → Option Json
unfolding newest
by_priority [] subs = newest subs
by_priority (name ∷ names) subs = do
  found ← first_with name subs
  elim found [ some sub ↦ some sub | none ↦ by_priority names subs ]

-- `_current`
unfoldable pub current : Values → Option Json
unfolding by_priority
current subs = by_priority status_priority subs
