-- ===== src/World/Database/Writes.antt =====
-- What a write leaves to later reads by customer, and to a second write of the same row.
use subscription_service.Models.{Subscription}
use subscription_service.Prelude.{
  All, Bool-cases, List, String, [], ap, arith, eq_iff, eq_refl, false, inl, inr, none, opt_eq,
  some, ◌==◌, ◌∷◌, ◌≡◌, ◌≢◌,
}
use mathlib.Core.Option.{some-injective}
use mathlib.Core.Path.{subst}
use subscription_service.World.Database.{find_by_user, find_by_customer, conflicts, clashes, store}
use subscription_service.World.Database.Rows.{IsUnique}

-- writing a row twice is writing it once
pub store-store :
    (sub : Subscription) (rows : List Subscription) → store sub (store sub rows) ≡ store sub rows
unfolding store
store-store sub [] = rw (eq_refl sub.user_id)
store-store sub (r ∷ rows) = elim (Bool-cases (r.user_id == sub.user_id)) [
  | inl same ↦ rw same (rw (eq_refl sub.user_id))
  | inr other ↦ rw other (rw other (ap (λ l. r ∷ l) (store-store sub rows)))
]

conflicts_self : (sub : Subscription) → conflicts sub sub ≡ false
unfolding conflicts
conflicts_self sub = rw (eq_refl sub.user_id)

-- a row that was just written does not stand in its own way
pub clashes-store_self :
    (sub : Subscription) (rows : List Subscription)
    → clashes sub rows ≡ false
    → clashes sub (store sub rows) ≡ false
unfolding clashes store
clashes-store_self sub [] h = rw (conflicts_self sub)
clashes-store_self sub (r ∷ rows) h = elim (Bool-cases (r.user_id == sub.user_id)) [
  | inl same ↦ rw same (ground (arith, conflicts_self sub))
  | inr other ↦ rw other (ground (arith, clashes-store_self sub rows))
]

-- the user of a row that is found has a row
find_by_user-found :
    (c : String) (rows : List Subscription) (sub : Subscription)
    → find_by_customer c rows ≡ some sub
    → find_by_user sub.user_id rows ≢ none
unfolding find_by_user find_by_customer
find_by_user-found c [] sub h = cc
find_by_user-found c (r ∷ rows) sub h =
    ground (arith, find_by_user-found c rows sub, eq_refl sub.user_id)

-- The row of a customer, written anew for the same user and customer, is what the customer finds.
pub find_by_customer-store :
    (c : String) (rows : List Subscription) (sub sub' : Subscription)
    → IsUnique rows
    → find_by_customer c rows ≡ some sub
    → sub'.user_id ≡ sub.user_id
    → sub'.stripe_customer_id ≡ sub.stripe_customer_id
    → find_by_customer c (store sub' rows) ≡ some sub'
unfolding find_by_customer store
find_by_customer-store c [] sub sub' u h same_user same_customer = cc
find_by_customer-store c (r ∷ rows) sub sub' u h same_user same_customer = ground (
  arith,
  find_by_customer-store c rows sub sub' u.2,
  find_by_user-found c rows sub,
  eq_refl sub.user_id,
  eq_iff r.user_id sub.user_id,
)

-- The row of a customer is the row of its user.
pub find_by_user_of_customer :
    (c : String) (rows : List Subscription) (sub : Subscription)
    → IsUnique rows
    → find_by_customer c rows ≡ some sub
    → find_by_user sub.user_id rows ≡ some sub
unfolding find_by_user find_by_customer
find_by_user_of_customer c [] sub u h = cc
find_by_user_of_customer c (r ∷ rows) sub u h = ground (
  arith,
  find_by_user_of_customer c rows sub u.2,
  find_by_user-found c rows sub,
  eq_refl sub.user_id,
  eq_iff r.user_id sub.user_id,
)

-- A property of every row, kept by writing a row that has it.
pub store-All :
    (P : Subscription → Type 0) (sub : Subscription) (rows : List Subscription)
    → All P rows
    → P sub
    → All P (store sub rows)
unfolding store
store-All P sub [] h p = (p, tt)
store-All P sub (r ∷ rows) (q, rest) p = elim (Bool-cases (r.user_id == sub.user_id)) [
  | inl same ↦ rw same (p, rest)
  | inr other ↦ rw other (q, store-All P sub rows rest p)
]

pub find_by_user-All :
    (P : Subscription → Type 0) (j : String) (rows : List Subscription) (sub : Subscription)
    → All P rows
    → find_by_user j rows ≡ some sub
    → P sub
unfolding find_by_user
find_by_user-All P j [] sub h e = cc
find_by_user-All P j (r ∷ rows) sub (q, rest) e = elim (Bool-cases (r.user_id == j)) [
  | inl same ↦ subst P (some-injective r sub (rw same at e)) q
  | inr other ↦ find_by_user-All P j rows sub rest (rw other at e)
]

pub find_by_customer-All :
    (P : Subscription → Type 0) (c : String) (rows : List Subscription) (sub : Subscription)
    → All P rows
    → find_by_customer c rows ≡ some sub
    → P sub
unfolding find_by_customer
find_by_customer-All P c [] sub h e = cc
find_by_customer-All P c (r ∷ rows) sub (q, rest) e =
    elim (Bool-cases (opt_eq r.stripe_customer_id (some c))) [
      | inl same ↦ subst P (some-injective r sub (rw same at e)) q
      | inr other ↦ find_by_customer-All P c rows sub rest (rw other at e)
    ]
