-- ===== src/World/Database.antt =====
-- The table `subscriptions` as the list of its rows, with the unique constraints of app/models.py.
pub mod Rows
pub mod Writes
use subscription_service.Prelude.{
  [], some, ◌∷◌, false, none, String, Bool, Option, List, opt_eq, ◌==◌, ◌&&◌, ◌||◌, if◌then◌else◌,
  not,
}
use subscription_service.Models.{Subscription}

-- `where(Subscription.user_id == user_id)`, which is unique
unfoldable pub find_by_user : String → List Subscription → Option Subscription
find_by_user user_id [] = none
find_by_user user_id (r ∷ rows) = if r.user_id == user_id then some r else find_by_user user_id rows

-- `where(Subscription.stripe_customer_id == customer_id)`, which is unique
unfoldable pub find_by_customer : String → List Subscription → Option Subscription
find_by_customer customer_id [] = none
find_by_customer customer_id (r ∷ rows) =
    if opt_eq r.stripe_customer_id (some customer_id)
    then some r
    else find_by_customer customer_id rows

-- two unique columns agree; NULL is never a duplicate
abbrev pub same_key : Option String → Option String → Bool
same_key none _ = false
same_key (some a) none = false
same_key (some a) (some b) = a == b

-- two rows of different users hold one customer or subscription id
unfoldable pub conflicts : Subscription → Subscription → Bool
conflicts r s =
    not (r.user_id == s.user_id)
    && (same_key r.stripe_customer_id s.stripe_customer_id
        || same_key r.stripe_subscription_id s.stripe_subscription_id)

-- some row conflicts with this one
unfoldable pub clashes : Subscription → List Subscription → Bool
unfolding conflicts
clashes sub [] = false
clashes sub (r ∷ rows) = conflicts r sub || clashes sub rows

-- an UPDATE of the row of that user, or an INSERT at the end
unfoldable pub store : Subscription → List Subscription → List Subscription
store sub [] = sub ∷ []
store sub (r ∷ rows) = if r.user_id == sub.user_id then sub ∷ rows else r ∷ store sub rows
