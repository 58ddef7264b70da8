-- ===== src/World/Database/Rows.antt =====
-- Reads after writes on the table of subscriptions, and its unique constraints as an invariant.
use subscription_service.Prelude.{
  Bool-cases, List, Option, String, [], arith, eq_iff, false, if◌then◌else◌, inl, inr, none, refl,
  some, ◌==◌, ◌||◌, ◌∷◌, ◌≡◌,
}
use subscription_service.Models.{Subscription}
use subscription_service.World.Database.{find_by_user, conflicts, clashes, store, same_key}

pub find_by_user-store :
    (sub : Subscription) (j : String) (rows : List Subscription)
    → find_by_user j (store sub rows) ≡ (if sub.user_id == j then some sub else find_by_user j rows)
unfolding find_by_user store
find_by_user-store sub j [] = refl
find_by_user-store sub j (r ∷ rows) = ground (
  arith,
  eq_iff r.user_id sub.user_id,
  eq_iff r.user_id j,
  eq_iff sub.user_id j,
  find_by_user-store sub j rows,
)

-- No user has two rows, and no two rows share a customer or a subscription id.
abbrev pub IsUnique : List Subscription → Type 0
IsUnique [] = Unit
IsUnique (r ∷ rows) =
    (find_by_user r.user_id rows ≡ none) × (clashes r rows ≡ false) × IsUnique rows

same_key_comm : (a b : Option String) → same_key a b ≡ same_key b a
same_key_comm none none = refl
same_key_comm none (some b) = refl
same_key_comm (some a) none = refl
same_key_comm (some a) (some b) = ground (arith, eq_iff a b, eq_iff b a)

conflicts_comm : (r s : Subscription) → conflicts r s ≡ conflicts s r
unfolding conflicts
conflicts_comm r s = ground (
  arith,
  eq_iff r.user_id s.user_id,
  eq_iff s.user_id r.user_id,
  same_key_comm r.stripe_customer_id s.stripe_customer_id,
  same_key_comm r.stripe_subscription_id s.stripe_subscription_id,
)

clashes-cons :
    (r q : Subscription) (rows : List Subscription)
    → clashes r (q ∷ rows) ≡ (conflicts q r || clashes r rows)
unfolding clashes
clashes-cons r q rows = refl

clashes-nil : (r : Subscription) → clashes r [] ≡ false
unfolding clashes
clashes-nil r = refl

clashes-store :
    (r sub : Subscription) (rows : List Subscription)
    → clashes r rows ≡ false
    → conflicts sub r ≡ false
    → clashes r (store sub rows) ≡ false
unfolding store
clashes-store r sub [] h p = simp (clashes-cons, clashes-nil, p)
clashes-store r sub (q ∷ rows) h p = elim (Bool-cases (q.user_id == sub.user_id)) [
  | inl same ↦ rw same (ground (arith, clashes-cons r q rows, clashes-cons r sub rows))
  | inr other ↦ rw other (
      ground
        (arith, clashes-cons r q rows, clashes-cons r q (store sub rows), clashes-store r sub rows))
]

-- A write that the constraints allow keeps them.
pub store-IsUnique :
    (sub : Subscription) (rows : List Subscription)
    → IsUnique rows
    → clashes sub rows ≡ false
    → IsUnique (store sub rows)
unfolding store find_by_user
store-IsUnique sub [] h c = (refl, clashes-nil sub, tt)
store-IsUnique sub (r ∷ rows) (absent, apart, rest) c =
    elim (Bool-cases (r.user_id == sub.user_id)) [
      | inl same ↦ rw same (
        rw ((eq_iff r.user_id sub.user_id).0 same) at absent,
        ground (arith, clashes-cons sub r rows),
        rest,
      )
      | inr other ↦ rw other (
        ground (
          arith,
          find_by_user-store sub r.user_id rows,
          eq_iff r.user_id sub.user_id,
          eq_iff sub.user_id r.user_id,
        ),
        clashes-store r sub rows apart
            (ground (arith, clashes-cons sub r rows, conflicts_comm r sub)),
        store-IsUnique sub rows rest (ground (arith, clashes-cons sub r rows)),
      )
    ]
