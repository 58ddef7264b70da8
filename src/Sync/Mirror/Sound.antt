-- ===== src/Sync/Mirror/Sound.antt =====
-- Tables that keep the unique constraints and hold consistent rows only, and the steps of a sync that
-- write one: the claim of a row, the flush, the audit row and the mark.
use subscription_service.Effects.{err, Result, integrity_error}
use subscription_service.World.Database.Writes.{find_by_user-All, store-All}
use subscription_service.World.Database.Rows.{store-IsUnique, IsUnique}
use subscription_service.World.Database.{find_by_user, find_by_customer, clashes}
use subscription_service.World.{Db, World}
use subscription_service.World.Session.{record_audit, mark_entitlements_stale, query, flush_row}
use subscription_service.Models.{SubscriptionAudit, Subscription}
use subscription_service.Prelude.{
  subst, All, Bool, Bool-cases, List, Option, String, arith, false, inl, inr, is_some, none, refl,
  some, sym, true, ◌++◌, ◌≡◌,
}
use subscription_service.Sync.Mirror.{
  claim_found, mark_if, audit_if, write_row, rivals_commit, claim_row, get_subscription,
  claimed_row, find_customer, find_locked, insert_row, lost_row, use_lost, recover_row,
  after_insert,
}
use subscription_service.Sync.Project.{IsConsistent}
use subscription_service.Effects.Triple.{
  OnOutcome-both, Triple, Triple-pure, Triple-raise, Triple-bind, Triple-keeps, Triple-end,
}

-- The table `subscriptions` satisfies its constraints, and each of its rows is consistent.
pub record IsSound (rows : List Subscription) : Type 0 where
  pub unique : IsUnique rows
  pub consistent : All IsConsistent rows

-- the same of the table that the session sees
pub record IsSoundDb {R : Type 0} (w : World R) : Type 0 where
  pub table : IsSound w.db.subscriptions

-- and of the table together with the rows that other workers are about to commit
pub record IsSoundWithRivals {R : Type 0} (w : World R) : Type 0 where
  pub table : IsSound w.db.subscriptions
  pub with_rivals : IsSound (w.db.subscriptions ++ w.rivals)

claimed_row-IsConsistent :
    (customer user_id : String) (found : Option Subscription)
    → ((sub : Subscription) → found ≡ some sub → IsConsistent sub)
    → IsConsistent (claimed_row customer user_id found)
unfolding claimed_row
claimed_row-IsConsistent customer user_id none h = record {
  dunning = refl;
  paid = λ t. absurd (t refl);
}
claimed_row-IsConsistent customer user_id (some sub) h = record {
  dunning = (h sub refl).dunning;
  paid = (h sub refl).paid;
}

module _ {R : Type 0} where
  pub flush_row-IsSoundDb :
      (sub : Subscription) (w : World R)
      → IsConsistent sub
      → IsSoundDb w
      → IsSoundDb (flush_row sub w).1
  unfolding flush_row
  flush_row-IsSoundDb sub w c h = elim (Bool-cases (clashes sub w.db.subscriptions)) [
    | inl refused ↦ rw refused h
    | inr free ↦ rw free (record {
      table = record {
        unique = store-IsUnique sub w.db.subscriptions h.table.unique free;
        consistent = store-All IsConsistent sub w.db.subscriptions h.table.consistent c;
      };
    })
  ]

  flush_row-Triple :
      (sub : Subscription)
      → IsConsistent sub
      → Triple {S = World R} IsSoundDb (λ _. IsSoundDb) IsSoundDb (flush_row sub)
  flush_row-Triple sub c =
      Triple-keeps IsSoundDb (flush_row sub) (λ w h. flush_row-IsSoundDb sub w c h)

  -- reading leaves the world as it is
  pub query_world : {A : Type 0} (read : Db → A) (w : World R) → (query read w).1 ≡ w
  unfolding query
  query_world read w = ground arith

  pub find_locked_world : (customer : String) (w : World R) → (find_locked customer w).1 ≡ w
  unfolding find_locked find_customer
  find_locked_world customer w =
      ground (arith, query_world (λ db. find_by_customer customer db.subscriptions) w)

  pub query-Triple :
      {A : Type 0} (P : World R → Type 0) (read : Db → A)
      → Triple {S = World R} P (λ _. P) P (query read)
  query-Triple P read = Triple-keeps P (query read) (λ w h. subst P (sym (query_world read w)) h)

  pub find_locked-Triple :
      (P : World R → Type 0) (customer : String)
      → Triple {S = World R} P (λ _. P) P (find_locked customer)
  find_locked-Triple P customer =
      Triple-keeps P (find_locked customer) (λ w h. subst P (sym (find_locked_world customer w)) h)

  lost_row-Triple :
      (P : World R → Type 0) (found : Option Subscription) (user_id : String)
      → Triple {S = World R} P (λ _. P) P (lost_row found user_id)
  unfolding lost_row get_subscription
  lost_row-Triple P none user_id = query-Triple P (λ db. find_by_user user_id db.subscriptions)
  lost_row-Triple P (some sub) user_id = Triple-pure (some sub) (λ w h. h)

  use_lost-Triple :
      (P : World R → Type 0) (customer : String) (found : Option Subscription)
      → Triple {S = World R} P (λ _. P) P (use_lost customer found)
  unfolding use_lost
  use_lost-Triple P customer none = Triple-raise integrity_error (λ w h. h)
  use_lost-Triple P customer (some sub) =
      Triple-pure (record sub { stripe_customer_id = some customer }) (λ w h. h)

  pub recover_row-Triple :
      (P : World R → Type 0) (customer user_id : String)
      → Triple {S = World R} P (λ _. P) P (recover_row customer user_id)
  unfolding recover_row
  recover_row-Triple P customer user_id =
      Triple-bind (find_locked customer) _ (find_locked-Triple P customer) λ by_customer.
        Triple-bind (lost_row by_customer user_id) _ (lost_row-Triple P by_customer user_id)
          λ found. use_lost-Triple P customer found

  after_insert-IsSoundDb :
      (customer : String) (sub : Subscription) (r : Result (Unit {0})) (w : World R)
      → IsSoundDb w
      → IsSoundDb (after_insert customer sub (r, w)).1
  unfolding after_insert
  after_insert-IsSoundDb customer sub (err integrity_error) w h =
      Triple-end IsSoundDb (recover_row customer sub.user_id) w
        (recover_row-Triple IsSoundDb customer sub.user_id) h
  after_insert-IsSoundDb customer sub _ w h = h

  insert_row-IsSoundDb :
      (found : Option Subscription) (sub : Subscription) (w : World R)
      → IsConsistent sub
      → IsSoundDb w
      → IsSoundDb (insert_row found sub w).1
  unfolding insert_row
  insert_row-IsSoundDb (some old) sub w c h = flush_row-IsSoundDb sub w c h
  insert_row-IsSoundDb none sub w c h =
      elim (Bool-cases (is_some (find_by_user sub.user_id w.db.subscriptions))) [
        | inl taken ↦ rw taken h
        | inr new ↦ rw new (flush_row-IsSoundDb sub w c h)
      ]

  read_row-Triple :
      (user_id : String)
      → Triple {S = World R} IsSoundWithRivals
          (λ found w.
            IsSoundWithRivals w × ((sub : Subscription) → found ≡ some sub → IsConsistent sub))
          IsSoundDb
          (get_subscription user_id)
  unfolding get_subscription query
  read_row-Triple user_id = record {
    at = λ w h. elim (Bool-cases w.db_up) [
      | inl up ↦ simp up (
        h,
        λ sub e. find_by_user-All IsConsistent user_id w.db.subscriptions sub h.table.consistent e,
      )
      | inr down ↦ simp down (record { table = h.table })
    ];
  }

  rivals_commit-IsSoundDb : (w : World R) → IsSoundWithRivals w → IsSoundDb (rivals_commit w)
  unfolding rivals_commit
  rivals_commit-IsSoundDb w h = record { table = h.with_rivals }

  claim_found-IsSoundDb :
      (customer user_id : String) (found : Option Subscription) (w : World R)
      → IsSoundWithRivals w
      → ((sub : Subscription) → found ≡ some sub → IsConsistent sub)
      → IsSoundDb (claim_found customer user_id found w).1
  unfolding claim_found
  claim_found-IsSoundDb customer user_id found w h c =
      let sub = claimed_row customer user_id found in
      let inserted = insert_row found sub (rivals_commit w) in
      after_insert-IsSoundDb customer sub inserted.0 inserted.1 (
        insert_row-IsSoundDb found sub (rivals_commit w)
          (claimed_row-IsConsistent customer user_id found c) (rivals_commit-IsSoundDb w h))

  pub claim_row-Triple :
      (customer user_id : String)
      → Triple {S = World R} IsSoundWithRivals
          (λ _. IsSoundDb)
          IsSoundDb
          (claim_row customer user_id)
  unfolding claim_row
  claim_row-Triple customer user_id =
      Triple-bind (get_subscription user_id) _ (read_row-Triple user_id) λ found. record {
        at = λ w h.
            OnOutcome-both IsSoundDb _ _ (claim_found-IsSoundDb customer user_id found w h.0 h.1);
      }

  audit_if-Triple :
      (b : Bool) (row : SubscriptionAudit)
      → Triple {S = World R} IsSoundDb (λ _. IsSoundDb) IsSoundDb (audit_if b row)
  unfolding audit_if record_audit
  audit_if-Triple true row = Triple-keeps IsSoundDb _ (λ w h. record { table = h.table })
  audit_if-Triple false row = Triple-pure tt (λ w h. h)

  mark_if-Triple :
      (b : Bool) (user_id : String)
      → Triple {S = World R} IsSoundDb (λ _. IsSoundDb) IsSoundDb (mark_if b user_id)
  unfolding mark_if mark_entitlements_stale
  mark_if-Triple true user_id = Triple-keeps IsSoundDb _ (λ w h. record { table = h.table })
  mark_if-Triple false user_id = Triple-pure tt (λ w h. h)

  pub write_row-Triple :
      (b c : Bool) (row : SubscriptionAudit) (sub : Subscription)
      → IsConsistent sub
      → Triple {S = World R} IsSoundDb (λ _. IsSoundDb) IsSoundDb (write_row b row c sub)
  unfolding write_row
  write_row-Triple b c row sub ok_row = Triple-bind (audit_if b row) _ (audit_if-Triple b row) λ _.
      Triple-bind (flush_row sub) _ (flush_row-Triple sub ok_row) λ _.
        Triple-bind (mark_if c sub.user_id) _ (mark_if-Triple c sub.user_id)
          λ _. Triple-pure (some sub) (λ w h. h)
