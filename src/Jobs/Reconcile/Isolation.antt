-- ===== src/Jobs/Reconcile/Isolation.antt =====
-- app/jobs/reconcile.py: one transaction for each customer.
use subscription_service.Prelude.{
  Bool, Bool-cases, List, Option, String, [], false, inl, inr, none, present, refl, some, true, ◌∷◌,
  ◌≡◌,
}
use subscription_service.Effects.{Result, ok, err}
use subscription_service.Effects.Triple.{OnOutcome, Triple, Triple-pure, Triple-bind}
use subscription_service.World.{World}
use subscription_service.World.Session.{rollback, commit_and_invalidate}
use subscription_service.World.Session.Commit.{commit_and_invalidate_done}
use subscription_service.Settings.{Settings}
use subscription_service.Provider.{BillingProvider, RemoteSubscription}
use subscription_service.Jobs.Reconcile.Report.{Run, on_world}
use subscription_service.Jobs.Reconcile.{
  one_transaction, end_one, after_one, check_item, check_items, check_customer, reconcile_one,
}

-- nothing is pending: the session sees what is committed, and no mark waits
pub record IsSettled {R : Type 0} (run : Run R) : Type 0 where
  pub committed : run.world.db ≡ run.world.saved
  pub unmarked : run.world.marks ≡ []

module _ {R : Type 0} where
  abbrev Any : Run R → Type 0
  Any run = Unit

  committed_outcome :
      (report : _) (w : World R) (r : Result (Unit {0})) (w' : World R)
      → commit_and_invalidate w ≡ (r, w')
      → OnOutcome (λ _. IsSettled) Any r (record { report = report; world = w' })
  committed_outcome report w (ok _) w' h =
      let (saved, clear) = commit_and_invalidate_done w w' h in
      record { committed = saved; unmarked = clear }
  committed_outcome report w (err e) w' h = tt

module _ {R : Type 0} (settings : Settings) (stripe : BillingProvider R)
    (missing : List String → Option (List String)) (dry_run : Bool) where
  end_one-Triple :
      Triple
        (λ (run : Run R). Unit)
        (λ _. IsSettled)
        (λ (run : Run R). Unit)
        (on_world (end_one settings stripe missing dry_run))
  unfolding on_world end_one rollback
  end_one-Triple = record {
    at = λ run h. elim (Bool-cases dry_run) [
      | inl dry ↦ rw dry (record { committed = refl; unmarked = refl })
      | inr wet ↦ rw wet (committed_outcome run.report run.world _ _ refl)
    ];
  }

  outcome_lem : {A : Type 0} (r : Result A) (run : Run R) → OnOutcome (λ _ _. Unit) Any r run
  outcome_lem (ok a) run = tt
  outcome_lem (err e) run = tt

  one_transaction-Triple :
      (remote : RemoteSubscription) (customer : String)
      → Triple Any
          (λ _. IsSettled)
          Any
          (one_transaction settings stripe missing dry_run remote customer)
  unfolding one_transaction
  one_transaction-Triple remote customer =
      Triple-bind (reconcile_one settings stripe missing dry_run remote customer) _
        (record { at = λ run h. outcome_lem _ _ })
        λ repaired. Triple-bind _ _ end_one-Triple λ _. Triple-pure repaired (λ run h. h)

  after_one-IsSettled :
      (customer : String) (r : Result Bool) (run : Run R)
      → OnOutcome (λ _. IsSettled) Any r run
      → IsSettled (after_one settings stripe missing dry_run customer (r, run))
  unfolding after_one rollback
  after_one-IsSettled customer (ok true) run h = record {
    committed = h.committed;
    unmarked = h.unmarked;
  }
  after_one-IsSettled customer (ok false) run h = h
  after_one-IsSettled customer (err e) run h = record { committed = refl; unmarked = refl }

  check_customer-IsSettled :
      (remote : RemoteSubscription) (customer : Option String) (run : Run R)
      → IsSettled run
      → IsSettled (check_customer settings stripe missing dry_run remote customer run)
  unfolding check_customer
  check_customer-IsSettled remote none run h = h
  check_customer-IsSettled remote (some customer) run h =
      after_one-IsSettled customer _ _ ((one_transaction-Triple remote customer).at run tt)

  -- From a session with nothing pending, checking the items of a page, some of which may raise,
  -- ends with nothing pending: each customer's writes are committed or rolled back before the next
  -- customer is read, and no mark is left to one that comes later.
  pub check_items-IsSettled :
      (items : List RemoteSubscription) (run : Run R)
      → IsSettled run
      → IsSettled (check_items settings stripe missing dry_run items run)
  unfolding check_items check_item
  check_items-IsSettled [] run h = h
  check_items-IsSettled (remote ∷ items) run h = check_items-IsSettled items _ (
      check_customer-IsSettled remote (present remote.customer_id) _
        (record { committed = h.committed; unmarked = h.unmarked }))
