-- ===== src/Jobs/Reconcile/Counts.antt =====
-- app/jobs/reconcile.py: what checking one subscription does to the count of those checked.
use subscription_service.Sync.{belongs_to_this_service}
use subscription_service.Prelude.{
  Bool, List, Option, String, [], arith, false, is_some, length, none, not, present, refl, some,
  true, ℕ, ◌&&◌, ◌+◌, ◌∙◌, ◌∷◌, ◌≡◌,
}
use subscription_service.Effects.{◌>>◌, Exec, Result, ok, err, pure}
use subscription_service.Effects.Triple.{
  Triple, Triple-pure, Triple-if, Triple-bind, Triple-keeps, Triple-end,
}
use subscription_service.World.{World}
use subscription_service.Models.{Subscription}
use subscription_service.Settings.{Settings}
use subscription_service.Provider.{BillingProvider, RemoteSubscription}
use subscription_service.Jobs.Reconcile.Report.{Run, ReconcileReport, on_world, tally}
use subscription_service.Jobs.Reconcile.{
  agrees, record_orphan, repair, compare_row, settle, reconcile_ours, reconcile_one,
  one_transaction, after_one, check_item, check_items, check_customer,
}

-- so many have been checked
record HasChecked (n : ℕ) {R : Type 0} (run : Run R) : Type 0 where
  pub count : run.report.checked ≡ n

module _ {R : Type 0} (n : ℕ) where
  abbrev Counted : {A : Type 0} → Exec (Run R) A → Type 0
  Counted m = Triple (HasChecked n) (λ _. HasChecked n) (HasChecked n) m

  on_world-Counted : {A : Type 0} (m : Exec (World R) A) → Counted (on_world m)
  unfolding on_world
  on_world-Counted m =
      Triple-keeps (HasChecked n) (on_world m) (λ run h. record { count = h.count })

  tally-Counted :
      (f : ReconcileReport → ReconcileReport)
      → ((r : ReconcileReport) → (f r).checked ≡ r.checked)
      → Counted (tally f)
  unfolding tally
  tally-Counted f same =
      Triple-keeps (HasChecked n) (tally f) (λ run h. record { count = same run.report ∙ h.count })

  pure-Counted : {A : Type 0} (a : A) → Counted (pure a)
  pure-Counted a = Triple-pure a (λ run h. h)

module _ {R : Type 0} (settings : Settings) (stripe : BillingProvider R)
    (missing : List String → Option (List String)) (dry_run : Bool) (n : ℕ) where
  record_orphan-Counted :
      (remote : RemoteSubscription) (customer user_id : String)
      → Counted n (record_orphan settings stripe missing dry_run remote customer user_id)
  unfolding record_orphan
  record_orphan-Counted remote customer user_id =
      Triple-if remote.ended _ _ (λ _. tally-Counted n _ (λ r. refl))
        λ _. Triple-bind _ _ (on_world-Counted n _) λ since. tally-Counted n _ (λ r. refl)

  repair-Counted :
      (reason customer : String)
      → Counted n (repair settings stripe missing dry_run reason customer)
  unfolding repair
  repair-Counted reason customer =
      Triple-if dry_run _ _ (λ _. pure-Counted n false)
        λ _. Triple-bind _ _ (on_world-Counted n _) λ _. pure-Counted n true

  compare_row-Counted :
      (local : Option Subscription) (remote : RemoteSubscription) (customer : String)
      → Counted n (compare_row settings stripe missing dry_run local remote customer)
  unfolding compare_row
  compare_row-Counted none remote customer =
      Triple-bind _ _ (tally-Counted n _ (λ r. refl)) λ _. repair-Counted _ customer
  compare_row-Counted (some local) remote customer =
      Triple-if (agrees settings.stripe_price_ids local remote) _ _ (λ _. pure-Counted n false)
        λ _. Triple-bind _ _ (tally-Counted n _ (λ r. refl)) λ _. repair-Counted _ customer

  marks-Counted :
      (m : Exec (World R) (Unit {0})) (local : Option Subscription) (remote : RemoteSubscription)
      (customer : String)
      → Counted n (on_world m >> compare_row settings stripe missing dry_run local remote customer)
  marks-Counted m local remote customer =
      Triple-bind _ _ (on_world-Counted n _) λ _. compare_row-Counted local remote customer

  settle-Counted :
      (local : Option Subscription) (remote : RemoteSubscription) (customer : String)
      (user_id : Option String) (known : Option Bool)
      → Counted n (settle settings stripe missing dry_run local remote customer user_id known)
  unfolding settle
  settle-Counted local remote customer (some user_id) (some true) =
      Triple-bind _ _ (record_orphan-Counted remote customer user_id) λ _. pure-Counted n false
  settle-Counted local remote customer (some user_id) (some false) =
      marks-Counted _ local remote customer
  settle-Counted local remote customer (some user_id) none = marks-Counted _ local remote customer
  settle-Counted local remote customer none known = marks-Counted _ local remote customer

  reconcile_one-Counted :
      (remote : RemoteSubscription) (customer : String)
      → Counted n (reconcile_one settings stripe missing dry_run remote customer)
  unfolding reconcile_one reconcile_ours
  reconcile_one-Counted remote customer = Triple-bind _ _ (on_world-Counted n _) λ local.
      Triple-if
        (not (is_some local)
          && not (belongs_to_this_service settings.stripe_price_ids (some remote)))
        _ _ (λ _. Triple-bind _ _ (tally-Counted n _ (λ r. refl)) λ _. pure-Counted n false)
        λ _. Triple-bind _ _ (on_world-Counted n _) λ user_id.
          Triple-bind _ _ (on_world-Counted n _)
            λ known. settle-Counted local remote customer (present user_id) known

  one_transaction-Counted :
      (remote : RemoteSubscription) (customer : String)
      → Counted n (one_transaction settings stripe missing dry_run remote customer)
  unfolding one_transaction
  one_transaction-Counted remote customer =
      Triple-bind _ _ (reconcile_one-Counted remote customer)
        λ repaired. Triple-bind _ _ (on_world-Counted n _) λ _. pure-Counted n repaired

  after_one-HasChecked :
      (customer : String) (r : Result Bool) (run : Run R)
      → HasChecked n run
      → HasChecked n (after_one settings stripe missing dry_run customer (r, run))
  unfolding after_one
  after_one-HasChecked customer (ok true) run h = record { count = h.count }
  after_one-HasChecked customer (ok false) run h = h
  after_one-HasChecked customer (err e) run h = record { count = h.count }

module _ {R : Type 0} (settings : Settings) (stripe : BillingProvider R)
    (missing : List String → Option (List String)) (dry_run : Bool) where
  check_customer-HasChecked :
      (n : ℕ) (remote : RemoteSubscription) (customer : Option String) (run : Run R)
      → HasChecked n run
      → HasChecked n (check_customer settings stripe missing dry_run remote customer run)
  unfolding check_customer
  check_customer-HasChecked n remote none run h = h
  check_customer-HasChecked n remote (some customer) run h =
      after_one-HasChecked settings stripe missing dry_run n customer _ _ (
        Triple-end (HasChecked n) _ run
          (one_transaction-Counted settings stripe missing dry_run n remote customer) h)

  check_item-checked :
      (remote : RemoteSubscription) (run : Run R)
      → (check_item settings stripe missing dry_run remote run).report.checked
        ≡ run.report.checked + 1
  unfolding check_item
  check_item-checked remote run =
      (check_customer-HasChecked (run.report.checked + 1) remote (present remote.customer_id) _
        (record { count = refl })).count

  pub check_items-checked :
      (items : List RemoteSubscription) (run : Run R)
      → (check_items settings stripe missing dry_run items run).report.checked
        ≡ run.report.checked + length items
  unfolding check_items
  check_items-checked [] run = omega arith
  check_items-checked (remote ∷ items) run =
      let one = check_item-checked remote run in
      let rest =
        check_items-checked items (check_item settings stripe missing dry_run remote run) in
      omega (arith, one, rest)
