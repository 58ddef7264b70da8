-- ===== src/Jobs/Reconcile/Keeps.antt =====
-- app/jobs/reconcile.py under the invariant of the service.
use subscription_service.Sync.{belongs_to_this_service}
use subscription_service.Models.{Subscription}
use subscription_service.Provider.{RemoteSubscription, BillingProvider}
use subscription_service.Settings.{Settings}
use subscription_service.Service.Calm.{
  query-Calm, commit_and_invalidate-Calm, provider_call-Calm, rollback-IsCalm, sync-Calm, pure-Calm,
  IsCalm, Calm,
}
use subscription_service.Prelude.{
  ◌+◌, Bool, Bool-cases, List, Option, String, [], false, inl, inr, is_some, none, not, present,
  some, true, ◌&&◌, ◌∷◌,
}
use subscription_service.Effects.{Exec, Result, ok, err, ◌>>◌, gets, pure}
use subscription_service.Effects.Triple.{
  Triple, Triple-keeps, Triple-end, Triple-bind, Triple-pure, Triple-if,
}
use subscription_service.World.{World}
use subscription_service.Jobs.Reconcile.Report.{Run, ReconcileReport, on_world, tally}
use subscription_service.Jobs.Reconcile.{
  record_orphan, orphan_mark, repair, compare_row, clear_marks, settle, user_of, user_id_of,
  named_user, account_state, reconcile_ours, reconcile_one, end_one, one_transaction, after_one,
  check_item, check_items, check_customer, agrees, has_marks,
}

-- the world of the run has the invariant
pub record IsCalmRun {R : Type 0} (run : Run R) : Type 0 where
  pub calm : IsCalm run.world

module _ {R : Type 0} where
  abbrev CalmRun : {A : Type 0} → Exec (Run R) A → Type 0
  CalmRun m = Triple IsCalmRun (λ _. IsCalmRun) IsCalmRun m

  on_world-Calm : {A : Type 0} (m : Exec (World R) A) → Calm m → CalmRun (on_world m)
  unfolding on_world
  on_world-Calm m k =
      Triple-keeps IsCalmRun (on_world m)
        λ run h. record { calm = Triple-end IsCalm m run.world k h.calm }

  tally-Calm : (f : ReconcileReport → ReconcileReport) → CalmRun (tally f)
  unfolding tally
  tally-Calm f = Triple-keeps IsCalmRun (tally f) (λ run h. record { calm = h.calm })

  stop-Calm : {A : Type 0} (a : A) → CalmRun (pure a)
  stop-Calm a = Triple-pure a (λ run h. h)

module _ {R : Type 0} (settings : Settings) (stripe : BillingProvider R)
    (missing : List String → Option (List String)) (dry_run : Bool) where
  named_user-Calm :
      (customer : String) (user_id : Option String)
      → Calm (named_user settings stripe missing dry_run customer user_id)
  unfolding named_user
  named_user-Calm customer (some user_id) = pure-Calm _
  named_user-Calm customer none = Triple-bind _ _ (provider_call-Calm _) λ found. pure-Calm _

  user_of-Calm :
      (local : Option Subscription) (remote : RemoteSubscription) (customer : String)
      → Calm (user_of settings stripe missing dry_run local remote customer)
  unfolding user_of user_id_of
  user_of-Calm none remote customer = named_user-Calm customer _
  user_of-Calm (some local) remote customer = pure-Calm _

  account_state-Calm :
      (user_id : Option String) → Calm (account_state settings stripe missing dry_run user_id)
  unfolding account_state
  account_state-Calm none = pure-Calm none
  account_state-Calm (some user_id) = Triple-bind _ _ (query-Calm _) λ found. pure-Calm _

  orphan_mark-Calm :
      (remote : RemoteSubscription) (since : Option String)
      → Calm (orphan_mark settings stripe missing dry_run remote since)
  unfolding orphan_mark
  orphan_mark-Calm remote (some since) = pure-Calm _
  orphan_mark-Calm remote none =
      Triple-if dry_run _ _ (λ _. pure-Calm none)
        λ _.
          Triple-bind _ _ (Triple-keeps IsCalm (gets (λ w. w.now)) (λ w h. h))
            λ now. Triple-bind _ _ (provider_call-Calm _) λ _. pure-Calm _

  record_orphan-Calm :
      (remote : RemoteSubscription) (customer user_id : String)
      → CalmRun (record_orphan settings stripe missing dry_run remote customer user_id)
  unfolding record_orphan
  record_orphan-Calm remote customer user_id =
      Triple-if remote.ended _ _ (λ _. tally-Calm _)
        λ _. Triple-bind _ _ (on_world-Calm _ (orphan_mark-Calm remote _)) λ since. tally-Calm _

  clear_marks-Calm :
      (remote : RemoteSubscription) (known : Option Bool)
      → Calm (clear_marks settings stripe missing dry_run remote known)
  unfolding clear_marks
  clear_marks-Calm remote (some false) =
      Triple-if (has_marks remote && not dry_run) _ _ (λ _. provider_call-Calm _)
        (λ _. pure-Calm tt)
  clear_marks-Calm remote (some true) = pure-Calm tt
  clear_marks-Calm remote none = pure-Calm tt

  repair-Calm :
      (reason customer : String) → CalmRun (repair settings stripe missing dry_run reason customer)
  unfolding repair
  repair-Calm reason customer =
      Triple-if dry_run _ _ (λ _. stop-Calm false)
        λ _.
          Triple-bind _ _ (on_world-Calm _ (sync-Calm settings stripe reason none customer))
            λ _. stop-Calm true

  compare_row-Calm :
      (local : Option Subscription) (remote : RemoteSubscription) (customer : String)
      → CalmRun (compare_row settings stripe missing dry_run local remote customer)
  unfolding compare_row
  compare_row-Calm none remote customer = Triple-bind _ _ (tally-Calm _) λ _. repair-Calm _ customer
  compare_row-Calm (some local) remote customer =
      Triple-if (agrees settings.stripe_price_ids local remote) _ _ (λ _. stop-Calm false)
        λ _. Triple-bind _ _ (tally-Calm _) λ _. repair-Calm _ customer

  compared-Calm :
      (known : Option Bool) (local : Option Subscription) (remote : RemoteSubscription)
      (customer : String)
      → CalmRun (
          on_world (clear_marks settings stripe missing dry_run remote known)
          >> compare_row settings stripe missing dry_run local remote customer)
  compared-Calm known local remote customer =
      Triple-bind _ _ (on_world-Calm _ (clear_marks-Calm remote known))
        λ _. compare_row-Calm local remote customer

  settle-Calm :
      (local : Option Subscription) (remote : RemoteSubscription) (customer : String)
      (user_id : Option String) (known : Option Bool)
      → CalmRun (settle settings stripe missing dry_run local remote customer user_id known)
  unfolding settle
  settle-Calm local remote customer (some user_id) (some true) =
      Triple-bind _ _ (record_orphan-Calm remote customer user_id) λ _. stop-Calm false
  settle-Calm local remote customer (some user_id) (some false) =
      compared-Calm (some false) local remote customer
  settle-Calm local remote customer (some user_id) none = compared-Calm none local remote customer
  settle-Calm local remote customer none known = compared-Calm known local remote customer

  reconcile_one-Calm :
      (remote : RemoteSubscription) (customer : String)
      → CalmRun (reconcile_one settings stripe missing dry_run remote customer)
  unfolding reconcile_one reconcile_ours
  reconcile_one-Calm remote customer = Triple-bind _ _ (on_world-Calm _ (query-Calm _)) λ local.
      Triple-if
        (not (is_some local)
          && not (belongs_to_this_service settings.stripe_price_ids (some remote)))
        _ _ (λ _. Triple-bind _ _ (tally-Calm _) λ _. stop-Calm false)
        λ _. Triple-bind _ _ (on_world-Calm _ (user_of-Calm local remote customer)) λ user_id.
          Triple-bind _ _ (on_world-Calm _ (account_state-Calm _))
            λ known. settle-Calm local remote customer (present user_id) known

  end_one-Calm : Calm (end_one settings stripe missing dry_run)
  unfolding end_one
  end_one-Calm = Triple-keeps IsCalm _ λ w h. elim (Bool-cases dry_run) [
    | inl dry ↦ rw dry (rollback-IsCalm w h)
    | inr wet ↦ rw wet (Triple-end IsCalm _ w commit_and_invalidate-Calm h)
  ]

  one_transaction-Calm :
      (remote : RemoteSubscription) (customer : String)
      → CalmRun (one_transaction settings stripe missing dry_run remote customer)
  unfolding one_transaction
  one_transaction-Calm remote customer =
      Triple-bind _ _ (reconcile_one-Calm remote customer)
        λ repaired. Triple-bind _ _ (on_world-Calm _ end_one-Calm) λ _. stop-Calm repaired

  after_one-IsCalm :
      (customer : String) (r : Result Bool) (run : Run R)
      → IsCalmRun run
      → IsCalmRun (after_one settings stripe missing dry_run customer (r, run))
  unfolding after_one
  after_one-IsCalm customer (ok true) run h = record { calm = h.calm }
  after_one-IsCalm customer (ok false) run h = h
  after_one-IsCalm customer (err e) run h = record { calm = rollback-IsCalm run.world h.calm }

  check_customer-IsCalm :
      (remote : RemoteSubscription) (customer : Option String) (run : Run R)
      → IsCalmRun run
      → IsCalmRun (check_customer settings stripe missing dry_run remote customer run)
  unfolding check_customer
  check_customer-IsCalm remote none run h = h
  check_customer-IsCalm remote (some customer) run h =
      after_one-IsCalm customer _ _
        (Triple-end IsCalmRun _ run (one_transaction-Calm remote customer) h)

  check_item-IsCalm :
      (remote : RemoteSubscription) (run : Run R)
      → IsCalmRun run
      → IsCalmRun (check_item settings stripe missing dry_run remote run)
  unfolding check_item
  check_item-IsCalm remote run h =
      check_customer-IsCalm remote (present remote.customer_id)
        (record run { report = record run.report { checked = run.report.checked + 1 } })
        (record { calm = h.calm })

  pub check_items-IsCalm :
      (items : List RemoteSubscription) (run : Run R)
      → IsCalmRun run
      → IsCalmRun (check_items settings stripe missing dry_run items run)
  unfolding check_items
  check_items-IsCalm [] run h = h
  check_items-IsCalm (remote ∷ items) run h =
      check_items-IsCalm items (check_item settings stripe missing dry_run remote run)
        (check_item-IsCalm remote run h)
