-- ===== src/Jobs/Reconcile/Walk/DryRun.antt =====
-- app/jobs/reconcile.py with `dry_run`: the run.
use subscription_service.Prelude.{
  Bool, List, Option, String, [], ap, false, none, present, refl, some, some-injective, suc, sym,
  true, zero, ℕ, ◌∙◌, ◌∷◌, ◌≡◌,
}
use mathlib.Core.Option
use subscription_service.Jobs.Reconcile.ReadOnly.{
  IsReadOnly, IsAt, Stays, on_world-Stays, pure-Stays, provider_call_world, reconcile_one-Stays,
}
use subscription_service.Effects.{Exec, Result, ok, err}
use subscription_service.Effects.Triple.{Triple-bind, Triple-keeps, Triple-end}
use subscription_service.World.{World}
use subscription_service.World.Session.{rollback}
use subscription_service.Settings.{Settings}
use subscription_service.Provider.{BillingProvider, RemoteSubscription, SubscriptionPage}
use subscription_service.Jobs.Reconcile.Report.{Run, ReconcileReport, on_world}
use subscription_service.Jobs.Reconcile.{
  one_transaction, end_one, after_one, check_item, check_items, check_customer,
}
use subscription_service.Jobs.Reconcile.Walk.{
  finish, reconcile, reconcile, walk, walk_page, walk_items, last_id,
}

module _ {R : Type 0} (settings : Settings) (stripe : BillingProvider R)
    (missing : List String → Option (List String)) (reads : IsReadOnly stripe) (w : World R)
    (clean : rollback w ≡ w) where
  end_one-Stays : Stays w (on_world (end_one settings stripe missing true))
  unfolding end_one on_world
  end_one-Stays = Triple-keeps (IsAt w) _ (λ run h. record { same = ap rollback h.same ∙ clean })

  one_transaction-Stays :
      (remote : RemoteSubscription) (customer : String)
      → Stays w (one_transaction settings stripe missing true remote customer)
  unfolding one_transaction
  one_transaction-Stays remote customer =
      Triple-bind _ _ (reconcile_one-Stays settings stripe missing reads w remote customer)
        λ repaired. Triple-bind _ _ end_one-Stays λ _. pure-Stays w repaired

  after_one-IsAt :
      (customer : String) (r : Result Bool) (run : Run R)
      → IsAt w run
      → IsAt w (after_one settings stripe missing true customer (r, run))
  unfolding after_one
  after_one-IsAt customer (ok true) run h = record { same = h.same }
  after_one-IsAt customer (ok false) run h = h
  after_one-IsAt customer (err e) run h = record { same = ap rollback h.same ∙ clean }

  check_customer-IsAt :
      (remote : RemoteSubscription) (customer : Option String) (run : Run R)
      → IsAt w run
      → IsAt w (check_customer settings stripe missing true remote customer run)
  unfolding check_customer
  check_customer-IsAt remote none run h = h
  check_customer-IsAt remote (some customer) run h =
      after_one-IsAt customer _ _
        (Triple-end (IsAt w) _ run (one_transaction-Stays remote customer) h)

  check_items-IsAt :
      (items : List RemoteSubscription) (run : Run R)
      → IsAt w run
      → IsAt w (check_items settings stripe missing true items run)
  unfolding check_items check_item
  check_items-IsAt [] run h = h
  check_items-IsAt (remote ∷ items) run h =
      check_items-IsAt items _
        (check_customer-IsAt remote (present remote.customer_id) _ (record { same = h.same }))

  -- the walk, where it ends, ends in the same world
  abbrev EndsAt : Option (Result (Unit {0}) × Run R) → Type 0
  EndsAt none = Unit
  EndsAt (some (r, run)) = IsAt w run

  walk_items-EndsAt :
      (next : String → Run R → Option (Result (Unit {0}) × Run R)) (items : List RemoteSubscription)
      (more : Bool) (run : Run R)
      → IsAt w run
      → ((last : String) (run' : Run R) → IsAt w run' → EndsAt (next last run'))
      → EndsAt (walk_items settings stripe missing true next items more run)
  unfolding walk_items
  walk_items-EndsAt next [] more run h k = h
  walk_items-EndsAt next (remote ∷ items) true run h k =
      k (last_id remote items) _ (check_items-IsAt (remote ∷ items) run h)
  walk_items-EndsAt next (remote ∷ items) false run h k = check_items-IsAt (remote ∷ items) run h

  walk_page-EndsAt :
      (next : String → Run R → Option (Result (Unit {0}) × Run R)) (r : Result SubscriptionPage)
      (run : Run R)
      → IsAt w run
      → ((last : String) (run' : Run R) → IsAt w run' → EndsAt (next last run'))
      → EndsAt (walk_page settings stripe missing true next (r, run))
  unfolding walk_page
  walk_page-EndsAt next (ok page) run h k = walk_items-EndsAt next page.items page.has_more run h k
  walk_page-EndsAt next (err e) run h k = h

  walk-EndsAt :
      (fuel : ℕ) (after : Option String) (run : Run R)
      → IsAt w run
      → EndsAt (walk settings stripe missing true fuel after run)
  unfolding walk
  walk-EndsAt zero after run h = tt
  walk-EndsAt (suc fuel) after run h =
      walk_page-EndsAt _ _ _
        (Triple-end (IsAt w) _ run
          (on_world-Stays w _
            (λ v. provider_call_world settings stripe missing reads _ v (reads.listing after)))
          h)
        λ last run' h'. walk-EndsAt fuel (some last) run' h'

  finished :
      (notifier : Option (String → String → Exec R (Unit {0}))) (r : Result (Unit {0}))
      (run : Run R)
      → IsAt w run
      → (finish settings stripe missing true notifier (r, run)).1 ≡ w
  unfolding finish
  finished notifier (ok _) run h = h.same
  finished notifier (err e) run h = h.same

  ended :
      (notifier : Option (String → String → Exec R (Unit {0})))
      (end : Option (Result (Unit {0}) × Run R)) {r : Result ReconcileReport} {w' : World R}
      → EndsAt end
      → Option.map (finish settings stripe missing true notifier) end ≡ some (r, w')
      → w' ≡ w
  ended notifier none h e = cc
  ended notifier (some (r, run)) h e =
      sym (ap (λ p. p.1) (some-injective _ _ e)) ∙ finished notifier r run h

  end_of_dry_run :
      (fuel : ℕ) (notifier : Option (String → String → Exec R (Unit {0})))
      {r : Result ReconcileReport} {w' : World R}
      → reconcile settings stripe missing true fuel notifier w ≡ some (r, w')
      → w' ≡ w
  unfolding reconcile
  end_of_dry_run fuel notifier h =
      ended notifier _ (walk-EndsAt fuel none _ (record { same = refl })) h

rollback_clean : {R : Type 0} (w : World R) → w.db ≡ w.saved → w.marks ≡ [] → rollback w ≡ w
unfolding rollback
rollback_clean w saved clear = λ i. record w { db = sym saved i; marks = sym clear i }

-- Where reading leaves Stripe as it is, a dry run that starts with nothing pending in the session
-- ends in the world in which it began: nothing in the database, in the cache or at Stripe has changed,
-- and nobody was told, however far it came.
pub reconcile_dry_run :
    {R : Type 0} (settings : Settings) (stripe : BillingProvider R)
    (missing : List String → Option (List String)) (fuel : ℕ)
    (notifier : Option (String → String → Exec R (Unit {0}))) (w : World R)
    {r : Result ReconcileReport} {w' : World R}
    → IsReadOnly stripe
    → w.db ≡ w.saved
    → w.marks ≡ []
    → reconcile settings stripe missing true fuel notifier w ≡ some (r, w')
    → w' ≡ w
reconcile_dry_run settings stripe missing fuel notifier w reads saved clear h =
    end_of_dry_run settings stripe missing reads w (rollback_clean w saved clear) fuel notifier h
