-- ===== src/Jobs/Reconcile/Walk/Keeps.antt =====
-- app/jobs/reconcile.py under the invariant of the service.
use subscription_service.Provider.{SubscriptionPage, RemoteSubscription, BillingProvider}
use subscription_service.Settings.{Settings}
use mathlib.Core.Option
use subscription_service.Prelude.{
  Bool, List, Option, String, [], ap, false, if◌then◌else◌, none, some, some-injective, subst, suc,
  true, zero, ℕ, ◌∷◌, ◌≡◌,
}
use subscription_service.Effects.{Exec, Result, ok, err}
use subscription_service.Effects.Triple.{Triple-end}
use subscription_service.World.{World}
use subscription_service.Jobs.Reconcile.Report.{Run, ReconcileReport, on_world}
use subscription_service.Jobs.Reconcile.Keeps.{IsCalmRun, check_items-IsCalm}
use subscription_service.Jobs.Reconcile.Notify.Keeps.{notify-IsCalm}
use subscription_service.Jobs.Reconcile.Notify.{notify}
use subscription_service.Jobs.Reconcile.Walk.{
  walk, walk_page, walk_items, finish, reconcile, last_id,
}
use subscription_service.Service.Calm.{IsCalm, provider_call-Calm}

module _ {R : Type 0} (settings : Settings) (stripe : BillingProvider R)
    (missing : List String → Option (List String)) (dry_run : Bool) where
  -- where the walk ends, the invariant holds
  abbrev EndsCalm : Option (Result (Unit {0}) × Run R) → Type 0
  EndsCalm none = Unit
  EndsCalm (some (r, run)) = IsCalmRun run

  walk_items-Calm :
      (next : String → Run R → Option (Result (Unit {0}) × Run R)) (items : List RemoteSubscription)
      (more : Bool) (run : Run R)
      → IsCalmRun run
      → ((last : String) (run' : Run R) → IsCalmRun run' → EndsCalm (next last run'))
      → EndsCalm (walk_items settings stripe missing dry_run next items more run)
  unfolding walk_items
  walk_items-Calm next [] more run h k = h
  walk_items-Calm next (remote ∷ items) true run h k =
      k (last_id remote items) _
        (check_items-IsCalm settings stripe missing dry_run (remote ∷ items) run h)
  walk_items-Calm next (remote ∷ items) false run h k =
      check_items-IsCalm settings stripe missing dry_run (remote ∷ items) run h

  walk_page-Calm :
      (next : String → Run R → Option (Result (Unit {0}) × Run R)) (r : Result SubscriptionPage)
      (run : Run R)
      → IsCalmRun run
      → ((last : String) (run' : Run R) → IsCalmRun run' → EndsCalm (next last run'))
      → EndsCalm (walk_page settings stripe missing dry_run next (r, run))
  unfolding walk_page
  walk_page-Calm next (ok page) run h k = walk_items-Calm next page.items page.has_more run h k
  walk_page-Calm next (err e) run h k = h

  walk-Calm :
      (fuel : ℕ) (after : Option String) (run : Run R)
      → IsCalmRun run
      → EndsCalm (walk settings stripe missing dry_run fuel after run)
  unfolding walk on_world
  walk-Calm zero after run h = tt
  walk-Calm (suc fuel) after run h =
      walk_page-Calm _ _ _
        (record { calm = Triple-end IsCalm _ run.world (provider_call-Calm _) h.calm })
        λ last run' h'. walk-Calm fuel (some last) run' h'

  told-IsCalm :
      (b : Bool) (notifier : Option (String → String → Exec R (Unit {0}))) (run : Run R)
      → IsCalmRun run
      → IsCalmRun (if b then run else notify settings stripe notifier run)
  told-IsCalm true notifier run h = h
  told-IsCalm false notifier run h = notify-IsCalm settings stripe notifier run h

  finish-IsCalm :
      (notifier : Option (String → String → Exec R (Unit {0}))) (r : Result (Unit {0}))
      (run : Run R)
      → IsCalmRun run
      → IsCalm (finish settings stripe missing dry_run notifier (r, run)).1
  unfolding finish
  finish-IsCalm notifier (ok _) run h = (told-IsCalm dry_run notifier run h).calm
  finish-IsCalm notifier (err e) run h = h.calm

  ended-IsCalm :
      (notifier : Option (String → String → Exec R (Unit {0})))
      (end : Option (Result (Unit {0}) × Run R)) {r : Result ReconcileReport} {w' : World R}
      → EndsCalm end
      → Option.map (finish settings stripe missing dry_run notifier) end ≡ some (r, w')
      → IsCalm w'
  ended-IsCalm notifier none h e = cc
  ended-IsCalm notifier (some (r, run)) h e =
      subst IsCalm (ap (λ p. p.1) (some-injective _ _ e)) (finish-IsCalm notifier r run h)

  pub reconcile-IsCalm :
      (fuel : ℕ) (notifier : Option (String → String → Exec R (Unit {0}))) (w : World R)
      {r : Result ReconcileReport} {w' : World R}
      → IsCalm w
      → reconcile settings stripe missing dry_run fuel notifier w ≡ some (r, w')
      → IsCalm w'
  unfolding reconcile
  reconcile-IsCalm fuel notifier w h e =
      ended-IsCalm notifier _ (walk-Calm fuel none _ (record { calm = h })) e
