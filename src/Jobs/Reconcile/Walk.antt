-- ===== src/Jobs/Reconcile/Walk.antt =====
-- app/jobs/reconcile.py: the loop over Stripe's pages, and the run of the job.
use subscription_service.Prelude.{
  Bool, List, Option, String, [], if◌then◌else◌, none, some, suc, zero, ℕ, ◌∷◌,
}
use subscription_service.Effects.{Exec, Result, ok, err}
pub mod Keeps
pub mod Pages
pub mod DryRun
use mathlib.Core.Option
use subscription_service.World.{World}
use subscription_service.Settings.{Settings}
use subscription_service.Provider.{SubscriptionPage, BillingProvider, RemoteSubscription}
use subscription_service.World.Session.{provider_call}
use subscription_service.Jobs.Reconcile.Report.{ReconcileReport, Run, empty_report, on_world}
use subscription_service.Jobs.Reconcile.{check_items}
use subscription_service.Jobs.Reconcile.Notify.{notify}

-- `page.items[-1].id`
unfoldable pub last_id : RemoteSubscription → List RemoteSubscription → String
last_id remote [] = remote.id
last_id remote (next ∷ items) = last_id next items

module _ {R : Type 0} (settings : Settings) (stripe : BillingProvider R)
    (missing : List String → Option (List String)) (dry_run : Bool) where
  -- the items of a page, and what follows them
  walk_items :
      (String → Run R → Option (Result (Unit {0}) × Run R))
      → List RemoteSubscription
      → Bool
      → Run R
      → Option (Result (Unit {0}) × Run R)
  walk_items next [] more run = some (ok tt, run)
  walk_items next (remote ∷ items) more run =
      let checked = check_items settings stripe missing dry_run (remote ∷ items) run in
      if more then next (last_id remote items) checked else some (ok tt, checked)

  walk_page :
      (String → Run R → Option (Result (Unit {0}) × Run R))
      → Result SubscriptionPage × Run R
      → Option (Result (Unit {0}) × Run R)
  unfolding walk_items
  walk_page next (err e, run) = some (err e, run)
  walk_page next (ok page, run) = walk_items next page.items page.has_more run

  -- the loop over the pages, a page to a unit of fuel; none where the fuel runs out
  unfoldable pub walk : ℕ → Option String → Run R → Option (Result (Unit {0}) × Run R)
  unfolding walk_page
  walk zero after run = none
  walk (suc fuel) after run =
      walk_page (λ last run'. walk fuel (some last) run')
        (on_world (provider_call (stripe.list_subscriptions_page after)) run)

  -- what follows the loop, which an error of Stripe's ends
  finish :
      Option (String → String → Exec R (Unit {0}))
      → Result (Unit {0}) × Run R
      → Result ReconcileReport × World R
  finish notifier (err e, run) = (err e, run.world)
  finish notifier (ok _, run) =
      let told = if dry_run then run else notify settings stripe notifier run in
      (ok told.report, told.world)

  -- `reconcile`
  unfoldable pub reconcile :
      ℕ
      → Option (String → String → Exec R (Unit {0}))
      → World R
      → Option (Result ReconcileReport × World R)
  unfolding finish
  reconcile fuel notifier w =
      Option.map (λ end. finish notifier end)
        (walk fuel none (record { report = empty_report; world = w }))
