-- ===== src/Jobs/Reconcile/Notify/Keeps.antt =====
-- app/jobs/reconcile.py under the invariant of the service.
use subscription_service.Prelude.{List, Option, String, [], none, some, ◌∷◌}
use subscription_service.Effects.{Exec, Result, ok, err}
use subscription_service.Effects.Triple.{Triple-end}
use subscription_service.World.{World}
use subscription_service.Settings.{Settings}
use subscription_service.Provider.{BillingProvider}
use subscription_service.Jobs.Reconcile.Report.{Run, Orphan}
use subscription_service.Jobs.Reconcile.Keeps.{IsCalmRun}
use subscription_service.Jobs.Reconcile.Notify.{
  notify, notify_pending, after_send, mark_notified, sent_all, unsent,
}
use subscription_service.Service.Calm.{IsCalm, provider_call-Calm}

module _ {R : Type 0} (settings : Settings) (stripe : BillingProvider R) where
  mark_notified-IsCalm :
      (sent : String) (ids : List String) (w : World R)
      → IsCalm w
      → IsCalm (mark_notified settings stripe sent ids w)
  unfolding mark_notified
  mark_notified-IsCalm sent [] w h = h
  mark_notified-IsCalm sent (id ∷ ids) w h =
      mark_notified-IsCalm sent ids _ (Triple-end IsCalm _ w (provider_call-Calm _) h)

  after_send-IsCalm :
      (run : Run R) (r : Result (Unit {0})) (w : World R)
      → IsCalm w
      → IsCalmRun (after_send settings stripe run (r, w))
  unfolding after_send unsent sent_all
  after_send-IsCalm run (ok _) w h = record { calm = mark_notified-IsCalm _ _ w h }
  after_send-IsCalm run (err e) w h = record { calm = h }

  notify_pending-IsCalm :
      (os : List Orphan) (notifier : Option (String → String → Exec R (Unit {0}))) (run : Run R)
      → IsCalmRun run
      → IsCalmRun (notify_pending settings stripe os notifier run)
  unfolding notify_pending unsent
  notify_pending-IsCalm [] notifier run h = h
  notify_pending-IsCalm (o ∷ os) none run h = record { calm = h.calm }
  notify_pending-IsCalm (o ∷ os) (some send) run h =
      after_send-IsCalm run _ _ (Triple-end IsCalm _ run.world (provider_call-Calm _) h.calm)

  pub notify-IsCalm :
      (notifier : Option (String → String → Exec R (Unit {0}))) (run : Run R)
      → IsCalmRun run
      → IsCalmRun (notify settings stripe notifier run)
  unfolding notify
  notify-IsCalm notifier run h = notify_pending-IsCalm _ notifier run h
