-- ===== src/Service/Invariant.antt =====
-- What holds of every world that the service comes to.
use subscription_service.Prelude.{[], refl, sym, ◌∙◌, ◌≡◌}
use subscription_service.Effects.{Exec}
use subscription_service.Effects.Triple.{Triple-end}
use subscription_service.World.{World}
use subscription_service.World.Session.{rollback}
use subscription_service.Sync.Mirror.Sound.{IsSound}
use subscription_service.Api.{in_session}
use subscription_service.Service.{
  Deployment, Step, delivered, checked_out, cancelled, resumed, opened, looked_up, answered,
  resynced, extended, granted, revoked, expired, reconciled, outside, Reach, start, later,
}
use subscription_service.Service.Calm.{IsCalm, Calm, rollback-IsCalm}
use subscription_service.Api.Keeps.{
  my_subscription-Calm, checkout-Calm, cancel-Calm, resume-Calm, portal-Calm,
}
use subscription_service.Admin.Keeps.{
  extend_grace-Calm, create_grant-Calm, revoke_grant-Calm, resync-Calm,
}
use subscription_service.Entitlements.Read.Keeps.{resolve_entitlements-Calm}
use subscription_service.Webhooks.Keeps.{stripe_webhook-Calm}
use subscription_service.Jobs.ExpireGrace.Keeps.{expire_grace_windows-Calm}
use subscription_service.Jobs.Reconcile.Walk.Keeps.{reconcile-IsCalm}

-- Between two steps nothing is pending, and the invariant holds.
record IsIdle {R : Type 0} (w : World R) : Type 0 where
  calm : IsCalm w
  settled : w.db ≡ w.saved

module _ {R : Type 0} where
  rolled_back : (w : World R) → IsCalm w → IsIdle (rollback w)
  unfolding rollback
  rolled_back w h = record { calm = rollback-IsCalm w h; settled = refl }

  in_session-IsIdle :
      {A : Type 0} (m : Exec (World R) A) (w : World R)
      → Calm m
      → IsCalm w
      → IsIdle (in_session m w).1
  unfolding in_session
  in_session-IsIdle m w k h = rolled_back (m w).1 (Triple-end IsCalm m w k h)

  step-IsIdle : (d : Deployment R) {w w' : World R} → IsIdle w → Step d w w' → IsIdle w'
  step-IsIdle d {w} h (delivered delivery) =
      in_session-IsIdle _ w (stripe_webhook-Calm d.settings d.stripe delivery) h.calm
  step-IsIdle d {w} h (checked_out order) =
      in_session-IsIdle _ w (checkout-Calm d.digest d.settings d.stripe d.flags order) h.calm
  step-IsIdle d {w} h (cancelled user_id) =
      in_session-IsIdle _ w (cancel-Calm d.settings d.stripe user_id) h.calm
  step-IsIdle d {w} h (resumed user_id) =
      in_session-IsIdle _ w (resume-Calm d.settings d.stripe user_id) h.calm
  step-IsIdle d {w} h (opened user_id target) =
      in_session-IsIdle _ w (portal-Calm d.settings d.stripe user_id target) h.calm
  step-IsIdle d {w} h (looked_up user_id) =
      in_session-IsIdle _ w (my_subscription-Calm user_id) h.calm
  step-IsIdle d {w} h (answered user_id) =
      in_session-IsIdle _ w (resolve_entitlements-Calm d.settings user_id) h.calm
  step-IsIdle d {w} h (resynced user_id) =
      in_session-IsIdle _ w (resync-Calm d.settings d.stripe user_id) h.calm
  step-IsIdle d {w} h (extended user_id days) =
      in_session-IsIdle _ w (extend_grace-Calm user_id days) h.calm
  step-IsIdle d {w} h (granted id order) = in_session-IsIdle _ w (create_grant-Calm id order) h.calm
  step-IsIdle d {w} h (revoked id) = in_session-IsIdle _ w (revoke_grant-Calm id) h.calm
  step-IsIdle d {w} h expired = in_session-IsIdle _ w (expire_grace_windows-Calm d.settings) h.calm
  step-IsIdle d {w} h (reconciled dry_run fuel {w' = w'} ran) =
      rolled_back w'
        (reconcile-IsCalm d.settings d.stripe d.missing dry_run fuel d.notifier w h.calm ran)
  step-IsIdle d {w} h (outside {w' = w'} db saved quiet) = record {
    calm = record {
      table = rw db h.calm.table;
      committed = rw saved h.calm.committed;
      alone = quiet;
    };
    settled = db ∙ h.settled ∙ sym saved;
  }

  Reach-IsIdle : (d : Deployment R) {w : World R} → Reach d w → IsIdle w
  Reach-IsIdle d (start w empty settled quiet) =
      let none_sound : IsSound [] = record { unique = tt; consistent = tt } in
      record {
        calm = record {
          table = rw settled (rw empty none_sound);
          committed = rw empty none_sound;
          alone = quiet;
        };
        settled = settled;
      }
  Reach-IsIdle d (later before step) = step-IsIdle d (Reach-IsIdle d before) step

  -- In every world that the service comes to from an empty table, by deliveries, the requests of
  -- customers about billing and entitlements, the operations of support, the jobs and changes
  -- outside, in any order, where no other worker inserts a row during a step, the committed table
  -- satisfies its constraints, each of its rows is consistent, and nothing is pending.
  pub Reach-IsSound :
      (d : Deployment R) {w : World R}
      → Reach d w
      → IsSound w.saved.subscriptions × (w.db ≡ w.saved)
  Reach-IsSound d r = ((Reach-IsIdle d r).calm.committed, (Reach-IsIdle d r).settled)
