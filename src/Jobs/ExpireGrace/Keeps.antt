-- ===== src/Jobs/ExpireGrace/Keeps.antt =====
-- app/jobs/expire_grace.py under the invariant of the service.
use subscription_service.Policy.{grace_expired}
use subscription_service.Models.{Subscription, SubscriptionAudit}
use subscription_service.Service.Calm.{
  record_audit-Calm, commit_and_invalidate-Calm, mark-Calm, pure-Calm, IsCalm, query-Calm, Calm,
}
use subscription_service.Settings.{Settings}
use subscription_service.Prelude.{Bool-cases, List, String, [], inl, inr, not, ◌||◌, ◌∷◌}
use subscription_service.Effects.Triple.{Triple-keeps, Triple-end, Triple-bind}
use subscription_service.Jobs.ExpireGrace.{
  already_reported, expiry_row, report_all, mark_all, finish, expire_grace_windows,
}

module _ {R : Type 0} (settings : Settings) where
  report_all-Calm :
      (flushed : List SubscriptionAudit) (subs : List Subscription)
      → Calm {R = R} (report_all settings flushed subs)
  unfolding report_all
  report_all-Calm flushed [] = Triple-keeps IsCalm _ (λ w h. h)
  report_all-Calm flushed (sub ∷ subs) = Triple-keeps IsCalm _ λ w h.
      elim (Bool-cases (not (grace_expired settings w.now sub) || already_reported sub flushed)) [
        | inl skip ↦ rw skip (Triple-end IsCalm _ w (report_all-Calm flushed subs) h)
        | inr report ↦ rw report (
            Triple-end IsCalm _ w
              (Triple-bind _ _ (record_audit-Calm (expiry_row w.now sub))
                λ _. Triple-bind _ _ (report_all-Calm flushed subs) λ expired. pure-Calm _)
              h)
      ]

  mark_all-Calm : (users : List String) → Calm {R = R} (mark_all settings users)
  unfolding mark_all
  mark_all-Calm [] = pure-Calm tt
  mark_all-Calm (u ∷ us) = Triple-bind _ _ (mark-Calm u) λ _. mark_all-Calm us

  finish-Calm : (users : List String) → Calm {R = R} (finish settings users)
  unfolding finish
  finish-Calm [] = pure-Calm []
  finish-Calm (u ∷ us) =
      Triple-bind _ _ (mark_all-Calm (u ∷ us))
        λ _. Triple-bind _ _ commit_and_invalidate-Calm λ _. pure-Calm (u ∷ us)

  pub expire_grace_windows-Calm : Calm {R = R} (expire_grace_windows settings)
  unfolding expire_grace_windows
  expire_grace_windows-Calm = Triple-bind _ _ (query-Calm _) λ candidates.
      Triple-bind _ _ (query-Calm _) λ flushed.
        Triple-bind _ _ (report_all-Calm flushed candidates) λ expired. finish-Calm expired
