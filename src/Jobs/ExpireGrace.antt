-- ===== src/Jobs/ExpireGrace.antt =====
-- app/jobs/expire_grace.py: `_already_reported` and `expire_grace_windows`.
pub mod Keeps
pub mod Due
pub mod Reported
pub mod Once
use subscription_service.Prelude.{
  Bool, List, Option, String, [], any, false, if◌then◌else◌, ltb, none, not, select, some, ℕ, ◌&&◌,
  ◌==◌, ◌||◌, ◌∷◌,
}
use subscription_service.Plans.{Tier, same_tier}
use subscription_service.Models.{Subscription, SubscriptionAudit, is_past_due}
use subscription_service.Settings.{Settings}
use subscription_service.Policy.{grace_expired}
use subscription_service.Effects.{Exec, ok, pure, ◌>>=◌, ◌>>◌}
use subscription_service.World.{World}
use subscription_service.World.Session.{
  query, record_audit, mark_entitlements_stale, commit_and_invalidate,
}

-- REASON
abbrev pub expired_reason : String
expired_reason = "dunning.grace_expired"

-- the query's condition on one row of the trail, for a cycle that began at `since`
unfoldable pub reports : String → ℕ → SubscriptionAudit → Bool
reports user_id since row =
    (row.user_id == user_id) && (row.reason == expired_reason) && ltb since row.created_at

reported_since : Option ℕ → String → List SubscriptionAudit → Bool
reported_since none user_id audit = false
reported_since (some since) user_id audit = any (reports user_id since) audit

-- `_already_reported`
unfoldable pub already_reported : Subscription → List SubscriptionAudit → Bool
unfolding reported_since
already_reported sub audit = reported_since sub.past_due_since sub.user_id audit

-- the query's condition on a row: past due, and not mirrored as free
unfoldable pub is_candidate : Subscription → Bool
is_candidate sub = is_past_due sub.status && not (same_tier sub.tier Tier.free)

-- the row of the trail that reports the end of a grace window
unfoldable pub expiry_row : ℕ → Subscription → SubscriptionAudit
expiry_row now sub = record {
  user_id = sub.user_id;
  from_tier = some sub.tier;
  to_tier = some Tier.free;
  from_status = some sub.status;
  to_status = some sub.status;
  reason = expired_reason;
  stripe_event_id = none;
  created_at = now;
}

module _ {R : Type 0} (settings : Settings) where
  -- The loop over the candidates. Each `_already_reported` is a query, which sees the trail as it
  -- was flushed: a row that this loop adds stays in the session until the commit.
  unfoldable pub report_all :
      List SubscriptionAudit → List Subscription → Exec (World R) (List String)
  report_all flushed [] w = (ok [], w)
  report_all flushed (sub ∷ subs) w =
      let others = report_all flushed subs in
      if not (grace_expired settings w.now sub) || already_reported sub flushed
      then others w
      else (do record_audit (expiry_row w.now sub); expired ← others; pure (sub.user_id ∷ expired))
          w

  unfoldable pub mark_all : List String → Exec (World R) (Unit {0})
  mark_all [] = pure tt
  mark_all (u ∷ us) = do mark_entitlements_stale u; mark_all us

  finish : List String → Exec (World R) (List String)
  finish [] = pure []
  finish (u ∷ us) = do mark_all (u ∷ us); commit_and_invalidate; pure (u ∷ us)

  -- `expire_grace_windows`, in a session with nothing pending
  unfoldable pub expire_grace_windows : Exec (World R) (List String)
  unfolding finish
  expire_grace_windows = do
    candidates ← query (λ db. select is_candidate db.subscriptions)
    flushed ← query (λ db. db.audit)
    expired ← report_all flushed candidates
    finish expired
