-- ===== src/Sync/Marks.antt =====
-- app/services/subscriptions.py: the marks of a sync against the entitlements of its users.
use subscription_service.World.Session.{add_mark}
use subscription_service.World.Database.Writes.{find_by_user_of_customer}
use subscription_service.Sync.Mirror.{sync_subscription}
use subscription_service.Effects.{ok}
use subscription_service.World.Database.Rows.{find_by_user-store}
use subscription_service.Provider.{RemoteSubscription, BillingProvider}
use subscription_service.World.Database.{clashes, store, find_by_user}
use subscription_service.Plans.{Tier}
use subscription_service.World.{World, Db}
use subscription_service.Models.{SubscriptionAudit, Subscription}
use subscription_service.Policy.{grace_ends_at, grace_expired}
use subscription_service.Settings.{Settings}
use subscription_service.Entitlements.Resolve.{
  active_grant_tier, subscription_tier, resolve_from, entitle,
}
use subscription_service.Prelude.{
  Bool-cases, List, Option, String, [], ap, eq_iff, false, if◌then◌else◌, inl, inr, refl, some, sym,
  ℕ, ◌==◌, ◌∙◌, ◌∷◌, ◌≡◌,
}
use subscription_service.Sync.{
  same_fingerprint-eq, same_fingerprint, write_state, fingerprint, Fingerprint,
}
use subscription_service.Sync.Existing.{marked, mirrored}
use subscription_service.Sync.Idempotent.{sync_result, HasRow}

-- two rows with one fingerprint are entitled alike
entitled_alike :
    (settings : Settings) (t : ℕ) (user_id : String) (a b : Subscription) (granted : Option Tier)
    → fingerprint a ≡ fingerprint b
    → entitle settings t user_id (some a) granted ≡ entitle settings t user_id (some b) granted
unfolding entitle subscription_tier grace_expired grace_ends_at fingerprint
entitled_alike settings t user_id a b granted e = cc (
  ap (λ (f : Fingerprint). f.tier) e,
  ap (λ (f : Fingerprint). f.status) e,
  ap (λ (f : Fingerprint). f.past_due_since) e,
  ap (λ (f : Fingerprint). f.current_period_start) e,
  ap (λ (f : Fingerprint). f.current_period_end) e,
  ap (λ (f : Fingerprint). f.cancel_at_period_end) e,
)

resolved_alike :
    (settings : Settings) (t : ℕ) (j : String) (sub sub' : Subscription) (db : Db)
    (trail : List SubscriptionAudit)
    → find_by_user sub.user_id db.subscriptions ≡ some sub
    → sub'.user_id ≡ sub.user_id
    → fingerprint sub' ≡ fingerprint sub
    → resolve_from settings t j
        (record db { subscriptions = store sub' db.subscriptions; audit = trail })
      ≡ resolve_from settings t j db
unfolding resolve_from
resolved_alike settings t j sub sub' db trail found user alike =
    elim (Bool-cases (sub'.user_id == j)) [
      | inl same ↦
          ap (λ row. entitle settings t j row granted) (written ∙ rw same)
          ∙ entitled_alike settings t j sub' sub granted alike
          ∙ ap (λ row. entitle settings t j row granted)
              (sym (
                ap (λ u. find_by_user u db.subscriptions)
                  (sym ((eq_iff sub'.user_id j).0 same) ∙ user)
                ∙ found))
      | inr other ↦ ap (λ row. entitle settings t j row granted) (written ∙ rw other)
    ]
  where
    granted : Option Tier
    granted = active_grant_tier t j db.grants

    written :
        find_by_user j (store sub' db.subscriptions)
        ≡ (if sub'.user_id == j then some sub' else find_by_user j db.subscriptions)
    written = find_by_user-store sub' j db.subscriptions

-- a user is left unmarked only if the fingerprint is the same
unmarked_alike :
    (marks : List String) (sub sub' : Subscription)
    → marks ≡ []
    → marked marks sub sub' ≡ []
    → fingerprint sub' ≡ fingerprint sub
unfolding add_mark
unmarked_alike [] sub sub' clear unmarked = elim (Bool-cases (same_fingerprint sub' sub)) [
  | inl same ↦ same_fingerprint-eq sub' sub same
  | inr changed ↦ let h : sub.user_id ∷ [] ≡ [] = rw changed at unmarked in cc
]
unmarked_alike (m ∷ marks) sub sub' clear unmarked = cc

module _ {R : Type 0} (settings : Settings) (stripe : BillingProvider R) where
  -- If a sync of a customer with a row, in a session with no marks, marks nobody, and the database
  -- answers, Stripe answers and the constraints admit the row, then every user is answered, at every
  -- time, from the tables that the sync leaves as from the tables before it.
  pub sync_unmarked :
      (reason : String) (event : Option String) (customer : String) (w : World R)
      {sub : Subscription} {remote : Option RemoteSubscription} {r : R}
      → HasRow customer sub w
      → stripe.fetch_current_subscription customer w.remote ≡ (ok remote, r)
      → clashes (mirrored settings stripe w.now sub remote) w.db.subscriptions ≡ false
      → w.marks ≡ []
      → (sync_subscription settings stripe reason event customer w).1.marks ≡ []
      → (t : ℕ) (j : String)
      → resolve_from settings t j (sync_subscription settings stripe reason event customer w).1.db
        ≡ resolve_from settings t j w.db
  unfolding write_state
  sync_unmarked reason event customer w {sub} {remote} {r} h fetched free clear unmarked t j =
      rw (sync_result settings stripe reason event customer w h fetched free) (
        resolved_alike settings t j sub (mirrored settings stripe w.now sub remote) w.db _
          (find_by_user_of_customer customer w.db.subscriptions sub h.unique h.found) refl
          (unmarked_alike w.marks sub (mirrored settings stripe w.now sub remote) clear
            (rw (sync_result settings stripe reason event customer w h fetched free) at unmarked)))
