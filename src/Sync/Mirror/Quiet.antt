-- ===== src/Sync/Mirror/Quiet.antt =====
-- `sync_subscription_from_stripe`: it commits nothing of its own.
use subscription_service.Prelude.{
  Bool, Bool-cases, Option, String, [], ap, append-nil, arith, false, inl, inr, is_some, lookup,
  none, refl, some, true, ◌++◌, ◌==◌, ◌∙◌, ◌≡◌,
}
use subscription_service.Sync.{belongs_to_this_service}
use subscription_service.Provider.{RemoteSubscription, BillingProvider}
use subscription_service.Settings.{Settings}
use subscription_service.Effects.{Exec, err, Result, integrity_error}
use subscription_service.World.{World, Db}
use subscription_service.World.Database.{find_by_user}
use subscription_service.World.Session.{
  provider_call, flush_row, record_audit, mark_entitlements_stale,
}
use subscription_service.Models.{Subscription, SubscriptionAudit}
use subscription_service.Sync.Mirror.{
  sync_subscription, sync_found, orphaned_at, is_marked, mirror, claim_row, claim_found,
  claimed_row, find_locked, adopt_user, adopt, audit_if, mark_if, write_row, insert_row,
  after_insert, recover_row, rivals_commit, get_subscription,
}
use subscription_service.Effects.Triple.{
  Triple, Triple-pure, Triple-if, Triple-bind, Triple-keeps, Triple-end,
}
use subscription_service.Sync.Mirror.Sound.{query-Triple, find_locked-Triple, recover_row-Triple}

-- this is committed, and no other worker is about to insert
pub record IsQuiet {R : Type 0} (saved : Db) (w : World R) : Type 0 where
  pub committed : w.saved ≡ saved
  pub alone : w.rivals ≡ []

module _ {R : Type 0} (saved : Db) where
  abbrev pub Quiet : {A : Type 0} → Exec (World R) A → Type 0
  Quiet m = Triple (IsQuiet saved) (λ _. IsQuiet saved) (IsQuiet saved) m

  -- an action that leaves what is committed, and the other workers
  pub Quiet-of :
      {A : Type 0} (m : Exec (World R) A)
      → ((w : World R) → ((m w).1.saved ≡ w.saved) × ((m w).1.rivals ≡ w.rivals))
      → Quiet m
  Quiet-of m same =
      Triple-keeps (IsQuiet saved) m
        (λ w h. record { committed = (same w).0 ∙ h.committed; alone = (same w).1 ∙ h.alone })

  pub flush_row-Quiet : (sub : Subscription) → Quiet (flush_row sub)
  unfolding flush_row
  flush_row-Quiet sub = Quiet-of (flush_row sub) (λ w. ground arith)

  pub provider_call-Quiet : {A : Type 0} (call : Exec R A) → Quiet (provider_call call)
  unfolding provider_call
  provider_call-Quiet call = Quiet-of (provider_call call) (λ w. (refl, refl))

  audit_if-Quiet : (b : Bool) (row : SubscriptionAudit) → Quiet (audit_if b row)
  unfolding audit_if record_audit
  audit_if-Quiet true row = Quiet-of _ (λ w. (refl, refl))
  audit_if-Quiet false row = Triple-pure tt (λ w h. h)

  mark_if-Quiet : (b : Bool) (user_id : String) → Quiet (mark_if b user_id)
  unfolding mark_if mark_entitlements_stale
  mark_if-Quiet true user_id = Quiet-of _ (λ w. (refl, refl))
  mark_if-Quiet false user_id = Triple-pure tt (λ w h. h)

  write_row-Quiet :
      (b c : Bool) (row : SubscriptionAudit) (sub : Subscription) → Quiet (write_row b row c sub)
  unfolding write_row
  write_row-Quiet b c row sub = Triple-bind (audit_if b row) _ (audit_if-Quiet b row) λ _.
      Triple-bind (flush_row sub) _ (flush_row-Quiet sub) λ _.
        Triple-bind (mark_if c sub.user_id) _ (mark_if-Quiet c sub.user_id)
          λ _. Triple-pure (some sub) (λ w h. h)

  insert_row-IsQuiet :
      (found : Option Subscription) (sub : Subscription) (w : World R)
      → IsQuiet saved w
      → IsQuiet saved (insert_row found sub w).1
  unfolding insert_row
  insert_row-IsQuiet (some old) sub w h = Triple-end (IsQuiet saved) _ w (flush_row-Quiet sub) h
  insert_row-IsQuiet none sub w h =
      elim (Bool-cases (is_some (find_by_user sub.user_id w.db.subscriptions))) [
        | inl taken ↦ rw taken h
        | inr new ↦ rw new (Triple-end (IsQuiet saved) _ w (flush_row-Quiet sub) h)
      ]

  after_insert-IsQuiet :
      (customer : String) (sub : Subscription) (r : Result (Unit {0})) (w : World R)
      → IsQuiet saved w
      → IsQuiet saved (after_insert customer sub (r, w)).1
  unfolding after_insert
  after_insert-IsQuiet customer sub (err integrity_error) w h =
      Triple-end (IsQuiet saved) (recover_row customer sub.user_id) w
        (recover_row-Triple (IsQuiet saved) customer sub.user_id) h
  after_insert-IsQuiet customer sub _ w h = h

  rivals_commit-IsQuiet : (w : World R) → IsQuiet saved w → IsQuiet saved (rivals_commit w)
  unfolding rivals_commit
  rivals_commit-IsQuiet w h = record {
    committed =
        ap (λ rows. record w.saved { subscriptions = w.saved.subscriptions ++ rows }) h.alone
        ∙ ap (λ rows. record w.saved { subscriptions = rows }) (append-nil w.saved.subscriptions)
        ∙ h.committed;
    alone = refl;
  }

  claim_row-Quiet : (customer user_id : String) → Quiet (claim_row customer user_id)
  unfolding claim_row claim_found get_subscription
  claim_row-Quiet customer user_id =
      Triple-bind _ _ (query-Triple (IsQuiet saved) (λ db. find_by_user user_id db.subscriptions))
        λ found.
          let sub = claimed_row customer user_id found in
          Triple-keeps (IsQuiet saved) _ λ w h.
            after_insert-IsQuiet customer sub _ _
              (insert_row-IsQuiet found sub _ (rivals_commit-IsQuiet w h))

module _ {R : Type 0} (settings : Settings) (stripe : BillingProvider R) (saved : Db) where
  mirror-Quiet :
      (reason : String) (event : Option String) (sub : Subscription)
      (remote : Option RemoteSubscription)
      → Quiet saved (mirror settings stripe reason event sub remote)
  unfolding mirror
  mirror-Quiet reason event sub remote = record {
    at = λ w h. (write_row-Quiet saved _ _ _ _).at w h;
  }

  adopt_user-Quiet :
      (reason : String) (event : Option String) (customer : String) (remote : RemoteSubscription)
      (user : Option String)
      → Quiet saved (adopt_user settings stripe reason event customer remote user)
  unfolding adopt_user
  adopt_user-Quiet reason event customer remote none = Triple-pure none (λ w h. h)
  adopt_user-Quiet reason event customer remote (some user_id) =
      Triple-if (user_id == "") _ _ (λ _. Triple-pure none (λ w h. h))
        λ _.
          Triple-if (is_marked (lookup orphaned_at remote.metadata)) _ _
            (λ _. Triple-pure none (λ w h. h))
            λ _.
              Triple-bind (claim_row customer user_id) _ (claim_row-Quiet saved customer user_id)
                λ sub. mirror-Quiet reason event sub (some remote)

  adopt-Quiet :
      (reason : String) (event : Option String) (customer : String)
      (remote : Option RemoteSubscription)
      → Quiet saved (adopt settings stripe reason event customer remote)
  unfolding adopt
  adopt-Quiet reason event customer none = Triple-pure none (λ w h. h)
  adopt-Quiet reason event customer (some remote) =
      Triple-if (belongs_to_this_service settings.stripe_price_ids (some remote)) _ _
        (λ _.
          Triple-bind (provider_call (stripe.retrieve_customer customer)) _
            (provider_call-Quiet saved (stripe.retrieve_customer customer))
            λ found. adopt_user-Quiet reason event customer remote found.user_id)
        (λ _. Triple-pure none (λ w h. h))

  sync_found-Quiet :
      (reason : String) (event : Option String) (customer : String) (found : Option Subscription)
      → Quiet saved (sync_found settings stripe reason event customer found)
  unfolding sync_found
  sync_found-Quiet reason event customer none =
      Triple-bind _ _ (provider_call-Quiet saved (stripe.fetch_current_subscription customer))
        λ remote. adopt-Quiet reason event customer remote
  sync_found-Quiet reason event customer (some sub) =
      Triple-bind _ _ (provider_call-Quiet saved (stripe.fetch_current_subscription customer))
        λ remote. mirror-Quiet reason event sub remote

  pub sync-Quiet :
      (reason : String) (event : Option String) (customer : String)
      → Quiet saved (sync_subscription settings stripe reason event customer)
  unfolding sync_subscription
  sync-Quiet reason event customer =
      Triple-bind (find_locked customer) _ (find_locked-Triple (IsQuiet saved) customer)
        λ found. sync_found-Quiet reason event customer found
