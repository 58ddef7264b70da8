-- ===== src/Sync/Mirror/Unknown.antt =====
-- The sync of a customer who has no row: what it declines to record.
use subscription_service.Sync.{belongs_to_this_service}
use subscription_service.World.Session.{provider_call, query}
use subscription_service.Effects.{ok, ◌>>=◌}
use subscription_service.Provider.{RemoteCustomer, RemoteSubscription, BillingProvider}
use subscription_service.World.Database.{find_by_customer}
use subscription_service.Settings.{Settings}
use subscription_service.World.{World}
use subscription_service.Prelude.{
  Bool-cases, Option, String, any, false, inl, inr, lookup, none, refl, some, true, ◌==◌, ◌∙◌, ◌≡◌,
}
use subscription_service.Sync.Mirror.{
  orphaned_at, is_marked, sync_found, adopt, adopt_user, sync_subscription, find_locked,
  find_customer,
}

-- The session finds no row of the customer, and no one holds its lock.
pub record HasNoRow {R : Type 0} (customer : String) (w : World R) : Type 0 where
  pub up : w.db_up ≡ true
  pub unlocked : any (λ c. c == customer) w.locked ≡ false
  pub absent : find_by_customer customer w.db.subscriptions ≡ none

module _ {R : Type 0} (settings : Settings) (stripe : BillingProvider R) where
  -- with no row to lock, Stripe is asked first
  sync_absent :
      (reason : String) (event : Option String) (customer : String) (w : World R)
      {remote : Option RemoteSubscription} {r : R}
      → HasNoRow customer w
      → stripe.fetch_current_subscription customer w.remote ≡ (ok remote, r)
      → sync_subscription settings stripe reason event customer w
        ≡ adopt settings stripe reason event customer remote (record w { remote = r })
  unfolding sync_subscription sync_found ◌>>=◌ find_locked find_customer query provider_call
  sync_absent reason event customer w h fetched = rw (h.unlocked, h.up, h.absent, fetched)

  -- For a customer with no row whose subscription is absent or on a price of another application,
  -- where the database and Stripe answer and no lock is in the way, the sync records nothing: it returns none, and only Stripe's own state may have moved.
  pub sync_foreign :
      (reason : String) (event : Option String) (customer : String) (w : World R)
      {remote : Option RemoteSubscription} {r : R}
      → HasNoRow customer w
      → stripe.fetch_current_subscription customer w.remote ≡ (ok remote, r)
      → belongs_to_this_service settings.stripe_price_ids remote ≡ false
      → sync_subscription settings stripe reason event customer w
        ≡ (ok none, record w { remote = r })
  unfolding adopt
  sync_foreign reason event customer w {remote = none} h fetched foreign =
      sync_absent reason event customer w h fetched
  sync_foreign reason event customer w {remote = some s} h fetched foreign =
      sync_absent reason event customer w h fetched ∙ rw foreign

  adopt_user_marked :
      (reason : String) (event : Option String) (customer : String) (s : RemoteSubscription)
      (user : Option String) (w : World R)
      → is_marked (lookup orphaned_at s.metadata) ≡ true
      → adopt_user settings stripe reason event customer s user w ≡ (ok none, w)
  unfolding adopt_user
  adopt_user_marked reason event customer s none w marked = refl
  adopt_user_marked reason event customer s (some user_id) w marked =
      elim (Bool-cases (user_id == "")) [ inl empty ↦ rw empty | inr named ↦ rw named (rw marked) ]

  -- An orphaned subscription, ours or not, is not adopted.
  adopt_orphaned :
      (reason : String) (event : Option String) (customer : String) (w : World R)
      (s : RemoteSubscription) {found : RemoteCustomer} {r' : R}
      → stripe.retrieve_customer customer w.remote ≡ (ok found, r')
      → is_marked (lookup orphaned_at s.metadata) ≡ true
      → let (result, w') = adopt settings stripe reason event customer (some s) w in
        (result ≡ ok none) × (w'.db ≡ w.db) × (w'.saved ≡ w.saved) × (w'.marks ≡ w.marks)
  unfolding adopt ◌>>=◌ provider_call
  adopt_orphaned reason event customer w s {found} {r'} named marked =
      elim (Bool-cases (belongs_to_this_service settings.stripe_price_ids (some s))) [
        | inl ours ↦ rw ours (
            rw named (
              rw
                (adopt_user_marked reason event customer s found.user_id (record w { remote = r' })
                  marked)
                (refl, refl, refl, refl)))
        | inr foreign ↦ rw foreign (refl, refl, refl, refl)
      ]

  -- A subscription that reconcile has marked as orphaned brings back no user: for a customer with no
  -- row, where the database and Stripe answer and no lock is in the way, the sync returns none and
  -- records nothing, whoever the customer names.
  pub sync_orphaned :
      (reason : String) (event : Option String) (customer : String) (w : World R)
      {s : RemoteSubscription} {found : RemoteCustomer} {r r' : R}
      → HasNoRow customer w
      → stripe.fetch_current_subscription customer w.remote ≡ (ok (some s), r)
      → stripe.retrieve_customer customer r ≡ (ok found, r')
      → is_marked (lookup orphaned_at s.metadata) ≡ true
      → let (result, w') = sync_subscription settings stripe reason event customer w in
        (result ≡ ok none) × (w'.db ≡ w.db) × (w'.saved ≡ w.saved) × (w'.marks ≡ w.marks)
  sync_orphaned reason event customer w {s} {found} {r} h fetched named marked =
      rw (sync_absent reason event customer w h fetched)
        (adopt_orphaned reason event customer (record w { remote = r }) s named marked)
